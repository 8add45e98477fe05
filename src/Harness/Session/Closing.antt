-- ===== src/Harness/Session/Closing.antt =====
-- The agent's final message: what it says after its last tool call, or after the last word of a human.
use agentic_controller.Prelude.{
  ℕ, ◌≡◌, refl, sym, ap, ◌∙◌, String, true, false, not, ◌&&◌, ◌||◌, Option, none, some, List, [],
  ◌∷◌, ◌++◌, map, ◌==◌, arith, if◌then◌else◌, Bool-cases, inl, inr,
}
use agentic_controller.Text.Split.{is_nil}
use agentic_controller.Harness.Session.{
  Frame, Turn, Content, PromptUpdate, UsageUpdate, fresh, session_update_method,
  goose_update_method, continue_last, append_closing, add_content, is_break, handle_prompt_update,
  handle_goose_notice, handle_prompt_notification, add_notice, set_cost, set_context, add_usage,
  track_usage, count_tool_call, process, process_all, NoticeUpdate,
}
use agentic_controller.Text.{trim_space}
use agentic_controller.Harness.Session.Words.{
  said, broken_off, silent, Word, word_of_content, word_of_update, word_of, has_break, last_words,
  message_from, messages, hear,
}

-- two turns with the same closing
record Agree (t u : Turn) : Type 0 where
  closing : t.closing ≡ u.closing
  id : t.closing_message_id ≡ u.closing_message_id

Agree-trans : {t u v : Turn} → Agree t u → Agree u v → Agree t v
Agree-trans a b = record { closing = a.closing ∙ b.closing; id = a.id ∙ b.id }

Agree-self : (t : Turn) → Agree t t
Agree-self t = record { closing = refl; id = refl }

track_usage-Agree : (f : Frame) (t : Turn) → Agree (track_usage f t) t
unfolding track_usage
track_usage-Agree f t = ground (arith, add_usage-Agree f.usage t)
  where
    set_cost-Agree : (c : Option ℕ) (t : Turn) → Agree (set_cost c t) t
    set_cost-Agree c t = unfold set_cost in ground arith

    set_context-Agree : (u : UsageUpdate) (t : Turn) → Agree (set_context u t) t
    set_context-Agree u t = unfold set_context in ground arith

    add_usage-Agree : (u : Option UsageUpdate) (t : Turn) → Agree (add_usage u t) t
    add_usage-Agree none t = unfold add_usage in Agree-self t
    add_usage-Agree (some u) t =
        unfold add_usage in
        ground (arith, set_context-Agree u (set_cost u.cost t), set_cost-Agree u.cost t)

count_tool_call-Agree : (f : Frame) (t : Turn) → Agree (count_tool_call f t) t
unfolding count_tool_call
count_tool_call-Agree f t = ground arith

add_notice-Agree : (s : List ℕ) (t : Turn) → Agree (add_notice s t) t
unfolding add_notice
add_notice-Agree [] t = Agree-self t
add_notice-Agree (c ∷ s) t = record { closing = refl; id = refl }

handle_goose_notice-Agree : (n : Option NoticeUpdate) (t : Turn) → Agree (handle_goose_notice n t) t
unfolding handle_goose_notice
handle_goose_notice-Agree none t = Agree-self t
handle_goose_notice-Agree (some n) t = ground (arith, add_notice-Agree (trim_space n.message) t)

add_content-Agree :
    (id : String) (c : Option Content) (t : Turn)
    → Agree (add_content id c t) (hear (word_of_content id c) t)
unfolding add_content append_closing
add_content-Agree id none t = Agree-self t
add_content-Agree id (some c) t = elim (Bool-cases (c.content_type == "text")) [
  | inl e ↦ rw e (record { closing = refl; id = refl })
  | inr e ↦ rw e (Agree-self t)
]

handle_prompt_update-Agree :
    (u : Option PromptUpdate) (t : Turn)
    → Agree (handle_prompt_update u t) (hear (word_of_update u) t)
unfolding handle_prompt_update
handle_prompt_update-Agree none t = Agree-self t
handle_prompt_update-Agree (some u) t =
    elim (Bool-cases (u.session_update == "agent_message_chunk")) [
      | inl e ↦ rw e (add_content-Agree u.message_id u.content t)
      | inr e ↦ elim (Bool-cases (is_break u.session_update)) [
        | inl f ↦ rw (e, f) (record { closing = refl; id = refl })
        | inr f ↦ rw (e, f) (Agree-self t)
      ]
    ]

handle_prompt_notification-Agree :
    (f : Frame) (t : Turn) → Agree (handle_prompt_notification f t) (hear (word_of f) t)
unfolding handle_prompt_notification
handle_prompt_notification-Agree f t = elim (Bool-cases (f.method == goose_update_method)) [
  | inl e ↦ rw e (handle_goose_notice-Agree f.notice t)
  | inr e ↦ elim (Bool-cases (f.method == session_update_method)) [
    | inl g ↦ rw (e, g) (handle_prompt_update-Agree f.prompt t)
    | inr g ↦ rw (e, g) (Agree-self t)
  ]
]

hear-Agree : (w : Word) {t u : Turn} → Agree t u → Agree (hear w t) (hear w u)
unfolding append_closing
hear-Agree (said s id) h = record { closing = rw (h.closing, h.id) refl; id = refl }
hear-Agree broken_off h = record { closing = refl; id = h.id }
hear-Agree silent h = h

process-Agree : (t : Turn) (f : Frame) → Agree (process t f) (hear (word_of f) t)
unfolding process
process-Agree t f = Agree-trans (track_usage-Agree f _) (
    Agree-trans (handle_prompt_notification-Agree f _)
      (hear-Agree (word_of f) (count_tool_call-Agree f t)))

-- the closing that pieces leave, after `closing` with the id of its last piece
extend : List (List ℕ) → String → List (List ℕ × String) → List (List ℕ)
unfolding messages message_from
extend [] id ws = messages ws
extend (s ∷ []) id ws = message_from s id ws
extend (s ∷ t ∷ rest) id ws = s ∷ extend (t ∷ rest) id ws

extend_nothing : (cs : List (List ℕ)) (id : String) → extend cs id [] ≡ cs
unfolding extend
extend_nothing [] id = refl
extend_nothing (s ∷ []) id = refl
extend_nothing (s ∷ t ∷ rest) id = ap (λ r. s ∷ r) (extend_nothing (t ∷ rest) id)

extend-continue_last :
    (cs : List (List ℕ)) (c : List ℕ) (u : List ℕ) (id next : String) (ws : List (List ℕ × String))
    → (next == "" || next == id) ≡ true
    → extend (c ∷ cs) id ((u, next) ∷ ws) ≡ extend (continue_last (c ∷ cs) u) next ws
unfolding extend continue_last
extend-continue_last [] c u id next ws h = rw h refl
extend-continue_last (d ∷ []) c u id next ws h =
    ap (λ r. c ∷ r) (extend-continue_last [] d u id next ws h)
extend-continue_last (d ∷ e ∷ cs) c u id next ws h =
    ap (λ r. c ∷ r) (extend-continue_last (e ∷ cs) d u id next ws h)

extend-append :
    (cs : List (List ℕ)) (c : List ℕ) (u : List ℕ) (id next : String) (ws : List (List ℕ × String))
    → (next == "" || next == id) ≡ false
    → extend (c ∷ cs) id ((u, next) ∷ ws) ≡ extend ((c ∷ cs) ++ u ∷ []) next ws
unfolding extend
extend-append [] c u id next ws h = rw h refl
extend-append (d ∷ cs) c u id next ws h = ap (λ r. c ∷ r) (extend-append cs d u id next ws h)

extend-append_closing :
    (t : Turn) (u : List ℕ) (next : String) (ws : List (List ℕ × String))
    → extend t.closing t.closing_message_id ((u, next) ∷ ws)
      ≡ extend (append_closing u next t).closing next ws
unfolding append_closing
extend-append_closing t u next ws = by_closing t.closing
  where
    by_closing :
        (cs : List (List ℕ))
        → extend cs t.closing_message_id ((u, next) ∷ ws)
          ≡ extend
              (if not (is_nil cs) && (next == "" || next == t.closing_message_id)
                then continue_last cs u
                else cs ++ u ∷ [])
              next
              ws
    by_closing [] = unfold extend in refl
    by_closing (c ∷ cs) = elim (Bool-cases (next == "" || next == t.closing_message_id)) [
      | inl e ↦ rw e (extend-continue_last cs c u t.closing_message_id next ws e)
      | inr e ↦ rw e (extend-append cs c u t.closing_message_id next ws e)
    ]

-- the closing that words leave
heard : List (List ℕ) → String → List Word → List (List ℕ)
unfolding extend messages last_words
heard cs id ws = if has_break ws then messages (last_words ws) else extend cs id (last_words ws)

heard-hear :
    (w : Word) (t : Turn) (ws : List Word)
    → heard (hear w t).closing (hear w t).closing_message_id ws
      ≡ heard t.closing t.closing_message_id (w ∷ ws)
unfolding heard append_closing
heard-hear w t ws = elim (Bool-cases (has_break ws)) [ inl e ↦ later w e | inr e ↦ here w e ]
  where
    later :
        (w : Word)
        → has_break ws ≡ true
        → heard (hear w t).closing (hear w t).closing_message_id ws
          ≡ heard t.closing t.closing_message_id (w ∷ ws)
    later (said s id) e = rw e refl
    later broken_off e = rw e refl
    later silent e = rw e refl

    here :
        (w : Word)
        → has_break ws ≡ false
        → heard (hear w t).closing (hear w t).closing_message_id ws
          ≡ heard t.closing t.closing_message_id (w ∷ ws)
    here (said s id) e = rw e (sym (extend-append_closing t s id (last_words ws)))
    here broken_off e = rw e refl
    here silent e = rw e refl

closing-process_all :
    (t : Turn) (fs : List Frame)
    → (process_all t fs).closing ≡ heard t.closing t.closing_message_id (map word_of fs)
unfolding process_all
closing-process_all t [] = unfold heard in sym (extend_nothing t.closing t.closing_message_id)
closing-process_all t (f ∷ fs) =
    let next = process-Agree t f in
    closing-process_all (process t f) fs
    ∙ rw (next.closing, next.id) (heard-hear (word_of f) t (map word_of fs))

heard_afresh : (ws : List Word) → heard [] "" ws ≡ messages (last_words ws)
unfolding heard
heard_afresh ws = elim (Bool-cases (has_break ws)) [ inl e ↦ rw e refl | inr e ↦ rw e refl ]

-- The closing text of a turn is made of the pieces after the last tool call, or the last word of a
-- human, of all the notifications of the turn, each message of the agent in one entry.
pub closing-messages :
    (fs : List Frame) → (process_all fresh fs).closing ≡ messages (last_words (map word_of fs))
closing-messages fs = closing-process_all fresh fs ∙ heard_afresh (map word_of fs)
