-- ===== src/Harness/Session/Limits.antt =====
-- The cost limit of a prompt, and the count of its turns.
use agentic_controller.Prelude.{
  ℕ, zero, suc, ◌+◌, ◌<◌, ◌≡◌, ◌≢◌, refl, sym, ap, ◌∙◌, Bool, true, false, not, ◌&&◌, Option, none,
  some, List, [], ◌∷◌, ◌++◌, eqb, ltb, leb, arith, if◌then◌else◌, Bool-cases, inl, inr,
}
use mathlib.Core.Path.{subst}
use mathlib.Core.List.{append-nil}
use agentic_controller.Harness.Outcome.{
  PromptResult, PromptError, connection_lost, other_error, PromptCall, answered, broken,
  limit_max_cost, classify_outcome,
}
use agentic_controller.Harness.Session.{
  Frame, Turn, Response, rpc_error, result, Effect, turn_advanced, cancel, fresh, is_tool_call,
  count_tool_call, process, process_all, Event, notified, responded, disconnected, expired,
  Progress, waiting, returned, respond, disconnect, maybe_cancel_for_cost, receive, await,
  send_prompt,
}
use agentic_controller.Harness.Session.Agreement.{Agree, process-Agree}

-- how often session/cancel is sent
abbrev pub cancels : List Effect → ℕ
cancels [] = 0
cancels (turn_advanced n ∷ es) = cancels es
cancels (cancel ∷ es) = suc (cancels es)

-- the turns that the turn handler is told of
abbrev pub advances : List Effect → List ℕ
advances [] = []
advances (turn_advanced n ∷ es) = n ∷ advances es
advances (cancel ∷ es) = advances es

-- 1, 2, ..., n
abbrev pub count_up : ℕ → List ℕ
count_up zero = []
count_up (suc n) = count_up n ++ suc n ∷ []

cancels-append : (es fs : List Effect) → cancels (es ++ fs) ≡ cancels es + cancels fs
cancels-append [] fs = omega arith
cancels-append (turn_advanced n ∷ es) fs = cancels-append es fs
cancels-append (cancel ∷ es) fs = omega (arith, cancels-append es fs)

advances-append : (es fs : List Effect) → advances (es ++ fs) ≡ advances es ++ advances fs
advances-append [] fs = refl
advances-append (turn_advanced n ∷ es) fs = ap (λ r. n ∷ r) (advances-append es fs)
advances-append (cancel ∷ es) fs = advances-append es fs

-- The turn handler is told of each turn once and in order; session/cancel is sent at most once, only
-- where a limit is set, and the result says whether it was.
pub record IsGuarded (cost_limit : ℕ) (t : Turn) : Type 0 where
  pub counted : advances t.effects ≡ count_up t.result.turns_used
  pub once : cancels t.effects ≡ (if t.cancel_sent then 1 else 0)
  pub told : t.result.cost_limit_reached ≡ t.cancel_sent
  pub limited : t.cancel_sent && eqb cost_limit 0 ≡ false

count_tool_call-IsGuarded :
    (cost_limit : ℕ) (f : Frame) (t : Turn)
    → IsGuarded cost_limit t
    → IsGuarded cost_limit (count_tool_call f t)
unfolding count_tool_call
count_tool_call-IsGuarded cost_limit f t h = elim (Bool-cases (is_tool_call f)) [
  | inr e ↦ rw e h
  | inl e ↦
      let n = t.result.turns_used in
      let same : n + 1 ≡ suc n = omega arith in
      rw (e, same)
        (record {
          counted =
              advances-append t.effects (turn_advanced (suc n) ∷ [])
              ∙ ap (λ r. r ++ suc n ∷ []) h.counted;
          once = omega (arith, cancels-append t.effects (turn_advanced (suc n) ∷ []), h.once);
          told = h.told;
          limited = h.limited;
        })
]

Agree-IsGuarded :
    (cost_limit : ℕ) {t u : Turn} → Agree t u → IsGuarded cost_limit u → IsGuarded cost_limit t
Agree-IsGuarded cost_limit a h = record {
  counted = rw (a.effects, a.turns) h.counted;
  once = rw (a.effects, a.sent) h.once;
  told = rw (a.reached, a.sent) h.told;
  limited = rw a.sent h.limited;
}

process_all-IsGuarded :
    (cost_limit : ℕ) (t : Turn) (fs : List Frame)
    → IsGuarded cost_limit t
    → IsGuarded cost_limit (process_all t fs)
unfolding process_all
process_all-IsGuarded cost_limit t [] h = h
process_all-IsGuarded cost_limit t (f ∷ fs) h =
    process_all-IsGuarded cost_limit (process t f) fs
      (Agree-IsGuarded cost_limit (process-Agree t f) (count_tool_call-IsGuarded cost_limit f t h))

module _ (cost_limit : ℕ) where
  maybe_cancel_for_cost-IsGuarded :
      (t : Turn)
      → IsGuarded cost_limit t
      → IsGuarded cost_limit (maybe_cancel_for_cost cost_limit t)
  unfolding maybe_cancel_for_cost
  maybe_cancel_for_cost-IsGuarded t h =
      elim (Bool-cases (ltb 0 cost_limit && not t.cancel_sent && leb cost_limit t.result.cost)) [
        | inr e ↦ rw e h
        | inl e ↦
            let unsent : t.cancel_sent ≡ false = ground arith in
            let set : eqb cost_limit 0 ≡ false = ground arith in
            let none_yet : cancels t.effects ≡ 0 = rw unsent at h.once in
            rw e (record {
              counted = advances-append t.effects (cancel ∷ []) ∙ rw append-nil h.counted;
              once = omega (arith, cancels-append t.effects (cancel ∷ []), none_yet);
              told = refl;
              limited = set;
            })
      ]

  -- A reported cost that has reached the limit has been answered by session/cancel.
  abbrev pub is_over : Turn → Bool
  is_over t = ltb 0 cost_limit && leb cost_limit t.result.cost && not t.cancel_sent

  is_over-maybe_cancel_for_cost : (t : Turn) → is_over (maybe_cancel_for_cost cost_limit t) ≡ false
  unfolding maybe_cancel_for_cost
  is_over-maybe_cancel_for_cost t = ground arith

  -- the call returns the result that the turn has, where it returns one
  abbrev pub IsResultOf : PromptCall → Turn → Type 0
  IsResultOf (answered r) t = r ≡ t.result
  IsResultOf (broken e none) t = Unit
  IsResultOf (broken e (some r)) t = r ≡ t.result

  pub data Guarded : Progress → Type 0 where
    still : (t : Turn) → IsGuarded cost_limit t → is_over t ≡ false → Guarded (waiting t)
    done :
        (call : PromptCall) (t : Turn)
        → IsGuarded cost_limit t
        → IsResultOf call t
        → Guarded (returned call t)

  respond-Guarded : (r : Response) (t : Turn) → IsGuarded cost_limit t → Guarded (respond r t)
  unfolding respond
  respond-Guarded rpc_error t h = done _ t h refl
  respond-Guarded (result none) t h = done _ t h tt
  respond-Guarded (result (some reason)) t h =
      done _ _ (record { counted = h.counted; once = h.once; told = h.told; limited = h.limited })
        refl

  disconnect-Guarded :
      (r : Option Response) (t : Turn) → IsGuarded cost_limit t → Guarded (disconnect r t)
  unfolding disconnect
  disconnect-Guarded none t h = done _ t h refl
  disconnect-Guarded (some r) t h = respond-Guarded r t h

  receive-Guarded :
      (t : Turn) (e : Event) → IsGuarded cost_limit t → Guarded (receive cost_limit t e)
  unfolding receive
  receive-Guarded t (notified f) h =
      still (maybe_cancel_for_cost cost_limit (process t f))
        (maybe_cancel_for_cost-IsGuarded (process t f)
          (process_all-IsGuarded cost_limit t (f ∷ []) h))
        (is_over-maybe_cancel_for_cost (process t f))
  receive-Guarded t (responded fs r) h =
      respond-Guarded r (process_all t fs) (process_all-IsGuarded cost_limit t fs h)
  receive-Guarded t (disconnected fs r) h =
      disconnect-Guarded r (process_all t fs) (process_all-IsGuarded cost_limit t fs h)
  receive-Guarded t expired h = done (broken other_error none) t h tt

  await-Guarded : (p : Progress) (es : List Event) → Guarded p → Guarded (await cost_limit p es)
  unfolding await
  await-Guarded p [] h = h
  await-Guarded (returned call t) (e ∷ es) h = h
  await-Guarded (waiting t) (e ∷ es) (still _ h over) =
      await-Guarded (receive cost_limit t e) es (receive-Guarded t e h)

  fresh-IsGuarded : IsGuarded cost_limit fresh
  fresh-IsGuarded = record { counted = refl; once = refl; told = refl; limited = refl }

  fresh_over : is_over fresh ≡ false
  fresh_over = ground arith

  -- Whatever the events of a prompt, the turn handler is told of the turns 1, 2 and so on up to the
  -- number in the result, session/cancel is sent at most once, only where a cost limit is set, and as
  -- the result says; while the prompt is awaited, a reported cost that has reached the limit has been
  -- answered by one.
  pub send_prompt-Guarded :
      (sent : Bool) (es : List Event) → Guarded (send_prompt cost_limit sent es)
  unfolding send_prompt
  send_prompt-Guarded true es =
      await-Guarded (waiting fresh) es (still fresh fresh-IsGuarded fresh_over)
  send_prompt-Guarded false es = done _ fresh fresh-IsGuarded tt

  reached_cost :
      (r : PromptResult) (native_max_turns : ℕ) (provider_error : Bool)
      → (classify_outcome (answered r) native_max_turns provider_error).1 ≡ limit_max_cost
      → r.cost_limit_reached ≡ true
  unfolding classify_outcome
  reached_cost r native_max_turns provider_error e = ground arith

  broken_cost :
      (error : PromptError) (o : Option PromptResult) (native_max_turns : ℕ) (provider_error : Bool)
      → (classify_outcome (broken error o) native_max_turns provider_error).1 ≢ limit_max_cost
  unfolding classify_outcome
  broken_cost connection_lost (some r) native_max_turns provider_error e = ground arith
  broken_cost connection_lost none native_max_turns provider_error e = cc
  broken_cost other_error o native_max_turns provider_error e = cc

  cancelled :
      (t : Turn)
      → IsGuarded cost_limit t
      → t.result.cost_limit_reached ≡ true
      → (cancels t.effects ≡ 1) × (0 < cost_limit)
  cancelled t h e =
      let sent : t.cancel_sent ≡ true = sym h.told ∙ e in
      let set : eqb cost_limit 0 ≡ false = rw sent at h.limited in (rw sent at h.once, ground arith)

  returned-Guarded :
      (p : Progress) (call : PromptCall) (t : Turn)
      → Guarded p
      → p ≡ returned call t
      → IsGuarded cost_limit t × IsResultOf call t
  returned-Guarded (waiting u) call t h e = cc
  returned-Guarded (returned c u) call t (done _ _ h k) e =
      subst
        (λ q. elim q [
          | waiting v ↦ Unit {0}
          | returned d v ↦ IsGuarded cost_limit v × IsResultOf d v
        ])
        e (h, k)

  -- A stage is reported as ended by the cost limit only where the prompt sent session/cancel, once, and
  -- a limit is set.
  pub classify_outcome-send_prompt :
      (sent : Bool) (es : List Event) (call : PromptCall) (t : Turn) (native_max_turns : ℕ)
      (provider_error : Bool)
      → send_prompt cost_limit sent es ≡ returned call t
      → (classify_outcome call native_max_turns provider_error).1 ≡ limit_max_cost
      → (cancels t.effects ≡ 1) × (0 < cost_limit)
  classify_outcome-send_prompt sent es (broken error o) t native_max_turns provider_error e k =
      absurd (broken_cost error o native_max_turns provider_error k)
  classify_outcome-send_prompt sent es (answered r) t native_max_turns provider_error e k =
      let parts = returned-Guarded _ (answered r) t (send_prompt-Guarded sent es) e in
      cancelled t parts.0 (
        ap (λ (q : PromptResult). q.cost_limit_reached) (sym parts.1)
        ∙ reached_cost r native_max_turns provider_error k)
