-- ===== src/Harness/Session/Answers/Due.antt =====
-- The reply to every request of the agent, and when the gate that fails the run is latched.
use mathlib.Core.Bool.{true≢false}
use agentic_controller.Prelude.{
  ap, sym, ◌∙◌, ◌≡◌, refl, String, Bool, true, false, not, ◌&&◌, ◌||◌, ◌≢◌, eq_refl, eq_iff, ◌++◌,
  Option, none, some, List, [], ◌∷◌, ◌==◌, any, arith, if◌then◌else◌, ◌⊎◌, inl, inr, Bool-cases,
}
use agentic_controller.Harness.Session.Answers.{
  PermissionOption, Request, relayed, selected, cancelled_outcome, cancel_action, method_not_found,
  Forwarded, no_viewers, answered_by_viewer, timed_out, Act, latch, reply, deny, forward_permission,
  answer_permission, cancel_turn_of, answer_elicitation, answer_agent_request, answer_all,
  hitl_gate_unanswered, replies, is_viewed, is_unanswered, rejects, IsDue, RepliesOnce, once,
}

-- no option, or the first that rejects
deny-cases :
    (options : List PermissionOption)
    → (deny options ≡ cancelled_outcome)
      ⊎ ((id : String) × (deny options ≡ selected id) × (rejects id options ≡ true))
unfolding deny
deny-cases [] = inl refl
deny-cases (o ∷ rest) = elim (Bool-cases (o.kind == "reject_once")) [
  | inl e ↦ rw e (inr (o.option_id, refl, rw (eq_refl o.option_id) refl))
  | inr e ↦ rw e (later (deny-cases rest))
]
  where
    later :
        ((deny rest ≡ cancelled_outcome)
          ⊎ ((id : String) × (deny rest ≡ selected id) × (rejects id rest ≡ true)))
        → (deny rest ≡ cancelled_outcome)
          ⊎ ((id : String) × (deny rest ≡ selected id)
              × ((false && o.option_id == id) || rejects id rest) ≡ true)
    later (inl h) = inl h
    later (inr (id, h, k)) = inr (id, h, k)

replies-cancel_turn_of : (session_id : String) → replies (cancel_turn_of session_id) ≡ []
unfolding cancel_turn_of
replies-cancel_turn_of session_id = ground arith

hitl_gate_unanswered-cancel_turn_of :
    (session_id : String) → hitl_gate_unanswered (cancel_turn_of session_id) ≡ false
unfolding hitl_gate_unanswered cancel_turn_of
hitl_gate_unanswered-cancel_turn_of session_id = ground arith

denied-IsDue :
    (q : Request) (forwarded : Option Forwarded) (options : List PermissionOption)
    → q.method ≡ "session/request_permission"
    → q.options ≡ some options
    → is_viewed forwarded ≡ false
    → IsDue q forwarded (deny options)
denied-IsDue q forwarded options m e v = elim (deny-cases options) [
  | inl h ↦ rw h m
  | inr (id, h, k) ↦ rw h (options, e, k, v)
]

forward_permission-IsDue :
    (q : Request) (forwarded : Option Forwarded) (options : List PermissionOption)
    → q.method ≡ "session/request_permission"
    → q.options ≡ some options
    → IsDue q forwarded (forward_permission options forwarded)
unfolding forward_permission
forward_permission-IsDue q none options m e = denied-IsDue q none options m e refl
forward_permission-IsDue q (some no_viewers) options m e = denied-IsDue q _ options m e refl
forward_permission-IsDue q (some timed_out) options m e = denied-IsDue q _ options m e refl
forward_permission-IsDue q (some (answered_by_viewer answer)) options m e = refl

answer_permission-IsDue :
    (q : Request) (forwarded : Option Forwarded) (o : Option (List PermissionOption))
    → q.method ≡ "session/request_permission"
    → q.options ≡ o
    → IsDue q forwarded (answer_permission o forwarded)
unfolding answer_permission
answer_permission-IsDue q forwarded none m e = m
answer_permission-IsDue q forwarded (some options) m e =
    forward_permission-IsDue q forwarded options m e

gate-RepliesOnce :
    (session_id : String) (q : Request) (forwarded : Option Forwarded)
    → is_unanswered (q, forwarded) ≡ true
    → RepliesOnce q forwarded (latch ∷ reply cancel_action ∷ cancel_turn_of session_id)
gate-RepliesOnce session_id q forwarded h =
    once cancel_action (ap (λ r. cancel_action ∷ r) (replies-cancel_turn_of session_id)) h

answer_elicitation-RepliesOnce :
    (session_id : String) (q : Request) (forwarded : Option Forwarded)
    → (q.method == "elicitation/create") ≡ true
    → RepliesOnce q forwarded (answer_elicitation session_id forwarded)
unfolding answer_elicitation
answer_elicitation-RepliesOnce session_id q (some (answered_by_viewer answer)) m =
    once (relayed answer) refl refl
answer_elicitation-RepliesOnce session_id q (some timed_out) m =
    gate-RepliesOnce session_id q _ (rw m refl)
answer_elicitation-RepliesOnce session_id q (some no_viewers) m =
    gate-RepliesOnce session_id q _ (rw m refl)
answer_elicitation-RepliesOnce session_id q none m = gate-RepliesOnce session_id q _ (rw m refl)

-- Every request of the agent gets exactly one reply, and one that lets nothing happen that a viewer has
-- not allowed: the answer of a viewer, a rejection that a permission request offers, or a refusal.
pub answer_agent_request-RepliesOnce :
    (session_id : String) (q : Request) (forwarded : Option Forwarded)
    → RepliesOnce q forwarded (answer_agent_request session_id q forwarded)
unfolding answer_agent_request
answer_agent_request-RepliesOnce session_id q forwarded =
    elim (Bool-cases (q.method == "elicitation/create")) [
      | inl e ↦ rw e (answer_elicitation-RepliesOnce session_id q forwarded e)
      | inr e ↦ elim (Bool-cases (q.method == "session/request_permission")) [
        | inl f ↦
            rw (e, f)
              (once (answer_permission q.options forwarded) refl (
                answer_permission-IsDue q forwarded q.options
                  ((eq_iff q.method "session/request_permission").0 f) refl))
        | inr f ↦ rw (e, f) (once method_not_found refl (differs e, differs f))
      ]
    ]
  where
    differs : {s : String} → (q.method == s) ≡ false → q.method ≢ s
    differs {s} e p = true≢false (sym ((eq_iff q.method s).1 p) ∙ e)

hitl_gate_unanswered-append :
    (a b : List Act)
    → hitl_gate_unanswered (a ++ b) ≡ (hitl_gate_unanswered a || hitl_gate_unanswered b)
unfolding hitl_gate_unanswered
hitl_gate_unanswered-append [] b = refl
hitl_gate_unanswered-append (x ∷ a) b = ground (arith, hitl_gate_unanswered-append a b)

hitl_gate_unanswered-answer_agent_request :
    (session_id : String) (q : Request) (forwarded : Option Forwarded)
    → hitl_gate_unanswered (answer_agent_request session_id q forwarded)
      ≡ is_unanswered (q, forwarded)
unfolding answer_agent_request hitl_gate_unanswered
hitl_gate_unanswered-answer_agent_request session_id q forwarded =
    elim (Bool-cases (q.method == "elicitation/create")) [
      | inl e ↦ rw e (gate forwarded)
      | inr e ↦ rw e (elsewhere (q.method == "session/request_permission"))
    ]
  where
    gate :
        (f : Option Forwarded)
        → hitl_gate_unanswered (answer_elicitation session_id f) ≡ not (is_viewed f)
    gate none = refl
    gate (some no_viewers) = refl
    gate (some timed_out) = refl
    gate (some (answered_by_viewer answer)) = refl

    elsewhere :
        (b : Bool)
        → hitl_gate_unanswered (
            if b
            then reply (answer_permission q.options forwarded) ∷ []
            else reply method_not_found ∷ [])
          ≡ false
    elsewhere true = refl
    elsewhere false = refl

-- After any requests of the agent the gate that fails the run is latched exactly when one of them was
-- a question that no viewer had answered.
pub hitl_gate_unanswered-answer_all :
    (session_id : String) (requests : List (Request × Option Forwarded))
    → hitl_gate_unanswered (answer_all session_id requests) ≡ any is_unanswered requests
unfolding answer_all
hitl_gate_unanswered-answer_all session_id [] = unfold hitl_gate_unanswered in refl
hitl_gate_unanswered-answer_all session_id ((q, forwarded) ∷ rest) = ground (
  arith,
  hitl_gate_unanswered-append (answer_agent_request session_id q forwarded)
      (answer_all session_id rest),
  hitl_gate_unanswered-answer_agent_request session_id q forwarded,
  hitl_gate_unanswered-answer_all session_id rest,
)
