-- ===== src/Harness/Session/Answers.antt =====
-- The requests of the agent to the human in harness/internal/acp/session.go: answerAgentRequest and
-- answerElicitation. The answer of the attached viewers is given, and so is the decoding of JSON.
pub mod Due
use mathlib.Core.Bool.{true≢false}
use agentic_controller.Prelude.{
  ap, sym, ◌∙◌, ℕ, ◌≡◌, refl, String, Bool, true, false, not, ◌&&◌, ◌||◌, ◌≢◌, eq_refl, eq_iff,
  ◌++◌, Option, none, some, List, [], ◌∷◌, ◌==◌, any, arith, if◌then◌else◌, ◌⊎◌, inl, inr,
  Bool-cases,
}

pub record PermissionOption : Type 0 where
  pub option_id : String
  pub kind : String

-- A request with the options of a permission request, `none` where its params do not decode.
pub record Request : Type 0 where
  pub method : String
  pub options : Option (List PermissionOption)

-- what the harness replies
pub data Reply : Type 0 where
  -- the answer of a viewer, as it is
  relayed : String → Reply
  -- an option of a permission request
  selected : String → Reply
  cancelled_outcome : Reply
  cancel_action : Reply
  method_not_found : Reply

-- `PermissionForwardOutcome`, with the answer
pub data Forwarded : Type 0 where
  no_viewers : Forwarded
  answered_by_viewer : String → Forwarded
  timed_out : Forwarded

-- What answering does, in order: it latches the unanswered question, replies, cancels the turn.
pub data Act : Type 0 where
  latch : Act
  reply : Reply → Act
  cancel_turn : Act

unfoldable pub deny : List PermissionOption → Reply
deny [] = cancelled_outcome
deny (o ∷ rest) =
    let later = deny rest in if o.kind == "reject_once" then selected o.option_id else later

unfoldable pub forward_permission : List PermissionOption → Option Forwarded → Reply
unfolding deny
forward_permission options (some (answered_by_viewer answer)) = relayed answer
forward_permission options (some timed_out) = deny options
forward_permission options (some no_viewers) = deny options
forward_permission options none = deny options

unfoldable pub answer_permission : Option (List PermissionOption) → Option Forwarded → Reply
unfolding forward_permission
answer_permission none forwarded = cancelled_outcome
answer_permission (some options) forwarded = forward_permission options forwarded

-- `cancelTurn`, of the run session where there is one
cancel_turn_of : String → List Act
cancel_turn_of session_id = if session_id == "" then [] else cancel_turn ∷ []

-- `answerElicitation`
unfoldable pub answer_elicitation : String → Option Forwarded → List Act
unfolding cancel_turn_of
answer_elicitation session_id (some (answered_by_viewer answer)) = reply (relayed answer) ∷ []
answer_elicitation session_id _ = latch ∷ reply cancel_action ∷ cancel_turn_of session_id

-- `answerAgentRequest`
unfoldable pub answer_agent_request : String → Request → Option Forwarded → List Act
unfolding answer_elicitation answer_permission
answer_agent_request session_id q forwarded =
    if q.method == "elicitation/create"
    then answer_elicitation session_id forwarded
    else if q.method == "session/request_permission"
    then reply (answer_permission q.options forwarded) ∷ []
    else reply method_not_found ∷ []

-- the run's requests one after the other, each with what the viewers make of it
unfoldable pub answer_all : String → List (Request × Option Forwarded) → List Act
unfolding answer_agent_request
answer_all session_id [] = []
answer_all session_id ((q, forwarded) ∷ rest) =
    answer_agent_request session_id q forwarded ++ answer_all session_id rest

is_latch : Act → Bool
is_latch latch = true
is_latch (reply r) = false
is_latch cancel_turn = false

-- `HITLGateUnanswered`, after what has been done
unfoldable pub hitl_gate_unanswered : List Act → Bool
unfolding is_latch
hitl_gate_unanswered acts = any is_latch acts

abbrev pub replies : List Act → List Reply
replies [] = []
replies (reply r ∷ acts) = r ∷ replies acts
replies (latch ∷ acts) = replies acts
replies (cancel_turn ∷ acts) = replies acts

abbrev is_viewed : Option Forwarded → Bool
is_viewed (some (answered_by_viewer answer)) = true
is_viewed _ = false

-- a question that no viewer has answered
abbrev pub is_unanswered : Request × Option Forwarded → Bool
is_unanswered (q, forwarded) = q.method == "elicitation/create" && not (is_viewed forwarded)

abbrev rejects : String → List PermissionOption → Bool
rejects id options = any (λ o. o.kind == "reject_once" && o.option_id == id) options

-- A reply that lets nothing happen that a viewer has not allowed: it is the answer of a viewer, a
-- rejection that the request offers, or a refusal.
abbrev pub IsDue : Request → Option Forwarded → Reply → Type 0
IsDue q forwarded (relayed answer) = forwarded ≡ some (answered_by_viewer answer)
IsDue q forwarded (selected id) =
    (options : List PermissionOption) × (q.options ≡ some options)
    × (rejects id options ≡ true)
    × (is_viewed forwarded ≡ false)
IsDue q forwarded cancelled_outcome = q.method ≡ "session/request_permission"
IsDue q forwarded cancel_action = is_unanswered (q, forwarded) ≡ true
IsDue q forwarded method_not_found =
    (q.method ≢ "elicitation/create") × (q.method ≢ "session/request_permission")

-- exactly one reply, which is due
pub data RepliesOnce (q : Request) (forwarded : Option Forwarded) (acts : List Act) : Type 0 where
  once : (r : Reply) → replies acts ≡ r ∷ [] → IsDue q forwarded r → RepliesOnce q forwarded acts
