-- ===== src/Harness/Outcome.antt =====
-- harness/cmd/migration-harness/outcome.go: what a prompt call makes of a stage.
use agentic_controller.Prelude.{
  ℕ, ◌+◌, String, Bool, ◌&&◌, Option, none, some, ◌==◌, ltb, leb, eqb, if◌then◌else◌,
}

pub data Outcome : Type 0 where
  succeeded failed limit_reached refused : Outcome

unfoldable pub outcome_name : Outcome → String
outcome_name succeeded = "succeeded"
outcome_name limit_reached = "limitReached"
outcome_name refused = "refused"
outcome_name failed = "failed"

unfoldable pub exit_code : Outcome → ℕ
exit_code succeeded = 0
exit_code limit_reached = 2
exit_code refused = 3
exit_code failed = 1

pub data LimitKind : Type 0 where
  limit_none limit_max_turns limit_max_cost : LimitKind

-- `acp.PromptResult`. The cost is in the smallest unit of the report, as a number.
pub record PromptResult : Type 0 where
  pub stop_reason : String
  pub turns_used : ℕ
  pub cost_limit_reached : Bool
  pub context_used : ℕ
  pub context_size : ℕ
  pub cost : ℕ

pub data PromptError : Type 0 where
  connection_lost other_error : PromptError

-- `SendPrompt` returns a result, or an error beside what it has of a result.
pub data PromptCall : Type 0 where
  answered : PromptResult → PromptCall
  broken : PromptError → Option PromptResult → PromptCall

abbrev pub stop_reason_max_turns : String
stop_reason_max_turns = "max_turn_requests"

-- the native turn limit is configured and used up
abbrev pub at_native_limit : ℕ → PromptResult → Bool
at_native_limit native_max_turns r = ltb 0 native_max_turns && leb native_max_turns r.turns_used

-- `native_max_turns` is 0 where no limit is set.
unfoldable pub classify_outcome : PromptCall → ℕ → Bool → Outcome × LimitKind
classify_outcome (broken connection_lost (some r)) native_max_turns provider_error =
    if at_native_limit native_max_turns r
    then (limit_reached, limit_max_turns)
    else (failed, limit_none)
classify_outcome (broken _ _) native_max_turns provider_error = (failed, limit_none)
classify_outcome (answered r) native_max_turns provider_error =
    if r.stop_reason == "cancelled" && r.cost_limit_reached
    then (limit_reached, limit_max_cost)
    else if r.stop_reason == "cancelled"
    then (failed, limit_none)
    else if provider_error && eqb r.turns_used 0
    then (failed, limit_none)
    else if r.stop_reason == stop_reason_max_turns
    then (limit_reached, limit_max_turns)
    else if at_native_limit native_max_turns r
    then (limit_reached, limit_max_turns)
    else if r.cost_limit_reached
    then (succeeded, limit_max_cost)
    else (succeeded, limit_none)

pub record Usage : Type 0 where
  pub turns_used : ℕ
  pub context_used : ℕ
  pub context_size : ℕ
  pub cost : ℕ

unfoldable pub combine_usage : PromptResult → Option PromptResult → Usage
combine_usage primary none = record {
  turns_used = primary.turns_used;
  context_used = primary.context_used;
  context_size = primary.context_size;
  cost = primary.cost;
}
combine_usage primary (some handoff) = record {
  turns_used = primary.turns_used + handoff.turns_used;
  context_used = if ltb 0 handoff.context_size then handoff.context_used else primary.context_used;
  context_size = if ltb 0 handoff.context_size then handoff.context_size else primary.context_size;
  cost = if ltb primary.cost handoff.cost then handoff.cost else primary.cost;
}
