-- ===== src/Execution.antt =====
-- internal/controller/execution.go: how execution controls are merged.
pub mod Resolution
use agentic_controller.Prelude.{
  ℕ, String, Bool, true, false, not, ◌&&◌, Option, none, some, ◌==◌, if◌then◌else◌, is_some,
}
use agentic_controller.Api.{ExecutionLimits, ExecutionSpec}

abbrev pub default_execution_mode : String
default_execution_mode = "auto"

abbrev pub empty_limits : ExecutionLimits
empty_limits = record { max_turns = none; max_cost = "" }

abbrev pub empty_spec : ExecutionSpec
empty_spec = record { mode = ""; ask_user = false; limits = empty_limits }

abbrev or_else : Option ℕ → Option ℕ → Option ℕ
or_else none b = b
or_else (some a) b = some a

-- the merge of two values that are there
unfoldable pub merge_execution : ExecutionSpec → ExecutionLimits → ExecutionSpec
merge_execution override base = record override {
  limits = record {
    max_turns = or_else override.limits.max_turns base.max_turns;
    max_cost = if override.limits.max_cost == "" then base.max_cost else override.limits.max_cost;
  };
}

-- the result is nil when it says nothing
unfoldable pub unless_empty : ExecutionSpec → Option ExecutionSpec
unless_empty e =
    if e.mode == "" && not e.ask_user && not (is_some e.limits.max_turns) && e.limits.max_cost == ""
    then none
    else some e

unfoldable pub resolve_execution :
    Option ExecutionSpec → Option ExecutionLimits → Option ExecutionSpec
unfolding merge_execution unless_empty
resolve_execution none none = none
resolve_execution none (some base) = unless_empty (merge_execution empty_spec base)
resolve_execution (some override) none = unless_empty (merge_execution override empty_limits)
resolve_execution (some override) (some base) = unless_empty (merge_execution override base)

unfoldable pub effective_mode : Option ExecutionSpec → String
effective_mode none = default_execution_mode
effective_mode (some e) = if e.mode == "" then default_execution_mode else e.mode
