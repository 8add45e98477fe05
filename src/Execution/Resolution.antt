-- ===== src/Execution/Resolution.antt =====
-- The two controllers resolve one after the other; what the stage's agent run is left with.
use agentic_controller.Prelude.{
  String, ◌≡◌, refl, Option, none, some, arith, ◌==◌, eq_refl, if◌then◌else◌,
}
use agentic_controller.Api.{ExecutionLimits, ExecutionSpec}
use agentic_controller.Execution.{resolve_execution, effective_mode, default_execution_mode}

abbrev pub mode_of : Option ExecutionSpec → String
mode_of none = ""
mode_of (some e) = e.mode

-- The workflow controller resolves a stage over its Agent, and the AgentRun controller resolves the
-- result over the same Agent again: the second resolution changes nothing.
pub resolve_execution_idem :
    (override : Option ExecutionSpec) (base : Option ExecutionLimits)
    → resolve_execution (resolve_execution override base) base ≡ resolve_execution override base
unfolding resolve_execution
resolve_execution_idem none none = refl
resolve_execution_idem none (some b) = ground (arith, eq_refl "")
resolve_execution_idem (some o) none = ground (arith, eq_refl "")
resolve_execution_idem (some o) (some b) = ground (arith, eq_refl "")

-- The Agent's defaults never decide the supervision mode: the effective mode of a resolved
-- configuration is the override's, or auto where the override leaves it unset.
pub effective_mode-resolve_execution :
    (override : Option ExecutionSpec) (base : Option ExecutionLimits)
    → effective_mode (resolve_execution override base)
      ≡ (if mode_of override == "" then default_execution_mode else mode_of override)
unfolding resolve_execution effective_mode
effective_mode-resolve_execution none none = refl
effective_mode-resolve_execution none (some b) = ground arith
effective_mode-resolve_execution (some o) none = ground arith
effective_mode-resolve_execution (some o) (some b) = ground arith
