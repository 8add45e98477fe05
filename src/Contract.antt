-- ===== src/Contract.antt =====
-- The exit-code contract between the harness (harness/cmd/migration-harness/outcome.go) and the
-- controller (`setTerminalOutcome` of internal/controller/agentrun_controller.go).
use agentic_controller.Prelude.{String, ◌≡◌, refl, ap, true, Option, none, some}
use agentic_controller.Api.{AgentRun, Phase, Condition, StatusConditions}
use agentic_controller.AgentRun.Pod.{Pod, agent_exit_code}
use agentic_controller.AgentRun.Status.{set_run_succeeded, set_terminal_outcome, outcome_of_exit}
use agentic_controller.Harness.Outcome.{
  Outcome, succeeded, failed, limit_reached, refused, exit_code,
}
use agentic_controller.Harness.Stage.{StageRun, end_stage}
use agentic_controller.Harness.Stage.Ending.{finished_outcome, end_stage_agrees}

abbrev pub expected_phase : Outcome → Phase
expected_phase succeeded = Phase.succeeded
expected_phase _ = Phase.failed

abbrev pub expected_reason : Outcome → String
expected_reason succeeded = "Succeeded"
expected_reason limit_reached = "LimitReached"
expected_reason refused = "Refused"
expected_reason failed = "Failed"

abbrev pub reason_in : Option Condition → Option String
reason_in none = none
reason_in (some c) = some c.reason

module _ (ops : StatusConditions) (run : AgentRun) (sandbox_reason message : String) where
  abbrev pub ReadsAs : Outcome → AgentRun → Type 0
  ReadsAs o r =
      (r.status.phase ≡ expected_phase o)
      × (reason_in (ops.find r.status.conditions "Succeeded") ≡ some (expected_reason o))

  outcome_of_exit-exit_code :
      (o : Outcome) → ReadsAs o (outcome_of_exit ops run (exit_code o) true sandbox_reason message)
  unfolding outcome_of_exit exit_code set_run_succeeded
  outcome_of_exit-exit_code succeeded = (refl, ap reason_in (ops.find-set_self _ _))
  outcome_of_exit-exit_code failed = (refl, ap reason_in (ops.find-set_self _ _))
  outcome_of_exit-exit_code limit_reached = (refl, ap reason_in (ops.find-set_self _ _))
  outcome_of_exit-exit_code refused = (refl, ap reason_in (ops.find-set_self _ _))

  -- Where the agent container's exit code is the one that a harness stage ended with, the controller
  -- reads the stage's outcome off it: Succeeded, and otherwise Failed with the reason LimitReached,
  -- Refused or Failed, whatever the Sandbox's reason is.
  pub set_terminal_outcome-end_stage :
      (s : StageRun) (pod : Option Pod)
      → agent_exit_code pod ≡ ((end_stage s).0, true)
      → ReadsAs (finished_outcome s) (set_terminal_outcome ops run pod sandbox_reason message)
  unfolding set_terminal_outcome
  set_terminal_outcome-end_stage s pod h =
      rw (h, (end_stage_agrees s).0) (outcome_of_exit-exit_code (finished_outcome s))
