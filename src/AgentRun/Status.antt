-- ===== src/AgentRun/Status.antt =====
-- How the AgentRun controller writes a run's outcome: the Succeeded condition, the terminal phase and
-- the times of a finished run. `ops` stands for apimachinery's functions on conditions.
use agentic_controller.Prelude.{
  ℕ, String, Bool, not, ◌&&◌, ◌||◌, Option, none, some, ◌==◌, sub_div, eqb, if◌then◌else◌,
}
use agentic_controller.Api.{
  AgentRun, Phase, succeeded, failed, Message, text, count, format1, ConditionStatus,
  condition_true, condition_false, StatusConditions,
}
use agentic_controller.AgentRun.Pod.{Pod, Sandbox, agent_exit_code, pod_start_time}

-- the harness's exit-code contract
abbrev pub harness_exit_succeeded : ℕ
harness_exit_succeeded = 0

abbrev pub harness_exit_limit_reached : ℕ
harness_exit_limit_reached = 2

abbrev pub harness_exit_refused : ℕ
harness_exit_refused = 3

-- the reason of a Sandbox whose pod succeeded
abbrev pub sandbox_finished_reason_succeeded : String
sandbox_finished_reason_succeeded = "PodSucceeded"

abbrev pub set_phase : AgentRun → Phase → AgentRun
set_phase run p = record run { status = record run.status { phase = p } }

module _ (ops : StatusConditions) where
  abbrev pub set_condition : AgentRun → String → ConditionStatus → String → Message → AgentRun
  set_condition run t s r m = record run {
    status = record run.status {
      conditions = ops.set run.status.conditions (record {
        condition_type = t;
        status = s;
        observed_generation = run.meta.generation;
        reason = r;
        message = m;
      });
    };
  }

  unfoldable pub set_run_succeeded : AgentRun → ConditionStatus → String → Message → AgentRun
  set_run_succeeded run s r m = set_condition run "Succeeded" s r m

  -- the message of an exit that no other case explains
  failure_detail : ℕ → Bool → String → String → Message
  failure_detail exit_code have_exit sandbox_reason failure_message =
      if failure_message == ""
      then (if have_exit
          then format1 "Agent exited with code %d" (count exit_code)
          else format1 "Sandbox finished with reason: %s" (text sandbox_reason))
      else text failure_message

  -- `setTerminalOutcome` from the exit code, and whether there is one
  unfoldable pub outcome_of_exit : AgentRun → ℕ → Bool → String → String → AgentRun
  unfolding failure_detail
  outcome_of_exit run exit_code have_exit sandbox_reason failure_message =
      if have_exit && eqb exit_code harness_exit_limit_reached
      then set_run_succeeded (set_phase run failed) condition_false "LimitReached"
          (text "Execution limit reached; the agent committed a handoff")
      else if have_exit && eqb exit_code harness_exit_refused
      then set_run_succeeded (set_phase run failed) condition_false "Refused" (
          text
            "The agent's handoff records that the stage did not do its work; .konveyor/handoff.md on the run's branch says why")
      else if have_exit && eqb exit_code harness_exit_succeeded
          || not have_exit && sandbox_reason == sandbox_finished_reason_succeeded
      then set_run_succeeded (set_phase run succeeded) condition_true "Succeeded"
          (text "Agent run completed successfully")
      else set_run_succeeded (set_phase run failed) condition_false "Failed"
          (failure_detail exit_code have_exit sandbox_reason failure_message)

  unfoldable pub set_terminal_outcome : AgentRun → Option Pod → String → String → AgentRun
  set_terminal_outcome run pod sandbox_reason failure_message =
      let (exit_code, have_exit) = agent_exit_code pod in
      outcome_of_exit run exit_code have_exit sandbox_reason failure_message

abbrev nanoseconds : ℕ
nanoseconds = 1_000_000_000

abbrev pub or_time : Option ℕ → ℕ → ℕ
or_time none t = t
or_time (some s) t = s

-- `now` is the time of the call.
unfoldable pub stamp_completion : ℕ → AgentRun → Option Pod → Sandbox → AgentRun
stamp_completion now run pod sandbox =
    let start = or_time run.status.start_time (pod_start_time pod sandbox.creation_timestamp) in
    record run {
      status = record run.status {
        completion_time = some now;
        start_time = some start;
        duration = some (sub_div now start nanoseconds);
      };
    }
