-- ===== src/AgentRun/Phase.antt =====
-- `updatePhaseFromSandbox`: a run's phase and its conditions follow its Sandbox and its pod.
use agentic_controller.Prelude.{
  ℕ, ◌+◌, ◌-◌, ◌*◌, String, Bool, false, ◌&&◌, Option, none, some, List, [], ◌∷◌, Result, ◌==◌, ltb,
  if◌then◌else◌,
}
use agentic_controller.Api.{
  AgentRun, Phase, pending, running, failed, Message, text, count, format1, format2, format3,
  is_empty, Condition, condition_true, condition_false, condition_unknown, is_condition_true,
  StatusConditions, ApiError,
}
use agentic_controller.AgentRun.Pod.{
  Pod, Sandbox, agent_termination_message, termination_data_from_pod, pod_start_time,
  pod_startup_problem, pod_startup_detail, terminal_pod,
}
use agentic_controller.AgentRun.Status.{
  set_phase, set_condition, set_run_succeeded, set_terminal_outcome, stamp_completion,
}
use agentic_controller.AgentRun.Verdict.{HarnessVerification, set_run_verified}

-- What the controller is given: its libraries, its clock, its configuration, and the answer of a
-- direct read of the pod.
pub record Env : Type 0 where
  pub conditions : StatusConditions
  pub is_json_object : String → Bool
  pub decode_verification : String → Option HarnessVerification
  pub now : ℕ
  pub default_startup_deadline : Option ℕ
  pub direct_pod : Option (Result ApiError Pod)

abbrev pub seconds : ℕ → ℕ
seconds n = n * 1_000_000_000

positive : ℕ → Option ℕ
positive d = if ltb 0 d then some d else none

-- A run's own deadline wins if it is set to a positive value, then the controller's.
unfoldable pub effective_startup_deadline : Option ℕ → AgentRun → Option ℕ
unfolding positive
effective_startup_deadline default_deadline run =
    let fallback : Option ℕ = elim default_deadline [ none ↦ none | some d ↦ positive d ] in
    elim run.spec.startup_deadline_seconds [
      | none ↦ fallback
      | some s ↦ if ltb 0 s then some (seconds s) else fallback
    ]

-- the reason of the first condition that says that the Sandbox has finished
unfoldable pub finished_reason : List Condition → Option String
finished_reason [] = none
finished_reason (c ∷ rest) =
    let next = finished_reason rest in
    if c.condition_type == "Finished" && is_condition_true c.status then some c.reason else next

-- the termination data that the run keeps
unfoldable pub capture : AgentRun → Option String → AgentRun
capture run none = run
capture run (some td) = record run { status = record run.status { termination_data = some td } }

module _ (env : Env) where
  unfoldable pub finish_run : AgentRun → Sandbox → Option Pod → String → AgentRun
  finish_run run sandbox cached reason =
      let pod = terminal_pod cached env.direct_pod in
      let stamped = stamp_completion env.now run pod sandbox in
      let closed =
        set_condition env.conditions stamped "ACPReady" condition_false "Finished"
          (text "The run has finished; its ACP endpoint is gone") in
      let captured = capture closed (termination_data_from_pod env.is_json_object pod) in
      let verified =
        set_run_verified env.conditions env.decode_verification captured
          captured.status.termination_data in
      set_terminal_outcome env.conditions verified pod reason (agent_termination_message pod)

  abbrev pub waiting_for : Sandbox → Message
  waiting_for sandbox = format1 "Waiting for Sandbox %q to become Ready" (text sandbox.name)

  -- the ACPReady condition of a run that has not finished
  unfoldable pub set_acp_ready : AgentRun → Sandbox → Option Condition → AgentRun
  set_acp_ready run sandbox none =
      set_condition env.conditions run "ACPReady" condition_false "NotListening"
        (waiting_for sandbox)
  set_acp_ready run sandbox (some ready) =
      if is_condition_true ready.status
      then set_condition env.conditions run "ACPReady" condition_true "Listening" (
          format3 "ACP endpoint %s.%s.svc:%d accepts connections" (text sandbox.name)
            (text sandbox.namespace) (count 4000))
      else set_condition env.conditions run "ACPReady" condition_false "NotListening" (
          if is_empty ready.message
          then waiting_for sandbox
          else format2 "%s: %s" (waiting_for sandbox) ready.message)

  unfoldable pub keep_pending : AgentRun → Sandbox → Option Pod → AgentRun
  keep_pending run sandbox pod =
      set_run_succeeded env.conditions (set_phase run pending) condition_unknown "PodNotRunning" (
        format2 "Waiting for sandbox pod %q to run (%s)" (text sandbox.name)
          (pod_startup_detail pod))

  -- the run has a deadline, `elapsed` says whether it has passed
  unfoldable pub pod_overdue : AgentRun → Sandbox → Option Pod → ℕ → AgentRun
  pod_overdue run sandbox pod deadline =
      set_run_succeeded env.conditions (stamp_completion env.now (set_phase run failed) pod sandbox)
        condition_false "StartupDeadlineExceeded"
        (format3 "Pod %q did not reach a running state within %s: %s" (text sandbox.name)
          (count deadline) (pod_startup_detail pod))

  -- no running pod yet, under a deadline: the time left, or the failure
  unfoldable pub await_pod : AgentRun → Sandbox → Option Pod → Option ℕ → AgentRun × ℕ
  await_pod run sandbox pod none = (keep_pending run sandbox pod, 0)
  await_pod run sandbox pod (some deadline) =
      let until = deadline + sandbox.creation_timestamp in
      if ltb env.now until
      then (keep_pending run sandbox pod, until - env.now)
      else (pod_overdue run sandbox pod deadline, 0)

  unfoldable pub start_running : AgentRun → Sandbox → Option Pod → AgentRun
  start_running run sandbox pod =
      set_run_succeeded env.conditions
        (record run {
          status = record run.status {
            phase = running;
            start_time = some (pod_start_time pod sandbox.creation_timestamp);
          };
        })
        condition_unknown "Running" (text "Agent is running")

  abbrev pub is_running : Option Pod → Bool
  is_running none = false
  is_running (some pod) = pod.phase == "Running"

  -- a run that is not Running yet
  unfoldable pub start_run : AgentRun → Sandbox → Option Pod → AgentRun × ℕ
  start_run run sandbox pod = elim (pod_startup_problem pod) [
    | some (reason, message) ↦ (
      set_run_succeeded env.conditions (stamp_completion env.now (set_phase run failed) pod sandbox)
          condition_false reason message,
      0,
    )
    | none ↦
        if is_running pod
        then (start_running run sandbox pod, 0)
        else await_pod run sandbox pod (effective_startup_deadline env.default_startup_deadline run)
  ]

  -- `Running` is kept: a later pod state does not move the phase back.
  unfoldable pub unless_running : Phase → AgentRun → Sandbox → Option Pod → AgentRun × ℕ
  unless_running running run sandbox pod = (run, 0)
  unless_running _ run sandbox pod = start_run run sandbox pod

  -- by the reason of a Sandbox that has finished, `none` while it has not
  unfoldable pub follow_sandbox : Option String → AgentRun → Sandbox → Option Pod → AgentRun × ℕ
  follow_sandbox (some reason) run sandbox pod = (finish_run run sandbox pod reason, 0)
  follow_sandbox none run sandbox pod =
      let reported = set_acp_ready run sandbox (env.conditions.find sandbox.conditions "Ready") in
      unless_running reported.status.phase reported sandbox pod

  -- the run, and the time after which it is looked at again (0 for none)
  unfoldable pub update_phase_from_sandbox : AgentRun → Sandbox → Option Pod → AgentRun × ℕ
  unfolding follow_sandbox
  update_phase_from_sandbox run sandbox pod =
      follow_sandbox (finished_reason sandbox.conditions) run sandbox pod
