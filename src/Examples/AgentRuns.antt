-- ===== src/Examples/AgentRuns.antt =====
-- A run whose Sandbox comes up, runs and finishes.
use agentic_controller.Prelude.{ℕ, ◌≡◌, refl, not, none, some, List, [], ◌∷◌, ◌==◌}
use agentic_controller.Api.{AgentRun, pending, Condition, condition_true, condition_unknown, text}
use agentic_controller.Api.Conditions.{is_condition_true}
use agentic_controller.Api.Sample.{list_conditions}
use agentic_controller.AgentRun.Pod.{
  Pod, Sandbox, termination_data_from_pod, agent_container_termination, terminal_pod,
}
use agentic_controller.AgentRun.Verdict.Reported.{
  verified_status, verified-update_phase_from_sandbox,
}
use agentic_controller.AgentRun.Phase.{Env, finished_reason, update_phase_from_sandbox}

abbrev pub env : Env
env = record {
  conditions = list_conditions;
  is_json_object = λ s. not (s == "");
  decode_verification = λ s. some (record { status = "passed"; reason = []; commit = [] });
  now = 100;
  default_startup_deadline = some 60;
  direct_pod = none;
}

abbrev waiting : Condition
waiting = record {
  condition_type = "Succeeded";
  status = condition_unknown;
  observed_generation = 1;
  reason = "PodNotRunning";
  message = text "";
}

abbrev pub run : AgentRun
run = record {
  meta = record {
    name = "run";
    namespace = "ns";
    uid = "u1";
    generation = 1;
    labels = [];
    owner_references = [];
  };
  spec = record {
    agent_ref = "coder";
    gateway = "";
    params = [];
    instructions = "migrate";
    execution = none;
    workflow_params = none;
    env = [];
    file_mounts = [];
    ttl_seconds_after_finished = none;
    startup_deadline_seconds = none;
  };
  status = record {
    phase = pending;
    observed_generation = 1;
    sandbox_name = "run";
    start_time = none;
    completion_time = none;
    duration = none;
    conditions = waiting ∷ [];
    termination_data = none;
  };
}

abbrev finished : Condition
finished = record {
  condition_type = "Finished";
  status = condition_true;
  observed_generation = 1;
  reason = "PodSucceeded";
  message = text "";
}

abbrev pub sandbox : List Condition → Sandbox
sandbox l = record { name = "run"; namespace = "ns"; creation_timestamp = 50; conditions = l }

abbrev pub ended : ℕ → Pod
ended code = record {
  phase = "Succeeded";
  conditions = [];
  init_container_statuses = [];
  container_statuses =
      record {
        name = "agent";
        waiting = none;
        running = none;
        terminated = some (record { exit_code = code; message = "{}" });
      }
      ∷ [];
  start_time = some 60;
}

abbrev pub starting : Pod
starting = record {
  phase = "Pending";
  conditions = [];
  init_container_statuses = [];
  container_statuses = [];
  start_time = none;
}

finished_reason-finished : finished_reason (finished ∷ []) ≡ some "PodSucceeded"
unfolding finished_reason is_condition_true
finished_reason-finished = refl

verified-update_phase_from_sandbox_example :
    verified_status list_conditions
      (update_phase_from_sandbox env run (sandbox (finished ∷ [])) (some (ended 0))).0
    ≡ some condition_true
unfolding termination_data_from_pod agent_container_termination terminal_pod
verified-update_phase_from_sandbox_example =
    verified-update_phase_from_sandbox env run (sandbox (finished ∷ [])) (some (ended 0))
      "PodSucceeded" finished_reason-finished
