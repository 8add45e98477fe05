-- ===== src/Examples/Workflows.antt =====
-- A workflow of two stages.
use agentic_controller.Prelude.{
  String, ◌≡◌, refl, sym, ap, ◌∙◌, ◌≢◌, true, false, none, some, List, [], ◌∷◌, map, ok, err, arith,
  eq_refl, All,
}
use agentic_controller.Api.{
  AgentRun, Agent, Phase, pending, running, succeeded, Condition, condition_true, not_found, text,
  is_terminal_phase,
}
use agentic_controller.Api.Conditions.{is_condition_true}
use agentic_controller.Api.Sample.{list_conditions}
use agentic_controller.Workflow.{
  Stage, Workflow, StageStatus, WorkflowRunStatus, WorkflowRun, WorkflowParams, Cluster,
}
use agentic_controller.Workflow.Creation.{is_owned_by, stage_agent_run, create_agent_run_for_stage}
use agentic_controller.Workflow.Reconcile.{
  planned, reconcile, with_workflow, run_workflow, process_stage, initialize,
  find_current_stage_index, after_creation, complete_run, patch, patch_after, set_ready, finish,
  reconcile_ttl, effective_ttl,
}
use agentic_controller.Workflow.Success.{reconcile-succeeded}
use agentic_controller.Workflow.Order.{IsOrdered, reconcile-IsOrdered, reconcile-planned}
use agentic_controller.Workflow.Labels.{IsMarked, stage_agent_run-IsMarked}
use agentic_controller.Workflow.Requests.{SetsOwner, Requested, reconcile-Requested}

abbrev plan : Stage
plan = record { name = "plan"; agent_ref = "planner"; instructions = "plan it"; execution = none }

abbrev execute : Stage
execute = record { name = "execute"; agent_ref = "coder"; instructions = "do it"; execution = none }

abbrev ready : Condition
ready = record {
  condition_type = "Ready";
  status = condition_true;
  observed_generation = 1;
  reason = "Valid";
  message = text "";
}

abbrev workflow : Workflow
workflow = record { guide = ""; stages = plan ∷ execute ∷ []; params = []; conditions = ready ∷ [] }

abbrev agent : Agent
agent = record {
  name = "planner";
  params = [];
  gateways = [];
  prompt = "";
  execution = none;
  conditions = ready ∷ [];
}

abbrev own : WorkflowRun → AgentRun → AgentRun
own run child = record child {
  meta = record child.meta {
    owner_references =
        record {
          api_version = "konveyor.io/v1alpha1";
          kind = "AgentWorkflowRun";
          name = run.meta.name;
          uid = run.meta.uid;
          controller = true;
        }
        ∷ child.meta.owner_references;
  };
}

abbrev cluster : Cluster
cluster = record {
  conditions = list_conditions;
  now = 100;
  default_ttl = none;
  resolve_params = λ decls values. ok (record { raw = none; values = [] });
  substitute = λ guide values. ok guide;
  agent_run_name = λ run stage. stage;
  set_controller_reference = λ run child. ok (own run child);
  get_workflow = λ name. ok workflow;
  get_agent = λ name. ok agent;
  get_agent_run = λ name. err not_found;
  create_agent_run = λ child. none;
  patch_error = none;
  delete_error = none;
}

own_fields :
    (run : WorkflowRun) (child owned : AgentRun)
    → cluster.set_controller_reference run child ≡ ok owned
    → own run child ≡ owned
own_fields run child owned h = ground arith

is_owned_by-own :
    (run : WorkflowRun) (child : AgentRun)
    → is_owned_by (own run child).meta.owner_references run.meta.uid ≡ true
unfolding is_owned_by
is_owned_by-own run child = rw (eq_refl run.meta.uid) refl

cluster-SetsOwner : SetsOwner cluster
cluster-SetsOwner = record {
  keeps_name =
      λ run child owned h. ap (λ (r : AgentRun). r.meta.name) (sym (own_fields run child owned h));
  keeps_spec =
      λ run child owned h. ap (λ (r : AgentRun). r.spec) (sym (own_fields run child owned h));
  owns = λ run child owned h.
      ap (λ (r : AgentRun). is_owned_by r.meta.owner_references run.meta.uid)
        (sym (own_fields run child owned h))
      ∙ is_owned_by-own run child;
}

abbrev stored : List StageStatus → WorkflowRun
stored stages = record {
  meta = record {
    name = "wf";
    namespace = "ns";
    uid = "u7";
    generation = 1;
    labels = [];
    owner_references = [];
  };
  spec = record {
    workflow_ref = "migration";
    gateway = "";
    params = [];
    env = [];
    file_mounts = [];
    ttl_seconds_after_finished = none;
  };
  status = record {
    phase = running;
    observed_generation = 1;
    current_stage = "plan";
    stages = stages;
    guide = "";
    params = [];
    start_time = some 90;
    completion_time = none;
    conditions = [];
  };
}

abbrev entry : Stage → Phase → String → StageStatus
entry s p name = record {
  name = s.name;
  phase = p;
  agent_run_name = name;
  agent_ref = s.agent_ref;
  instructions = s.instructions;
  execution = s.execution;
}

abbrev second : WorkflowRun
second = stored (entry plan succeeded "plan" ∷ entry execute pending "" ∷ [])

abbrev requested : AgentRun
requested =
    own second
      (stage_agent_run cluster second execute 1 2 agent (record { raw = none; values = [] }) none)

reconcile-requested : (reconcile cluster second).requested ≡ some requested
unfolding reconcile is_terminal_phase with_workflow is_condition_true run_workflow process_stage
    initialize find_current_stage_index after_creation create_agent_run_for_stage stage_agent_run
reconcile-requested = refl

reconcile-Requested_example : Requested cluster second requested
reconcile-Requested_example =
    reconcile-Requested cluster second requested cluster-SetsOwner reconcile-requested

abbrev patched : WorkflowRunStatus
patched = elim (reconcile cluster second).patched [ some st ↦ st | none ↦ second.status ]

reconcile-patched : (reconcile cluster second).patched ≡ some patched
unfolding reconcile is_terminal_phase with_workflow is_condition_true run_workflow process_stage
    initialize find_current_stage_index after_creation create_agent_run_for_stage
reconcile-patched = refl

execute_waits : IsOrdered second.status.stages
execute_waits = (λ n. absurd (n refl), (λ n. tt, tt))

reconcile-IsOrdered_example : IsOrdered patched.stages
reconcile-IsOrdered_example =
    reconcile-IsOrdered cluster second patched reconcile-patched execute_waits

reconcile-planned_example : map planned patched.stages ≡ plan ∷ execute ∷ []
reconcile-planned_example = reconcile-planned cluster second patched reconcile-patched (λ e. cc)

abbrev last : WorkflowRun
last = stored (entry plan succeeded "plan" ∷ entry execute succeeded "execute" ∷ [])

abbrev patched_last : WorkflowRunStatus
patched_last = elim (reconcile cluster last).patched [ some st ↦ st | none ↦ last.status ]

last-patched : (reconcile cluster last).patched ≡ some patched_last
unfolding reconcile is_terminal_phase with_workflow is_condition_true run_workflow process_stage
    initialize find_current_stage_index complete_run patch patch_after
last-patched = refl

last-phase : patched_last.phase ≡ succeeded
unfolding reconcile is_terminal_phase with_workflow is_condition_true run_workflow process_stage
    initialize find_current_stage_index complete_run patch patch_after set_ready finish
last-phase = refl

last-active : is_terminal_phase last.status.phase ≡ false
unfolding is_terminal_phase
last-active = refl

reconcile-succeeded_example : All (λ s. s.phase ≡ succeeded) patched_last.stages
reconcile-succeeded_example =
    reconcile-succeeded cluster last patched_last last-active last-patched last-phase

-- a run that has ended, under a time to live
abbrev ended : WorkflowRun
ended = record last { status = record last.status { phase = succeeded } }

abbrev expiring : Cluster
expiring = record cluster { default_ttl = some 5 }

abbrev stamped : WorkflowRunStatus
stamped = record ended.status { completion_time = some 100 }

ended-patched : (reconcile expiring ended).patched ≡ some stamped
unfolding reconcile is_terminal_phase reconcile_ttl effective_ttl patch patch_after
ended-patched = refl

ended-terminal : is_terminal_phase ended.status.phase ≡ true
unfolding is_terminal_phase
ended-terminal = refl

second-active : second.status.stages ≢ []
second-active e = cc

abbrev no_params : WorkflowParams
no_params = record { raw = none; values = [] }

stage_agent_run-IsMarked_example :
    IsMarked second execute 1 2
      (some "Java first")
      (stage_agent_run cluster second execute 1 2 agent no_params (some "Java first"))
stage_agent_run-IsMarked_example =
    stage_agent_run-IsMarked cluster second execute 1 2 agent no_params (some "Java first")
