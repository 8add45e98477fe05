-- ===== src/Workflow/Reconcile.antt =====
-- `Reconcile` of the AgentWorkflowRun controller, for a run that is there. The finalising of a run
-- that is gone stands in the clean-up module.
use agentic_controller.Prelude.{
  ℕ, suc, ◌+◌, ◌-◌, ◌*◌, String, Bool, true, false, Option, none, some, List, [], ◌∷◌, map, Result,
  ok, err, ◌==◌, ltb, length, get_elem?, set, if◌then◌else◌,
}
use agentic_controller.Api.{
  Phase, unset, pending, running, succeeded, failed, is_terminal_phase, AgentRun, Condition,
  ConditionStatus, condition_true, condition_false, condition_unknown, is_condition_true, ApiError,
  not_found, Message, text, format1, format2, is_empty, Reply, done, fail_with,
}
use agentic_controller.Workflow.{
  Stage, Workflow, StageStatus, WorkflowRunStatus, WorkflowRun, Cluster,
}
use agentic_controller.Workflow.Creation.{
  StageError, config_error, other_error, create_agent_run_for_stage,
}

-- What one reconcile does: the child that it asks for, the status that it patches, whether it asks
-- for the run's deletion, and its reply.
pub record Effects : Type 0 where
  pub requested : Option AgentRun
  pub patched : Option WorkflowRunStatus
  pub deleted : Bool
  pub reply : Reply

abbrev pub quiet : Reply → Effects
quiet r = record { requested = none; patched = none; deleted = false; reply = r }

abbrev pub seconds : ℕ → ℕ
seconds n = n * 1_000_000_000

-- a stage that has succeeded is passed over
unfoldable pub index_from : Phase → ℕ → ℕ
index_from succeeded next = suc next
index_from _ next = 0

-- the index of the first stage that has not succeeded, or the number of stages
unfoldable pub find_current_stage_index : List StageStatus → ℕ
unfolding index_from
find_current_stage_index [] = 0
find_current_stage_index (s ∷ rest) = index_from s.phase (find_current_stage_index rest)

unfoldable pub snapshot_stage : Stage → StageStatus
snapshot_stage s = record {
  name = s.name;
  phase = pending;
  agent_run_name = "";
  agent_ref = s.agent_ref;
  instructions = s.instructions;
  execution = s.execution;
}

-- A run that has no stages yet takes them, the guide and the parameters from the workflow.
unfoldable pub initialize : Workflow → WorkflowRunStatus → WorkflowRunStatus
unfolding snapshot_stage
initialize workflow st = elim st.stages [
  | s ∷ rest ↦ st
  | [] ↦ record st {
    guide = workflow.guide;
    params = workflow.params;
    stages = map snapshot_stage workflow.stages;
  }
]

-- the stage as the snapshot has it
abbrev pub planned : StageStatus → Stage
planned s = record {
  name = s.name;
  agent_ref = s.agent_ref;
  instructions = s.instructions;
  execution = s.execution;
}

-- the child's phase, unless the child has none yet
unfoldable pub mirror_phase : Phase → StageStatus → StageStatus
mirror_phase unset s = s
mirror_phase p s = record s { phase = p }

unfoldable pub effective_ttl : Option ℕ → WorkflowRun → Option ℕ
effective_ttl default_ttl run = elim run.spec.ttl_seconds_after_finished [
  | some s ↦ some (seconds s)
  | none ↦ default_ttl
]

-- the reconcile records which generation it has seen
abbrev pub observe : WorkflowRun → WorkflowRun
observe run = record run {
  status = record run.status { observed_generation = run.meta.generation };
}

module _ (c : Cluster) where
  unfoldable pub set_ready : WorkflowRun → ConditionStatus → String → Message → WorkflowRun
  set_ready run s r m = record run {
    status = record run.status {
      conditions = c.conditions.set run.status.conditions (record {
        condition_type = "Ready";
        status = s;
        observed_generation = run.meta.generation;
        reason = r;
        message = m;
      });
    };
  }

  unfoldable pub finish : Phase → WorkflowRun → WorkflowRun
  finish p run = record run {
    status = record run.status { phase = p; completion_time = some c.now };
  }

  patch_reply : Reply
  patch_reply = elim c.patch_error [ none ↦ done | some e ↦ fail_with e ]

  -- the status is patched, and the child was asked for
  unfoldable pub patch_after : Option AgentRun → WorkflowRun → Effects
  unfolding patch_reply
  patch_after child run = record {
    requested = child;
    patched = some run.status;
    deleted = false;
    reply = patch_reply;
  }

  unfoldable pub patch : WorkflowRun → Effects
  unfolding patch_after
  patch run = patch_after none run

  -- An error that is retried is returned after the patch, unless the patch fails first.
  unfoldable pub patch_and_fail : Option AgentRun → WorkflowRun → Message → Effects
  patch_and_fail child run e = record {
    requested = child;
    patched = some run.status;
    deleted = false;
    reply = elim c.patch_error [ none ↦ fail_with (ApiError.unavailable e) | some p ↦ fail_with p ];
  }

  -- a run that is gone already counts as deleted
  delete_reply : Option ApiError → Reply
  delete_reply none = done
  delete_reply (some not_found) = done
  delete_reply (some e) = fail_with e

  unfoldable pub expire : WorkflowRun → ℕ → ℕ → Effects
  unfolding delete_reply
  expire run ttl finished =
      if ltb c.now (finished + ttl)
      then quiet (record { requeue = false; requeue_after = finished + ttl - c.now; error = none })
      else record {
        requested = none;
        patched = none;
        deleted = true;
        reply = delete_reply c.delete_error;
      }

  unfoldable pub reconcile_ttl : WorkflowRun → Effects
  unfolding expire patch
  reconcile_ttl run = elim (effective_ttl c.default_ttl run) [
    | none ↦ quiet done
    | some ttl ↦ elim run.status.completion_time [
      | none ↦ patch (record run { status = record run.status { completion_time = some c.now } })
      | some finished ↦ expire run ttl finished
    ]
  ]

  unfoldable pub set_stage : WorkflowRun → ℕ → StageStatus → WorkflowRun
  set_stage run i s = record run {
    status = record run.status { stages = set run.status.stages i s };
  }

  -- every stage has succeeded
  unfoldable pub complete_run : WorkflowRun → Effects
  unfolding set_ready finish patch
  complete_run run =
      let ended = finish succeeded run in
      patch (
        set_ready (record ended { status = record ended.status { current_stage = "" } })
          condition_true "Succeeded" (text "All stages completed successfully"))

  unfoldable pub fail_stage : WorkflowRun → ℕ → StageStatus → String → Message → WorkflowRun
  unfolding set_ready finish set_stage
  fail_stage run i s reason m =
      set_ready (finish failed (set_stage run i (record s { phase = failed }))) condition_false
        reason m

  -- no AgentRun yet: by what its creation gave
  unfoldable pub after_creation :
      WorkflowRun → ℕ → StageStatus → Option AgentRun → Result StageError String → Effects
  unfolding set_ready patch_after patch_and_fail set_stage fail_stage
  after_creation run i s requested (ok name) = patch_after requested (
      set_ready (set_stage run i (record s { agent_run_name = name; phase = pending }))
        condition_false "StageRunning"
        (format2 "Stage %q: AgentRun %q created" (text s.name) (text name)))
  after_creation run i s requested (err (config_error e)) =
      patch_after requested
        (fail_stage run i s "InvalidParams" (format2 "Stage %q: %v" (text s.name) e))
  after_creation run i s requested (err (other_error e)) =
      patch_and_fail requested
        (set_ready run condition_false "AgentRunCreationFailed"
          (format2 "Failed to create AgentRun for stage %q: %v" (text s.name) e))
        e

  detail_of : Condition → Message
  detail_of succeeded_condition =
      if is_empty succeeded_condition.message
      then text succeeded_condition.reason
      else succeeded_condition.message

  phase_name : Phase → String
  phase_name unset = ""
  phase_name pending = "Pending"
  phase_name running = "Running"
  phase_name succeeded = "Succeeded"
  phase_name failed = "Failed"

  unfoldable pub follow_status :
      WorkflowRun → StageStatus → AgentRun → Condition → ConditionStatus → WorkflowRun
  unfolding set_ready finish detail_of phase_name
  follow_status run s child condition condition_true =
      set_ready run condition_false "StageSucceeded"
        (format1 "Stage %q completed successfully" (text s.name))
  follow_status run s child condition condition_false =
      set_ready (finish failed run) condition_false "StageFailed"
        (format2 "Stage %q did not succeed: %s" (text s.name) (detail_of condition))
  follow_status run s child condition condition_unknown =
      set_ready run condition_false "StageRunning"
        (format2 "Stage %q is %s" (text s.name) (text (phase_name child.status.phase)))

  -- the child is there: by its Succeeded condition
  unfoldable pub follow_child :
      WorkflowRun → StageStatus → AgentRun → Option Condition → WorkflowRun
  unfolding follow_status
  follow_child run s child none =
      set_ready run condition_false "StageRunning"
        (format2 "Stage %q is %s" (text s.name) (text (phase_name child.status.phase)))
  follow_child run s child (some condition) = follow_status run s child condition condition.status

  unfoldable pub watch_child : WorkflowRun → ℕ → StageStatus → Result ApiError AgentRun → Effects
  unfolding fail_stage patch set_stage
  watch_child run i s (err not_found) = patch (
      fail_stage run i s "AgentRunDeleted"
        (format2 "Stage %q: AgentRun %q was deleted" (text s.name) (text s.agent_run_name)))
  watch_child run i s (err e) = quiet (fail_with e)
  watch_child run i s (ok child) = patch (
      follow_child (set_stage run i (mirror_phase child.status.phase s)) s child
        (c.conditions.find child.status.conditions "Succeeded"))

  unfoldable pub enter_stage : WorkflowRun → StageStatus → WorkflowRun
  enter_stage run s = record run {
    status = record run.status { current_stage = s.name; phase = running };
  }

  -- the current stage, `none` where every stage has succeeded
  unfoldable pub process_stage : WorkflowRun → ℕ → Option StageStatus → Effects
  unfolding enter_stage
  process_stage run i none = complete_run run
  process_stage run i (some s) =
      let entered = enter_stage run s in
      if s.agent_run_name == ""
      then (let made =
            create_agent_run_for_stage c entered (planned s) i (length run.status.stages) in
          after_creation entered i s made.requested made.result)
      else watch_child entered i s (c.get_agent_run s.agent_run_name)

  -- the first reconcile of a run records its start
  unfoldable pub start : WorkflowRunStatus → WorkflowRunStatus
  start st = elim st.start_time [
    | some t ↦ st
    | none ↦ record st { start_time = some c.now; phase = pending }
  ]

  unfoldable pub run_workflow : WorkflowRun → Workflow → Effects
  unfolding start
  run_workflow run workflow =
      let ready_run = record run { status = initialize workflow (start run.status) } in
      let i = find_current_stage_index ready_run.status.stages in
      process_stage ready_run i (get_elem? ready_run.status.stages i)

  unfoldable pub workflow_missing : WorkflowRun → Effects
  unfolding set_ready finish patch
  workflow_missing run = patch (
      set_ready (finish failed run) condition_false "WorkflowNotFound"
        (format1 "AgentWorkflow %q not found" (text run.spec.workflow_ref)))

  unfoldable pub workflow_not_ready : WorkflowRun → Effects
  unfolding set_ready patch
  workflow_not_ready run = patch (
      set_ready run condition_false "WorkflowNotReady"
        (format1 "AgentWorkflow %q is not Ready" (text run.spec.workflow_ref)))

  unfoldable pub is_ready : Workflow → Bool
  is_ready workflow = elim (c.conditions.find workflow.conditions "Ready") [
    | none ↦ false
    | some condition ↦ is_condition_true condition.status
  ]

  unfoldable pub with_workflow : WorkflowRun → Result ApiError Workflow → Effects
  unfolding workflow_missing workflow_not_ready is_ready
  with_workflow run (err not_found) = workflow_missing run
  with_workflow run (err e) = quiet (fail_with e)
  with_workflow run (ok workflow) =
      if is_ready workflow then run_workflow run workflow else workflow_not_ready run

  unfoldable pub reconcile : WorkflowRun → Effects
  reconcile run =
      if is_terminal_phase run.status.phase
      then reconcile_ttl (observe run)
      else with_workflow (observe run) (c.get_workflow run.spec.workflow_ref)
