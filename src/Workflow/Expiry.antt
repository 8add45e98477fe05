-- ===== src/Workflow/Expiry.antt =====
-- When the workflow run controller deletes a run, and what it still writes to a run that has ended.
use agentic_controller.Prelude.{
  ℕ, ◌+◌, ◌≡◌, Bool, true, false, ◌&&◌, Option, none, some, Result, arith, leb,
}
use agentic_controller.Api.{ApiError, is_terminal_phase}
use agentic_controller.Workflow.{WorkflowRun, WorkflowRunStatus, Workflow, StageStatus, Cluster}
use agentic_controller.Workflow.Reconcile.{
  observe, effective_ttl, patch, patch_after, patch_and_fail, expire, reconcile_ttl, after_creation,
  watch_child, complete_run, process_stage, run_workflow, workflow_missing, workflow_not_ready,
  with_workflow, reconcile,
}

module _ (c : Cluster) where
  deleted-process_stage :
      (run : WorkflowRun) (i : ℕ) (o : Option StageStatus)
      → (process_stage c run i o).deleted ≡ false
  unfolding process_stage complete_run watch_child after_creation patch patch_after patch_and_fail
  deleted-process_stage run i o = ground arith

  deleted-with_workflow :
      (run : WorkflowRun) (r : Result ApiError Workflow) → (with_workflow c run r).deleted ≡ false
  unfolding with_workflow run_workflow workflow_missing workflow_not_ready patch patch_after
  deleted-with_workflow run r = grind (arith, deleted-process_stage)

  -- the run has finished and its time to live has passed
  abbrev pub is_expired : WorkflowRun → Bool
  is_expired run = elim (effective_ttl c.default_ttl run) [
    | none ↦ false
    | some ttl ↦ elim run.status.completion_time [
      | none ↦ false
      | some finished ↦ leb (finished + ttl) c.now
    ]
  ]

  deleted-reconcile_ttl : (run : WorkflowRun) → (reconcile_ttl c run).deleted ≡ is_expired run
  unfolding reconcile_ttl expire patch patch_after
  deleted-reconcile_ttl run = ground arith

  -- A reconcile asks for a workflow run's deletion exactly when the run is in a terminal phase, has an
  -- effective time to live and a completion time, and that time to live has passed since.
  pub deleted-reconcile :
      (run : WorkflowRun)
      → (reconcile c run).deleted ≡ (is_terminal_phase run.status.phase && is_expired run)
  unfolding reconcile effective_ttl
  deleted-reconcile run = ground (
    arith,
    deleted-reconcile_ttl (observe run),
    deleted-with_workflow (observe run) (c.get_workflow run.spec.workflow_ref),
  )

  -- To a workflow run in a terminal phase a reconcile writes nothing but the generation that it has
  -- seen and, where the run has none, the completion time; and it asks for no AgentRun.
  pub reconcile-terminal :
      (run : WorkflowRun) (st : WorkflowRunStatus)
      → is_terminal_phase run.status.phase ≡ true
      → (reconcile c run).patched ≡ some st
      → (run.status.completion_time ≡ none)
        × (st ≡ record run.status {
          observed_generation = run.meta.generation;
          completion_time = some c.now;
        })
        × ((reconcile c run).requested ≡ none)
  unfolding reconcile reconcile_ttl expire patch patch_after
  reconcile-terminal run st t h = ground arith
