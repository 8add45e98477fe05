-- ===== src/Workflow/Success.antt =====
-- When a workflow run succeeds.
use mathlib.Core.Path.{subst}
use agentic_controller.Prelude.{
  ℕ, ◌≡◌, refl, ◌≢◌, false, Option, none, some, List, [], ◌∷◌, Result, ok, err, arith, All,
  get_elem?, ◌==◌, Bool-cases, inl, inr, ap, some_inj, ◌∙◌,
}
use agentic_controller.Api.{
  ApiError, not_found, already_exists, unavailable, Phase, unset, pending, running, succeeded,
  failed, is_terminal_phase, Condition, AgentRun,
}
use agentic_controller.Workflow.{WorkflowRun, WorkflowRunStatus, Workflow, StageStatus, Cluster}
use agentic_controller.Workflow.Reconcile.{
  find_current_stage_index, index_from, observe, set_ready, finish, set_stage, fail_stage, patch,
  patch_after, patch_and_fail, after_creation, follow_status, follow_child, watch_child,
  complete_run, enter_stage, process_stage, initialize, start, run_workflow, workflow_missing,
  workflow_not_ready, is_ready, with_workflow, reconcile,
}

index_from-none :
    (p : Phase) (s : StageStatus) (rest : List StageStatus) (i : ℕ)
    → s.phase ≡ p
    → get_elem? (s ∷ rest) (index_from p i) ≡ none
    → (get_elem? rest i ≡ none → All (λ x. x.phase ≡ succeeded) rest)
    → All (λ x. x.phase ≡ succeeded) (s ∷ rest)
unfolding index_from
index_from-none succeeded s rest i e h k = (e, k h)
index_from-none unset s rest i e h k = cc
index_from-none pending s rest i e h k = cc
index_from-none running s rest i e h k = cc
index_from-none failed s rest i e h k = cc

-- there is no current stage only where every stage has succeeded
pub find_current_stage_index-none :
    (l : List StageStatus)
    → get_elem? l (find_current_stage_index l) ≡ none
    → All (λ s. s.phase ≡ succeeded) l
unfolding find_current_stage_index
find_current_stage_index-none [] h = tt
find_current_stage_index-none (s ∷ rest) h =
    index_from-none s.phase s rest _ refl h (find_current_stage_index-none rest)

module _ (c : Cluster) where
  phase-follow_child :
      (run : WorkflowRun) (s : StageStatus) (child : AgentRun) (o : Option Condition)
      → run.status.phase ≡ running
      → (follow_child c run s child o).status.phase ≢ succeeded
  unfolding follow_child follow_status set_ready finish
  phase-follow_child run s child o h k = ground arith

  phase-watch_child :
      (run : WorkflowRun) (st : WorkflowRunStatus) (i : ℕ) (s : StageStatus)
      (r : Result ApiError AgentRun)
      → run.status.phase ≡ running
      → (watch_child c run i s r).patched ≡ some st
      → st.phase ≢ succeeded
  unfolding watch_child patch patch_after fail_stage set_ready finish set_stage
  phase-watch_child run st i s (err e) p h k = ground arith
  phase-watch_child run st i s (ok child) p h k =
      phase-follow_child (set_stage c run i _) s child _ p
        (ap (λ (x : WorkflowRunStatus). x.phase) (some_inj h) ∙ k)

  phase-after_creation :
      (run : WorkflowRun) (st : WorkflowRunStatus) (i : ℕ) (s : StageStatus) (o : Option AgentRun)
      (r : _)
      → run.status.phase ≡ running
      → (after_creation c run i s o r).patched ≡ some st
      → st.phase ≢ succeeded
  unfolding after_creation patch_after patch_and_fail fail_stage set_ready finish set_stage
  phase-after_creation run st i s o r p h k = ground arith

  process_stage-succeeded :
      (run : WorkflowRun) (st : WorkflowRunStatus) (o : Option StageStatus)
      → get_elem? run.status.stages (find_current_stage_index run.status.stages) ≡ o
      → (process_stage c run (find_current_stage_index run.status.stages) o).patched ≡ some st
      → st.phase ≡ succeeded
      → All (λ s. s.phase ≡ succeeded) st.stages
  unfolding process_stage complete_run patch patch_after set_ready finish enter_stage
  process_stage-succeeded run st none g h k =
      subst (λ (x : WorkflowRunStatus). All (λ s. s.phase ≡ succeeded) x.stages) (some_inj h)
        (find_current_stage_index-none run.status.stages g)
  process_stage-succeeded run st (some s) g h k = elim (Bool-cases (s.agent_run_name == "")) [
    | inl e ↦ absurd (phase-after_creation (enter_stage c run s) st _ s _ _ refl (rw e at h) k)
    | inr e ↦ absurd (phase-watch_child (enter_stage c run s) st _ s _ refl (rw e at h) k)
  ]

  with_workflow-succeeded :
      (run : WorkflowRun) (st : WorkflowRunStatus) (r : Result ApiError Workflow)
      → is_terminal_phase run.status.phase ≡ false
      → (with_workflow c run r).patched ≡ some st
      → st.phase ≡ succeeded
      → All (λ s. s.phase ≡ succeeded) st.stages
  unfolding with_workflow run_workflow
  with_workflow-succeeded run st (err not_found) a h k =
      unfold workflow_missing patch patch_after set_ready finish in ground arith
  with_workflow-succeeded run st (err already_exists) a h k = cc
  with_workflow-succeeded run st (err (unavailable m)) a h k = cc
  with_workflow-succeeded run st (ok w) a h k = elim (Bool-cases (is_ready c w)) [
    | inl e ↦
        process_stage-succeeded (record run { status = initialize w (start c run.status) }) st _
          refl (rw e at h) k
    | inr e ↦
        unfold workflow_not_ready patch patch_after set_ready is_terminal_phase in ground arith
  ]

  -- A reconcile moves a workflow run that has not ended to Succeeded only where every one of its
  -- stages has succeeded, whatever the API server answers.
  pub reconcile-succeeded :
      (run : WorkflowRun) (st : WorkflowRunStatus)
      → is_terminal_phase run.status.phase ≡ false
      → (reconcile c run).patched ≡ some st
      → st.phase ≡ succeeded
      → All (λ s. s.phase ≡ succeeded) st.stages
  unfolding reconcile
  reconcile-succeeded run st a h k =
      with_workflow-succeeded (observe run) st (c.get_workflow run.spec.workflow_ref) a (rw a at h)
        k
