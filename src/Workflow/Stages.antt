-- ===== src/Workflow/Stages.antt =====
-- What one reconcile may do to the list of stages: it changes the current stage at most, and never its
-- definition or the name of its AgentRun once that is recorded.
use mathlib.Core.Path.{subst, ◌∙◌}
use agentic_controller.Prelude.{
  ℕ, String, ◌≡◌, refl, ap, ◌≢◌, inl, inr, Option, none, some, List, [], ◌∷◌, map, Result, ok, err,
  ◌==◌, eq_iff, arith, get_elem?, set, Bool-cases,
}
use agentic_controller.Api.{
  Phase, unset, failed, is_terminal_phase, AgentRun, Condition, ApiError, not_found, already_exists,
  unavailable,
}
use agentic_controller.Workflow.{Workflow, StageStatus, WorkflowRunStatus, WorkflowRun, Cluster}
use agentic_controller.Workflow.Creation.{StageError, config_error, other_error}
use agentic_controller.Workflow.Reconcile.{
  Effects, find_current_stage_index, snapshot_stage, initialize, mirror_phase, set_ready, finish,
  patch_after, patch, patch_and_fail, set_stage, complete_run, after_creation, follow_child,
  watch_child, process_stage, run_workflow, with_workflow, reconcile_ttl, reconcile, fail_stage,
  expire, enter_stage, start, observe, workflow_missing, workflow_not_ready, is_ready,
}

-- the same stage, seen later
pub record StageStep (s t : StageStatus) : Type 0 where
  pub name : t.name ≡ s.name
  pub agent_ref : t.agent_ref ≡ s.agent_ref
  pub instructions : t.instructions ≡ s.instructions
  pub execution : t.execution ≡ s.execution
  pub agent_run_name : s.agent_run_name ≢ "" → t.agent_run_name ≡ s.agent_run_name

-- The lists of stages before and after a reconcile: the same, or with the current stage a step on.
pub data Advance (l : List StageStatus) (m : List StageStatus) : Type 0 where
  same : m ≡ l → Advance l m
  moved :
      (s t : StageStatus)
      → get_elem? l (find_current_stage_index l) ≡ some s
      → StageStep s t
      → m ≡ set l (find_current_stage_index l) t
      → Advance l m

-- the stages that are stored once the patch is through
abbrev pub stages_after : List StageStatus → Effects → List StageStatus
stages_after old e = elim e.patched [ none ↦ old | some st ↦ st.stages ]

StageStep-refl : (s : StageStatus) → StageStep s s
StageStep-refl s = record {
  name = refl;
  agent_ref = refl;
  instructions = refl;
  execution = refl;
  agent_run_name = λ h. refl;
}

StageStep-phase : (s : StageStatus) (p : Phase) → StageStep s (record s { phase = p })
StageStep-phase s p = record {
  name = refl;
  agent_ref = refl;
  instructions = refl;
  execution = refl;
  agent_run_name = λ h. refl;
}

StageStep-mirror_phase : (p : Phase) (s : StageStatus) → StageStep s (mirror_phase p s)
unfolding mirror_phase
StageStep-mirror_phase unset s = StageStep-refl s
StageStep-mirror_phase _ s = StageStep-phase s _

module _ (c : Cluster) where
  stages-follow_child :
      (run : WorkflowRun) (s : StageStatus) (child : AgentRun) (o : Option Condition)
      → (follow_child c run s child o).status.stages ≡ run.status.stages
  unfolding follow_child set_ready finish
  stages-follow_child run s child none = refl
  stages-follow_child run s child (some condition) = ground arith

  module _ (run : WorkflowRun) (s : StageStatus) where
    abbrev current : ℕ
    current = find_current_stage_index run.status.stages

    after_creation-Advance :
        (requested : Option AgentRun) (r : Result StageError String)
        → get_elem? run.status.stages current ≡ some s
        → s.agent_run_name ≡ ""
        → Advance run.status.stages
            (stages_after run.status.stages (after_creation c run current s requested r))
    unfolding after_creation patch_after patch_and_fail set_ready set_stage fail_stage finish
    after_creation-Advance requested (ok name) h e =
        moved s _ h
          (record {
            name = refl;
            agent_ref = refl;
            instructions = refl;
            execution = refl;
            agent_run_name = λ n. absurd (n e);
          })
          refl
    after_creation-Advance requested (err (config_error m)) h e =
        moved s (record s { phase = failed }) h (StageStep-phase s failed) refl
    after_creation-Advance requested (err (other_error m)) h e = same refl

    watch_child-Advance :
        (r : Result ApiError AgentRun)
        → get_elem? run.status.stages current ≡ some s
        → Advance run.status.stages (stages_after run.status.stages (watch_child c run current s r))
    unfolding watch_child patch patch_after set_ready set_stage fail_stage finish
    watch_child-Advance (err not_found) h =
        moved s (record s { phase = failed }) h (StageStep-phase s failed) refl
    watch_child-Advance (err already_exists) h = same refl
    watch_child-Advance (err (unavailable m)) h = same refl
    watch_child-Advance (ok child) h =
        moved s (mirror_phase child.status.phase s) h (StageStep-mirror_phase child.status.phase s)
          (stages-follow_child (set_stage c run current (mirror_phase child.status.phase s)) s child
            _)

  module _ (run : WorkflowRun) where
    process_stage-Advance :
        (o : Option StageStatus)
        → get_elem? run.status.stages (find_current_stage_index run.status.stages) ≡ o
        → Advance run.status.stages (
            stages_after run.status.stages
              (process_stage c run (find_current_stage_index run.status.stages) o))
    unfolding process_stage complete_run patch patch_after set_ready finish enter_stage
    process_stage-Advance none h = same refl
    process_stage-Advance (some s) h = elim (Bool-cases (s.agent_run_name == "")) [
      | inl e ↦
          rw e (
            after_creation-Advance (enter_stage c run s) s _ _ h ((eq_iff s.agent_run_name "").0 e))
      | inr e ↦ rw e (watch_child-Advance (enter_stage c run s) s _ h)
    ]

-- the stages that a reconcile works on: those of the run, or the workflow's snapshot if it has none
abbrev pub base_stages : List StageStatus → Workflow → List StageStatus
base_stages [] workflow = map snapshot_stage workflow.stages
base_stages (s ∷ rest) workflow = s ∷ rest

stages-initialize :
    (w : Workflow) (st : WorkflowRunStatus) → (initialize w st).stages ≡ base_stages st.stages w
unfolding initialize
stages-initialize w st = ground arith

module _ (c : Cluster) where
  stages-start : (st : WorkflowRunStatus) → (start c st).stages ≡ st.stages
  unfolding start
  stages-start st = ground arith

  pub stages-prepared :
      (run : WorkflowRun) (w : Workflow)
      → (initialize w (start c run.status)).stages ≡ base_stages run.status.stages w
  stages-prepared run w =
      stages-initialize w (start c run.status) ∙ ap (λ l. base_stages l w) (stages-start run.status)

  pub run_workflow-Advance :
      (run : WorkflowRun) (w : Workflow)
      → let base = (initialize w (start c run.status)).stages in
        Advance base (stages_after base (run_workflow c run w))
  unfolding run_workflow
  run_workflow-Advance run w =
      process_stage-Advance c (record run { status = initialize w (start c run.status) }) _ refl

-- what a reconcile of a run may leave as its stages
pub data Outcome (c : Cluster) (run : WorkflowRun) (l : List StageStatus) : Type 0 where
  kept : l ≡ run.status.stages → Outcome c run l
  worked :
      (w : Workflow)
      → c.get_workflow run.spec.workflow_ref ≡ ok w
      → Advance (base_stages run.status.stages w) l
      → Outcome c run l

stages_after-some :
    (old : List StageStatus) (e : Effects) (st : WorkflowRunStatus)
    → e.patched ≡ some st
    → stages_after old e ≡ st.stages
stages_after-some old e st h = rw h

module _ (c : Cluster) (run : WorkflowRun) (st : WorkflowRunStatus) where
  reconcile_ttl-kept : (reconcile_ttl c run).patched ≡ some st → st.stages ≡ run.status.stages
  unfolding reconcile_ttl expire patch patch_after
  reconcile_ttl-kept h = ground arith

  run_workflow-worked :
      (w : Workflow)
      → (run_workflow c run w).patched ≡ some st
      → Advance (base_stages run.status.stages w) st.stages
  run_workflow-worked w h =
      subst (λ l. Advance l st.stages) (stages-prepared c run w)
        (subst (Advance (initialize w (start c run.status)).stages)
          (stages_after-some (initialize w (start c run.status)).stages (run_workflow c run w) st h)
          (run_workflow-Advance c run w))

  with_workflow-Outcome :
      (r : Result ApiError Workflow)
      → c.get_workflow run.spec.workflow_ref ≡ r
      → (with_workflow c run r).patched ≡ some st
      → Outcome c run st.stages
  unfolding with_workflow
  with_workflow-Outcome (err not_found) e h =
      kept (unfold workflow_missing patch patch_after set_ready finish in ground arith)
  with_workflow-Outcome (err already_exists) e h = cc
  with_workflow-Outcome (err (unavailable m)) e h = cc
  with_workflow-Outcome (ok w) e h = elim (Bool-cases (is_ready c w)) [
    | inl ready ↦ worked w e (run_workflow-worked w (rw ready at h))
    | inr waiting ↦ kept (unfold workflow_not_ready patch patch_after set_ready in ground arith)
  ]

renamed :
    {c : Cluster} {run : WorkflowRun} {l : List StageStatus}
    → Outcome c (observe run) l
    → Outcome c run l
renamed (kept e) = kept e
renamed (worked w e a) = worked w e a

-- Whatever the API server answers, a status that a reconcile patches has the stages that the run had,
-- or else those of the run (of the workflow's snapshot, where the run had none) with the current stage
-- at most a step on.
pub reconcile-Outcome :
    (c : Cluster) (run : WorkflowRun) (st : WorkflowRunStatus)
    → (reconcile c run).patched ≡ some st
    → Outcome c run st.stages
unfolding reconcile
reconcile-Outcome c run st h = elim (Bool-cases (is_terminal_phase run.status.phase)) [
  | inl e ↦ kept (reconcile_ttl-kept c (observe run) st (rw e at h))
  | inr e ↦ renamed (with_workflow-Outcome c (observe run) st _ refl (rw e at h))
]
