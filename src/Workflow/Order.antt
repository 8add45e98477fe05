-- ===== src/Workflow/Order.antt =====
-- Stages run strictly one after the other, whatever the API server answers and however often the
-- workflow is edited meanwhile.
use agentic_controller.Prelude.{
  ℕ, zero, suc, ◌≡◌, refl, ◌≢◌, ap, ◌∙◌, some, List, [], ◌∷◌, map, get_elem?, set, All, arith,
}
use agentic_controller.Api.{Phase, unset, pending, running, succeeded, failed}
use agentic_controller.Workflow.{
  Stage, Workflow, StageStatus, WorkflowRunStatus, WorkflowRun, Cluster,
}
use agentic_controller.Workflow.Reconcile.{
  find_current_stage_index, index_from, snapshot_stage, planned, reconcile,
}
use agentic_controller.Workflow.Stages.{
  StageStep, Advance, same, moved, base_stages, Outcome, kept, worked, reconcile-Outcome,
}

-- nothing has been done for the stage yet
pub record IsFresh (s : StageStatus) : Type 0 where
  pub unnamed : s.agent_run_name ≡ ""
  pub waiting : s.phase ≡ pending

-- Behind a stage that has not succeeded every stage is fresh.
abbrev pub IsOrdered : List StageStatus → Type 0
IsOrdered [] = Unit
IsOrdered (s ∷ rest) = (s.phase ≢ succeeded → All IsFresh rest) × IsOrdered rest

All-IsOrdered : (l : List StageStatus) → All IsFresh l → IsOrdered l
All-IsOrdered [] h = tt
All-IsOrdered (s ∷ rest) h = (λ n. h.1, All-IsOrdered rest h.1)

IsFresh-snapshot_stage : (l : List Stage) → All IsFresh (map snapshot_stage l)
unfolding snapshot_stage
IsFresh-snapshot_stage [] = tt
IsFresh-snapshot_stage (s ∷ rest) =
    (record { unnamed = refl; waiting = refl }, IsFresh-snapshot_stage rest)

IsOrdered-base_stages :
    (l : List StageStatus) (w : Workflow) → IsOrdered l → IsOrdered (base_stages l w)
IsOrdered-base_stages [] w h = All-IsOrdered _ (IsFresh-snapshot_stage w.stages)
IsOrdered-base_stages (s ∷ rest) w h = h

-- a write to the head, where the head has not succeeded
write_head :
    (s t : StageStatus) (rest : List StageStatus)
    → s.phase ≢ succeeded
    → IsOrdered (s ∷ rest)
    → IsOrdered (t ∷ rest)
write_head s t rest n h = (λ m. h.0 n, h.1)

IsOrdered-set_from :
    (p : Phase) (s t : StageStatus) (rest : List StageStatus) (i : ℕ)
    → s.phase ≡ p
    → IsOrdered (s ∷ rest)
    → IsOrdered (set rest i t)
    → IsOrdered (set (s ∷ rest) (index_from p i) t)
unfolding index_from
IsOrdered-set_from succeeded s t rest i e h k = (λ n. absurd (n e), k)
IsOrdered-set_from unset s t rest i e h k = write_head s t rest (λ q. cc) h
IsOrdered-set_from pending s t rest i e h k = write_head s t rest (λ q. cc) h
IsOrdered-set_from running s t rest i e h k = write_head s t rest (λ q. cc) h
IsOrdered-set_from failed s t rest i e h k = write_head s t rest (λ q. cc) h

IsOrdered-set :
    (l : List StageStatus) (t : StageStatus)
    → IsOrdered l
    → IsOrdered (set l (find_current_stage_index l) t)
unfolding find_current_stage_index
IsOrdered-set [] t h = tt
IsOrdered-set (s ∷ rest) t h =
    IsOrdered-set_from s.phase s t rest _ refl h (IsOrdered-set rest t h.1)

IsOrdered-Advance : {l m : List StageStatus} → Advance l m → IsOrdered l → IsOrdered m
IsOrdered-Advance {l} (same e) h = rw e h
IsOrdered-Advance {l} (moved s t g st e) h = rw e (IsOrdered-set l t h)

IsOrdered-Outcome :
    (c : Cluster) (run : WorkflowRun) (l : List StageStatus)
    → Outcome c run l
    → IsOrdered run.status.stages
    → IsOrdered l
IsOrdered-Outcome c run l (kept e) h = rw e h
IsOrdered-Outcome c run l (worked w g a) h =
    IsOrdered-Advance a (IsOrdered-base_stages run.status.stages w h)

-- Whatever the API server answers, a patched status keeps the order: behind a stage that has not
-- succeeded no stage has an AgentRun or a phase other than Pending.
pub reconcile-IsOrdered :
    (c : Cluster) (run : WorkflowRun) (st : WorkflowRunStatus)
    → (reconcile c run).patched ≡ some st
    → IsOrdered run.status.stages
    → IsOrdered st.stages
reconcile-IsOrdered c run st h = IsOrdered-Outcome c run st.stages (reconcile-Outcome c run st h)

planned-set :
    (l : List StageStatus) (i : ℕ) (s t : StageStatus)
    → get_elem? l i ≡ some s
    → StageStep s t
    → map planned (set l i t) ≡ map planned l
planned-set [] i s t h st = refl
planned-set (x ∷ l) zero s t h st = ground arith
planned-set (x ∷ l) (suc i) s t h st = ap (λ m. planned x ∷ m) (planned-set l i s t h st)

planned-Advance : {l m : List StageStatus} → Advance l m → map planned m ≡ map planned l
planned-Advance {l} (same e) = rw e
planned-Advance {l} (moved s t g st e) = rw e (planned-set l _ s t g st)

planned-base_stages : (l : List StageStatus) (w : Workflow) → l ≢ [] → base_stages l w ≡ l
planned-base_stages [] w n = absurd (n refl)
planned-base_stages (s ∷ rest) w n = refl

planned-Outcome :
    (c : Cluster) (run : WorkflowRun) (l : List StageStatus)
    → Outcome c run l
    → run.status.stages ≢ []
    → map planned l ≡ map planned run.status.stages
planned-Outcome c run l (kept e) n = rw e
planned-Outcome c run l (worked w g a) n =
    planned-Advance a ∙ ap (map planned) (planned-base_stages run.status.stages w n)

-- Once a run has its stages, no reconcile changes their number, order, names, Agents, instructions or
-- execution settings, whatever has become of the workflow meanwhile.
pub reconcile-planned :
    (c : Cluster) (run : WorkflowRun) (st : WorkflowRunStatus)
    → (reconcile c run).patched ≡ some st
    → run.status.stages ≢ []
    → map planned st.stages ≡ map planned run.status.stages
reconcile-planned c run st h = planned-Outcome c run st.stages (reconcile-Outcome c run st h)
