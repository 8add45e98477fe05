-- ===== src/Workflow/Histories.antt =====
-- Whole histories of a workflow run: any number of reconciles, each with an API server that answers
-- as it likes. The spec is immutable.
use agentic_controller.Prelude.{◌≡◌, refl, ◌∙◌, ◌≢◌, ap, ◌∷◌, true, some, List, [], map}
use agentic_controller.Api.{is_terminal_phase}
use agentic_controller.Workflow.{StageStatus, WorkflowRun, WorkflowRunStatus, Cluster}
use agentic_controller.Workflow.Reconcile.{planned, reconcile}
use agentic_controller.Workflow.Order.{IsOrdered, reconcile-IsOrdered, reconcile-planned}
use agentic_controller.Workflow.Expiry.{reconcile-terminal}

-- the run once a patch of its status is stored
abbrev pub store : WorkflowRun → WorkflowRunStatus → WorkflowRun
store run st = record run { status = st }

-- `History run r`: some sequence of reconciles leads from `run` to `r`.
pub data History (run : WorkflowRun) : WorkflowRun → Type 0 where
  begun : History run run
  patched :
      {r : WorkflowRun} (c : Cluster) (st : WorkflowRunStatus)
      → History run r
      → (reconcile c r).patched ≡ some st
      → History run (store r st)

-- What holds of every status along a history: the stages are in order, and what was planned once stays.
pub record Tracks (run r : WorkflowRun) : Type 0 where
  pub ordered : IsOrdered r.status.stages
  pub same_plan : map planned r.status.stages ≡ map planned run.status.stages
  pub planned_still : r.status.stages ≢ []

kept_nonempty : (l m : List StageStatus) → map planned m ≡ map planned l → l ≢ [] → m ≢ []
kept_nonempty [] m e n k = n refl
kept_nonempty (s ∷ l) [] e n k = cc
kept_nonempty (s ∷ l) (t ∷ m) e n k = cc

-- From a run whose stages are planned and in order, every sequence of reconciles, whatever the API
-- servers of its steps answer, leads to a run with the same plan whose stages are in order.
pub History-Tracks :
    (run r : WorkflowRun)
    → History run r
    → IsOrdered run.status.stages
    → run.status.stages ≢ []
    → Tracks run r
History-Tracks run r begun h n = record { ordered = h; same_plan = refl; planned_still = n }
History-Tracks run r (patched {r = q} c st before e) h n =
    let t = History-Tracks run q before h n in
    let p = reconcile-planned c q st e t.planned_still in
    record {
      ordered = reconcile-IsOrdered c q st e t.ordered;
      same_plan = p ∙ t.same_plan;
      planned_still = kept_nonempty q.status.stages st.stages p t.planned_still;
    }

-- what a run that has ended keeps
pub record Ended (run r : WorkflowRun) : Type 0 where
  pub phase : r.status.phase ≡ run.status.phase
  pub stages : r.status.stages ≡ run.status.stages

-- Once a workflow run is in a terminal phase, every sequence of reconciles leaves its phase and its
-- stages as they are.
pub History-Ended :
    (run r : WorkflowRun) → History run r → is_terminal_phase run.status.phase ≡ true → Ended run r
History-Ended run r begun t = record { phase = refl; stages = refl }
History-Ended run r (patched {r = q} c st before e) t =
    let k = History-Ended run q before t in
    let s = (reconcile-terminal c q st (ap is_terminal_phase k.phase ∙ t) e).1 in
    record {
      phase = ap (λ (x : WorkflowRunStatus). x.phase) s ∙ k.phase;
      stages = ap (λ (x : WorkflowRunStatus). x.stages) s ∙ k.stages;
    }
