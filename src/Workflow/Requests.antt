-- ===== src/Workflow/Requests.antt =====
-- Which AgentRun a reconcile asks the API server to create.
use mathlib.Core.Path.{subst}
use agentic_controller.Prelude.{
  inl, inr, ap, ℕ, String, ◌≡◌, refl, true, false, Option, none, some, List, [], ◌∷◌, Result, ok,
  err, ◌==◌, eq_iff, get_elem?, take, length, All, arith, Bool-cases, some_inj, none_some, sym, ◌∙◌,
}
use agentic_controller.Api.{
  Phase, succeeded, AgentRun, AgentRunSpec, Agent, ApiError, not_found, already_exists, unavailable,
  Message, is_terminal_phase,
}
use agentic_controller.Workflow.{Stage, Workflow, StageStatus, WorkflowRun, WorkflowParams, Cluster}
use agentic_controller.Workflow.Creation.{
  StageError, stage_agent_run, is_owned_by, create_owned, create_with_guide, create_with_params,
  create_for_agent, create_agent_run_for_stage,
}
use agentic_controller.Workflow.Reconcile.{
  find_current_stage_index, index_from, initialize, planned, enter_stage, start, complete_run,
  patch, patch_after, after_creation, patch_and_fail, watch_child, process_stage, run_workflow,
  with_workflow, workflow_missing, workflow_not_ready, is_ready, reconcile_ttl, expire, observe,
  reconcile,
}
use agentic_controller.Workflow.Stages.{base_stages, stages-prepared}

-- `ctrl.SetControllerReference`: the child keeps its name and its spec, and its owner is the run.
pub record SetsOwner (c : Cluster) : Type 0 where
  pub keeps_name :
      (run : WorkflowRun) (child owned : AgentRun)
      → c.set_controller_reference run child ≡ ok owned
      → owned.meta.name ≡ child.meta.name
  pub keeps_spec :
      (run : WorkflowRun) (child owned : AgentRun)
      → c.set_controller_reference run child ≡ ok owned
      → owned.spec ≡ child.spec
  pub owns :
      (run : WorkflowRun) (child owned : AgentRun)
      → c.set_controller_reference run child ≡ ok owned
      → is_owned_by owned.meta.owner_references run.meta.uid ≡ true

-- the child is the run of this stage
pub record IsRunOf (c : Cluster) (run : WorkflowRun) (stage : Stage) (child : AgentRun)
    : Type 0 where
  pub named : child.meta.name ≡ c.agent_run_name run.meta.name stage.name
  pub agent : child.spec.agent_ref ≡ stage.agent_ref
  pub instructed : child.spec.instructions ≡ stage.instructions
  pub owned : is_owned_by child.meta.owner_references run.meta.uid ≡ true

module _ (c : Cluster) (law : SetsOwner c) (run : WorkflowRun) (stage : Stage)
    (child : AgentRun) where
  create_owned-IsRunOf :
      (index total : ℕ) (agent : Agent) (params : WorkflowParams) (guide : Option String)
      (r : Result Message AgentRun)
      → c.set_controller_reference run (stage_agent_run c run stage index total agent params guide)
        ≡ r
      → (create_owned c run stage (c.agent_run_name run.meta.name stage.name) r).requested
        ≡ some child
      → IsRunOf c run stage child
  unfolding create_owned stage_agent_run
  create_owned-IsRunOf index total agent params guide (err e) h q = absurd (cc)
  create_owned-IsRunOf index total agent params guide (ok owned) h q =
      subst (IsRunOf c run stage) (some_inj q) (record {
        named = law.keeps_name run _ owned h;
        agent = ap (λ (sp : AgentRunSpec). sp.agent_ref) (law.keeps_spec run _ owned h);
        instructed = ap (λ (sp : AgentRunSpec). sp.instructions) (law.keeps_spec run _ owned h);
        owned = law.owns run _ owned h;
      })

  create_with_guide-IsRunOf :
      (index total : ℕ) (agent : Agent) (params : WorkflowParams)
      (r : Result StageError (Option String))
      → (create_with_guide c run stage index total agent params r).requested ≡ some child
      → IsRunOf c run stage child
  unfolding create_with_guide
  create_with_guide-IsRunOf index total agent params (err e) q = absurd (cc)
  create_with_guide-IsRunOf index total agent params (ok guide) q =
      create_owned-IsRunOf index total agent params guide _ refl q

  create_with_params-IsRunOf :
      (index total : ℕ) (agent : Agent) (r : Result Message WorkflowParams)
      → (create_with_params c run stage index total agent r).requested ≡ some child
      → IsRunOf c run stage child
  unfolding create_with_params
  create_with_params-IsRunOf index total agent (err e) q = absurd (cc)
  create_with_params-IsRunOf index total agent (ok params) q =
      create_with_guide-IsRunOf index total agent params _ q

  create_for_agent-IsRunOf :
      (index total : ℕ) (r : Result ApiError Agent)
      → (create_for_agent c run stage index total r).requested ≡ some child
      → IsRunOf c run stage child
  unfolding create_for_agent
  create_for_agent-IsRunOf index total (err e) q = absurd (cc)
  create_for_agent-IsRunOf index total (ok agent) q =
      create_with_params-IsRunOf index total agent _ q

index_from-take :
    (p : Phase) (s : StageStatus) (rest : List StageStatus) (i : ℕ)
    → s.phase ≡ p
    → All (λ x. x.phase ≡ succeeded) (take i rest)
    → All (λ x. x.phase ≡ succeeded) (take (index_from p i) (s ∷ rest))
unfolding index_from
index_from-take succeeded s rest i e h = (e, h)
index_from-take _ s rest i e h = tt

-- every stage before the current one has succeeded
pub find_current_stage_index-take :
    (l : List StageStatus) → All (λ s. s.phase ≡ succeeded) (take (find_current_stage_index l) l)
unfolding find_current_stage_index
find_current_stage_index-take [] = tt
find_current_stage_index-take (s ∷ rest) =
    index_from-take s.phase s rest _ refl (find_current_stage_index-take rest)

-- why a child may be asked for: it is the run of the first stage that has not succeeded, and that
-- stage has no AgentRun yet
pub record Requested (c : Cluster) (run : WorkflowRun) (child : AgentRun) : Type 0 where
  pub workflow : Workflow
  pub found : c.get_workflow run.spec.workflow_ref ≡ ok workflow
  pub stage : StageStatus
  pub current :
      let l = base_stages run.status.stages workflow in
      get_elem? l (find_current_stage_index l) ≡ some stage
  pub before :
      let l = base_stages run.status.stages workflow in
      All (λ s. s.phase ≡ succeeded) (take (find_current_stage_index l) l)
  pub unnamed : stage.agent_run_name ≡ ""
  pub is_run : IsRunOf c run (planned stage) child
  pub active : is_terminal_phase run.status.phase ≡ false

module _ (c : Cluster) (law : SetsOwner c) (child : AgentRun) where
  requested-after_creation :
      (run : WorkflowRun) (i : ℕ) (s : StageStatus) (o : Option AgentRun)
      (r : Result StageError String)
      → (after_creation c run i s o r).requested ≡ o
  unfolding after_creation patch_after patch_and_fail
  requested-after_creation run i s o r = ground arith

  requested-watch_child :
      (run : WorkflowRun) (i : ℕ) (s : StageStatus) (r : Result ApiError AgentRun)
      → (watch_child c run i s r).requested ≡ none
  unfolding watch_child patch patch_after
  requested-watch_child run i s r = ground arith

  entered_IsRunOf :
      (run : WorkflowRun) (s : StageStatus) (st : Stage)
      → IsRunOf c (enter_stage c run s) st child
      → IsRunOf c run st child
  unfolding enter_stage
  entered_IsRunOf run s st h = record {
    named = h.named;
    agent = h.agent;
    instructed = h.instructed;
    owned = h.owned;
  }

  process_stage-Requested :
      (run : WorkflowRun) (o : Option StageStatus)
      → (process_stage c run (find_current_stage_index run.status.stages) o).requested ≡ some child
      → (s : StageStatus) × (o ≡ some s) × (s.agent_run_name ≡ "") × IsRunOf c run (planned s) child
  unfolding process_stage
  process_stage-Requested run none q = absurd (unfold complete_run patch patch_after in cc)
  process_stage-Requested run (some s) q =
      let i = find_current_stage_index run.status.stages in
      elim (Bool-cases (s.agent_run_name == "")) [
        | inl e ↦
            let made =
              create_agent_run_for_stage c (enter_stage c run s) (planned s) i
                (length run.status.stages) in
            (
              s,
              refl,
              (eq_iff s.agent_run_name "").0 e,
              entered_IsRunOf run s (planned s) (
                  unfold create_agent_run_for_stage in
                  create_for_agent-IsRunOf c law (enter_stage c run s) (planned s) child i
                    (length run.status.stages) (c.get_agent s.agent_ref)
                    (sym (
                        requested-after_creation (enter_stage c run s) i s made.requested
                          made.result)
                      ∙ (rw e at q))),
            )
        | inr e ↦ none_some (
            sym (requested-watch_child (enter_stage c run s) i s (c.get_agent_run s.agent_run_name))
            ∙ (rw e at q))
      ]

  requested-run_workflow :
      (run : WorkflowRun) (w : Workflow)
      → c.get_workflow run.spec.workflow_ref ≡ ok w
      → is_terminal_phase run.status.phase ≡ false
      → (run_workflow c run w).requested ≡ some child
      → Requested c run child
  unfolding run_workflow
  requested-run_workflow run w f a q =
      let made =
        process_stage-Requested (record run { status = initialize w (start c run.status) }) _ q in
      record {
        workflow = w;
        found = f;
        stage = made.0;
        current =
            subst (λ l. get_elem? l (find_current_stage_index l) ≡ some made.0)
              (stages-prepared c run w) made.1;
        before = find_current_stage_index-take (base_stages run.status.stages w);
        unnamed = made.2;
        is_run = record {
          named = made.3.named;
          agent = made.3.agent;
          instructed = made.3.instructed;
          owned = made.3.owned;
        };
        active = a;
      }

  requested-with_workflow :
      (run : WorkflowRun) (r : Result ApiError Workflow)
      → c.get_workflow run.spec.workflow_ref ≡ r
      → is_terminal_phase run.status.phase ≡ false
      → (with_workflow c run r).requested ≡ some child
      → Requested c run child
  unfolding with_workflow
  requested-with_workflow run (err not_found) f a q =
      none_some (unfold workflow_missing patch patch_after in q)
  requested-with_workflow run (err already_exists) f a q = none_some q
  requested-with_workflow run (err (unavailable m)) f a q = none_some q
  requested-with_workflow run (ok w) f a q = elim (Bool-cases (is_ready c w)) [
    | inl e ↦ requested-run_workflow run w f a (rw e at q)
    | inr e ↦ none_some (unfold workflow_not_ready patch patch_after in rw e at q)
  ]

observed :
    {c : Cluster} {run : WorkflowRun} {child : AgentRun}
    → Requested c (observe run) child
    → Requested c run child
observed r = record {
  workflow = r.workflow;
  found = r.found;
  stage = r.stage;
  current = r.current;
  before = r.before;
  unnamed = r.unnamed;
  is_run = record {
    named = r.is_run.named;
    agent = r.is_run.agent;
    instructed = r.is_run.instructed;
    owned = r.is_run.owned;
  };
  active = r.active;
}

requested-reconcile_ttl : (c : Cluster) (run : WorkflowRun) → (reconcile_ttl c run).requested ≡ none
unfolding reconcile_ttl expire patch patch_after
requested-reconcile_ttl c run = ground arith

-- Where `SetControllerReference` keeps a child's name and spec and makes the run its owner: a reconcile
-- asks for an AgentRun only for a run that has not ended and whose workflow is there, and it is the run
-- of the first stage that has not succeeded, that stage has no AgentRun yet, and every stage before it
-- has succeeded.
pub reconcile-Requested :
    (c : Cluster) (run : WorkflowRun) (child : AgentRun)
    → SetsOwner c
    → (reconcile c run).requested ≡ some child
    → Requested c run child
unfolding reconcile
reconcile-Requested c run child law q = elim (Bool-cases (is_terminal_phase run.status.phase)) [
  | inl e ↦ none_some (sym (requested-reconcile_ttl c (observe run)) ∙ (rw e at q))
  | inr e ↦ observed (requested-with_workflow c law child (observe run) _ refl e (rw e at q))
]
