-- ===== src/Workflow/Readiness.antt =====
-- internal/controller/agentworkflow_controller.go: an AgentWorkflow is ready when the Agents of all its
-- stages are.
use agentic_controller.Prelude.{
  ℕ, ◌≡◌, refl, ap, ◌∙◌, String, Bool, true, false, ◌&&◌, Option, none, some, List, [], ◌∷◌, Result,
  ok, err, ◌>>=◌, arith, if◌then◌else◌,
}
use agentic_controller.Text.Split.{is_nil}
use agentic_controller.Api.{
  Message, text, format2, join, condition_true, condition_false, Condition, StatusConditions,
  ApiError, not_found, already_exists, unavailable, Reply, done, fail_with,
}
use agentic_controller.Api.Conditions.{is_condition_true}
use agentic_controller.Readiness.Ready.{holds_true}
use agentic_controller.Workflow.{Stage}

-- The part of an `AgentWorkflow` that its own controller reads and writes.
pub record StagedWorkflow : Type 0 where
  pub generation : ℕ
  pub stages : List Stage
  pub observed_generation : ℕ
  pub conditions : List Condition

-- What a reconcile is given: the conditions of the Agent of a name, and whether the patch succeeds.
pub record StagesCluster : Type 0 where
  pub library : StatusConditions
  pub agent_conditions : String → Result ApiError (List Condition)
  pub patch_error : Option ApiError

module _ (c : StagesCluster) where
  unless_ready : Stage → Option Condition → Option Message
  unless_ready s none =
      some (format2 "stage %q: Agent %q is not Ready" (text s.name) (text s.agent_ref))
  unless_ready s (some ready) =
      if is_condition_true ready.status
      then none
      else some (format2 "stage %q: Agent %q is not Ready" (text s.name) (text s.agent_ref))

  -- why a stage is not ready; an Agent that cannot be read ends the reconcile
  stage_problem : Stage → Result ApiError (List Condition) → Result ApiError (Option Message)
  unfolding unless_ready
  stage_problem s (ok conditions) = ok (unless_ready s (c.library.find conditions "Ready"))
  stage_problem s (err not_found) =
      ok (some (format2 "stage %q: Agent %q not found" (text s.name) (text s.agent_ref)))
  stage_problem s (err already_exists) = err already_exists
  stage_problem s (err (unavailable m)) = err (unavailable m)

  unfoldable with_problem : Option Message → List Message → List Message
  with_problem none rest = rest
  with_problem (some m) rest = m ∷ rest

  unfoldable pub not_ready_reasons : List Stage → Result ApiError (List Message)
  unfolding stage_problem with_problem
  not_ready_reasons [] = ok []
  not_ready_reasons (s ∷ rest) = do
    problem ← stage_problem s (c.agent_conditions s.agent_ref)
    reasons ← not_ready_reasons rest
    ok (with_problem problem reasons)

  unfoldable pub stages_condition : StagedWorkflow → List Message → Condition
  stages_condition w [] = record {
    condition_type = "Ready";
    status = condition_true;
    observed_generation = w.generation;
    reason = "AllAgentsReady";
    message = text "All stage Agents are ready";
  }
  stages_condition w (m ∷ ms) = record {
    condition_type = "Ready";
    status = condition_false;
    observed_generation = w.generation;
    reason = "AgentsNotReady";
    message = join "; " m ms;
  }

  reply_to : Option ApiError → Reply
  reply_to none = done
  reply_to (some e) = fail_with e

  report : StagedWorkflow → Result ApiError (List Message) → Option StagedWorkflow × Reply
  unfolding reply_to stages_condition
  report w (err e) = (none, fail_with e)
  report w (ok ms) = (
    some (record w {
      observed_generation = w.generation;
      conditions = c.library.set w.conditions (stages_condition w ms);
    }),
    reply_to c.patch_error,
  )

  -- `Reconcile`, of a workflow that exists: the workflow whose status it patches, if any, and its reply
  unfoldable pub reconcile_workflow : StagedWorkflow → Option StagedWorkflow × Reply
  unfolding report not_ready_reasons
  reconcile_workflow w = report w (not_ready_reasons w.stages)

  -- whether an Agent is known to be there, or not to be
  abbrev pub is_readable : Result ApiError (List Condition) → Bool
  is_readable (ok conditions) = true
  is_readable (err not_found) = true
  is_readable (err already_exists) = false
  is_readable (err (unavailable m)) = false

  abbrev pub has_ready : Result ApiError (List Condition) → Bool
  has_ready (ok conditions) = holds_true (c.library.find conditions "Ready")
  has_ready (err e) = false

  abbrev pub are_readable : List Stage → Bool
  are_readable [] = true
  are_readable (s ∷ rest) = is_readable (c.agent_conditions s.agent_ref) && are_readable rest

  abbrev pub have_ready : List Stage → Bool
  have_ready [] = true
  have_ready (s ∷ rest) = has_ready (c.agent_conditions s.agent_ref) && have_ready rest

  abbrev pub reported : Option StagedWorkflow → Option Bool
  reported none = none
  reported (some w) = some (holds_true (c.library.find w.conditions "Ready"))

  abbrev verdict : Result ApiError (List Message) → Option Bool
  verdict (err e) = none
  verdict (ok ms) = some (is_nil ms)

  abbrev both : Result ApiError (List Condition) → Option Bool → Option Bool
  both r none = none
  both r (some b) = if is_readable r then some (has_ready r && b) else none

  verdict-stage_problem :
      (s : Stage) (r : Result ApiError (List Condition)) (rest : Result ApiError (List Message))
      → verdict (do problem ← stage_problem s r; reasons ← rest; ok (with_problem problem reasons))
        ≡ both r (verdict rest)
  unfolding stage_problem unless_ready with_problem
  verdict-stage_problem s (ok conditions) (err e) = refl
  verdict-stage_problem s (ok conditions) (ok ms) = ground arith
  verdict-stage_problem s (err not_found) (err e) = refl
  verdict-stage_problem s (err not_found) (ok ms) = refl
  verdict-stage_problem s (err already_exists) (err e) = refl
  verdict-stage_problem s (err already_exists) (ok ms) = refl
  verdict-stage_problem s (err (unavailable m)) (err e) = refl
  verdict-stage_problem s (err (unavailable m)) (ok ms) = refl

  both_if :
      (r : Result ApiError (List Condition)) (readable ready : Bool)
      → both r (if readable then some ready else none)
        ≡ (if is_readable r && readable then some (has_ready r && ready) else none)
  both_if r true ready = ground arith
  both_if r false ready = ground arith

  verdict-not_ready_reasons :
      (stages : List Stage)
      → verdict (not_ready_reasons stages)
        ≡ (if are_readable stages then some (have_ready stages) else none)
  unfolding not_ready_reasons
  verdict-not_ready_reasons [] = refl
  verdict-not_ready_reasons (s ∷ rest) =
      let r = c.agent_conditions s.agent_ref in
      verdict-stage_problem s r (not_ready_reasons rest)
      ∙ ap (both r) (verdict-not_ready_reasons rest)
      ∙ both_if r (are_readable rest) (have_ready rest)

  holds_true-stages_condition :
      (w : StagedWorkflow) (ms : List Message)
      → holds_true (c.library.find (c.library.set w.conditions (stages_condition w ms)) "Ready")
        ≡ is_nil ms
  unfolding stages_condition is_condition_true
  holds_true-stages_condition w [] =
      ap holds_true (c.library.find-set_self w.conditions (stages_condition w []))
  holds_true-stages_condition w (m ∷ ms) =
      ap holds_true (c.library.find-set_self w.conditions (stages_condition w (m ∷ ms)))

  reported-report :
      (w : StagedWorkflow) (r : Result ApiError (List Message))
      → reported (report w r).0 ≡ verdict r
  unfolding report
  reported-report w (err e) = refl
  reported-report w (ok ms) = ap some (holds_true-stages_condition w ms)

  -- A reconcile of an AgentWorkflow patches its status unless a read of a stage's Agent fails for
  -- another reason than that it is not there, and then the condition Ready is True exactly when every
  -- stage names an Agent that exists and is ready.
  pub reported-reconcile_workflow :
      (w : StagedWorkflow)
      → reported (reconcile_workflow w).0
        ≡ (if are_readable w.stages then some (have_ready w.stages) else none)
  unfolding reconcile_workflow
  reported-reconcile_workflow w =
      reported-report w (not_ready_reasons w.stages) ∙ verdict-not_ready_reasons w.stages
