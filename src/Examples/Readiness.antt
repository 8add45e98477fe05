-- ===== src/Examples/Readiness.antt =====
-- A workflow one of whose Agents is missing.
use agentic_controller.Prelude.{
  ◌≡◌, refl, String, false, some, none, [], ◌∷◌, ok, err, ◌==◌, if◌then◌else◌,
}
use agentic_controller.Api.{condition_true, text, not_found}
use agentic_controller.Api.Conditions.{is_condition_true}
use agentic_controller.Api.Sample.{list_conditions}
use agentic_controller.Workflow.{Stage}
use agentic_controller.Workflow.Readiness.{
  StagedWorkflow, StagesCluster, reported, are_readable, have_ready, reconcile_workflow,
  reported-reconcile_workflow,
}

abbrev cluster : StagesCluster
cluster = record {
  library = list_conditions;
  agent_conditions = λ name.
      if name == "planner"
      then ok (
          record {
            condition_type = "Ready";
            status = condition_true;
            observed_generation = 2;
            reason = "AllDependenciesReady";
            message = text "";
          }
          ∷ [])
      else err not_found;
  patch_error = none;
}

abbrev stage_of : String → Stage
stage_of name = record { name = name; agent_ref = name; instructions = "Go on."; execution = none }

abbrev workflow : StagedWorkflow
workflow = record {
  generation = 4;
  stages = stage_of "planner" ∷ stage_of "migrator" ∷ [];
  observed_generation = 3;
  conditions = [];
}

workflow_run : reported cluster (reconcile_workflow cluster workflow).0 ≡ some false
unfolding reconcile_workflow is_condition_true
workflow_run = refl

reported-reconcile_workflow_example : reported cluster (reconcile_workflow cluster workflow).0 ≡ (
    if are_readable cluster workflow.stages
    then some (have_ready cluster workflow.stages)
    else none)
reported-reconcile_workflow_example = reported-reconcile_workflow cluster workflow
