-- ===== src/Examples/Stages.antt =====
-- A stage whose turn succeeds and whose plan has one command.
use agentic_controller.Prelude.{
  ◌≡◌, refl, true, false, not, ◌&&◌, none, some, [], ◌∷◌, ok, ◌⊎◌, eqb, is_some,
}
use agentic_controller.Api.{text}
use agentic_controller.Message.{is_empty}
use agentic_controller.Api.Sample.{list_conditions}
use agentic_controller.AgentRun.Pod.{agent_exit_code, agent_container_termination}
use agentic_controller.AgentRun.Status.{set_terminal_outcome}
use agentic_controller.Harness.Outcome.{classify_outcome, PromptResult, answered}
use agentic_controller.Harness.Verification.{
  Verification, VerificationStep, settle, passed, step_passed, step_failed, unmet,
}
use agentic_controller.Harness.Verification.Settled.{settle-expected_status, expected_status}
use agentic_controller.Text.{equal_texts}
use agentic_controller.Harness.Plan.{is_runnable}
use agentic_controller.Harness.Handoff.{stage_handoff, verdict_failed}
use agentic_controller.Examples.Documents.{
  plan_md, handoff_md, secrets, plan_parsed, handoff_parsed,
}
use agentic_controller.Harness.Pass.{
  StepRun, Workspace, document, exited_zero, run_plan_verification, verify_target, worktree_gap,
  measure, record_steps, record_step, truncated_gap,
}
use agentic_controller.Harness.Pass.Unmeasured.{is_unmeasured}
use agentic_controller.Harness.Pass.Verified.{
  is_passed, is_verified, run_plan_verification-is_verified,
}
use agentic_controller.Harness.Stage.{StageRun, end_stage, is_intermediate_workflow_stage}
use agentic_controller.Harness.Stage.Ending.{
  claims_success, must_verify, finished_outcome, exit_zero_iff, exit_zero_verified,
}
use agentic_controller.Contract.{ReadsAs, set_terminal_outcome-end_stage}
use agentic_controller.Examples.AgentRuns.{run, ended}

abbrev undisturbed : StepRun
undisturbed = record {
  before = none;
  during = none;
  overdue = false;
  result = exited_zero;
  output = "";
}

abbrev workspace : Workspace
workspace = record {
  plan = document plan_md;
  has_repo = true;
  branch = "main";
  branch_tip = ok "4f2a";
  head = ok "4f2a";
  uncommitted_paths = ok (".konveyor/handoff.md" ∷ []);
  timeout = 0;
  total = 0;
  run = λ i. undisturbed;
}

abbrev turn : PromptResult
turn = record {
  stop_reason = "end_turn";
  turns_used = 4;
  cost_limit_reached = false;
  context_used = 10;
  context_size = 100;
  cost = 3;
}

abbrev stage : StageRun
stage = record {
  call = answered turn;
  native_max_turns = 0;
  provider_error = false;
  provider_summary = text "";
  prompt_detail = text "";
  server_alive = true;
  handoff_result = none;
  secrets = secrets;
  handoff_changed = ok true;
  handoff_content = ok handoff_md;
  verify = true;
  verify_enforce = true;
  position = some 2;
  stage_count = some 2;
  workspace = workspace;
  push_error = none;
}

run_plan_verification-is_verified_example :
    is_passed (run_plan_verification workspace).status ≡ is_verified workspace
run_plan_verification-is_verified_example = run_plan_verification-is_verified workspace

exit_zero_iff_example : eqb (end_stage stage).0 0 ≡ (
    claims_success stage
    && not (must_verify stage && unmet (run_plan_verification workspace).status)
    && not (is_some stage.push_error))
exit_zero_iff_example = exit_zero_iff stage

stage-exit_code : (end_stage stage).0 ≡ 0
unfolding end_stage unmet classify_outcome run_plan_verification is_runnable verify_target
    worktree_gap measure settle record_steps record_step is_empty truncated_gap stage_handoff
    verdict_failed equal_texts
stage-exit_code = rw (handoff_parsed, plan_parsed) refl

stage-must_verify : must_verify stage ≡ true
unfolding is_intermediate_workflow_stage
stage-must_verify = refl

exit_zero_verified_example : (is_verified workspace ≡ true) ⊎ (is_unmeasured workspace.plan ≡ true)
exit_zero_verified_example = exit_zero_verified stage stage-exit_code stage-must_verify

ended-exit_code : agent_exit_code (some (ended 0)) ≡ ((end_stage stage).0, true)
unfolding agent_exit_code agent_container_termination
ended-exit_code = rw stage-exit_code refl

set_terminal_outcome-end_stage_example :
    ReadsAs list_conditions run "PodFailed" ""
      (finished_outcome stage)
      (set_terminal_outcome list_conditions run (some (ended 0)) "PodFailed" "")
set_terminal_outcome-end_stage_example =
    set_terminal_outcome-end_stage list_conditions run "PodFailed" "" stage (some (ended 0))
      ended-exit_code

abbrev passing : VerificationStep
passing = record {
  label = text "Build";
  command = text "mvn package";
  status = step_passed;
  exit_code = some 0;
  reason = text "";
  output = text "";
}

abbrev failing : VerificationStep
failing = record passing { status = step_failed; exit_code = some 1 }

abbrev measured : Verification
measured = record {
  status = passed;
  reason = text "";
  commit = "4f2a";
  commands = passing ∷ failing ∷ [];
}

settle-expected_status_example :
    (settle measured []).status ≡ expected_status (passing ∷ failing ∷ []) []
settle-expected_status_example = settle-expected_status measured [] refl
