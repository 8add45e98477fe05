-- ===== src/Harness/Pass/Unmeasured.antt =====
-- When a verification pass is recorded as not run.
use agentic_controller.Prelude.{
  sym, ◌≡◌, refl, ◌∙◌, Bool, true, false, not, ◌&&◌, ◌||◌, List, [], ◌∷◌, any, Result, ok, err,
  String, arith, ap,
}
use agentic_controller.Text.Split.{is_nil}
use agentic_controller.Message.{Message}
use agentic_controller.Harness.Verification.{
  VerificationStatus, not_run, VerificationStep, not_run_because, incomplete_because,
}
use agentic_controller.Harness.Verification.Settled.{expected_status, settle-expected_status}
use agentic_controller.Harness.Plan.{PlanVerification, is_runnable, parse_plan_verification}
use agentic_controller.Harness.Pass.{
  Workspace, Plan, missing, unreadable, document, verify_target, worktree_gap, truncated_gap,
  unsettled, measure, after_gap, after_target, nothing_to_run, verify_parsed, verify_plan,
  run_plan_verification,
}

abbrev is_not_run : VerificationStatus → Bool
is_not_run not_run = true
is_not_run _ = false

-- no Verification section, or one that was read to its end and names no command, not even in a fenced block
abbrev pub names_nothing : PlanVerification → Bool
names_nothing p = not p.found || not (any is_runnable p.steps) && not p.truncated && is_nil p.fence

-- there is no plan, or it cannot be read, or it names nothing to measure
abbrev pub is_unmeasured : Plan → Bool
is_unmeasured missing = true
is_unmeasured (unreadable e) = true
is_unmeasured (document content) = names_nothing (parse_plan_verification content)

is_not_run-expected_status :
    (cs : List VerificationStep) (extra : List Message)
    → is_not_run (expected_status cs extra) ≡ false
is_not_run-expected_status cs extra = ground arith

module _ (w : Workspace) (p : PlanVerification) where
  is_not_run-measure :
      (tip : String) (gap : Message) → is_not_run (measure w p tip gap).status ≡ false
  unfolding measure
  is_not_run-measure tip gap =
      let gaps = gap ∷ truncated_gap p.truncated ∷ [] in
      ap is_not_run (settle-expected_status (unsettled w p tip) gaps refl)
      ∙ is_not_run-expected_status (unsettled w p tip).commands gaps

  is_not_run-after_gap :
      (tip : String) (r : Result Message Message) → is_not_run (after_gap w p tip r).status ≡ false
  unfolding after_gap incomplete_because
  is_not_run-after_gap tip (err e) = refl
  is_not_run-after_gap tip (ok gap) = is_not_run-measure tip gap

  is_not_run-after_target :
      (r : Result Message String) → is_not_run (after_target w p r).status ≡ false
  unfolding after_target incomplete_because
  is_not_run-after_target (err e) = refl
  is_not_run-after_target (ok tip) = is_not_run-after_gap tip (worktree_gap w tip)

is_not_run-nothing_to_run :
    (p : PlanVerification)
    → is_not_run (nothing_to_run p).status ≡ (not p.truncated && is_nil p.fence)
unfolding nothing_to_run incomplete_because not_run_because
is_not_run-nothing_to_run p = ground arith

is_not_run-verify_parsed :
    (w : Workspace) (p : PlanVerification) → is_not_run (verify_parsed w p).status ≡ names_nothing p
unfolding verify_parsed not_run_because
is_not_run-verify_parsed w p =
    ground (arith, is_not_run-nothing_to_run p, is_not_run-after_target w p (verify_target w))

is_not_run-verify_plan :
    (w : Workspace) (plan : Plan) → is_not_run (verify_plan w plan).status ≡ is_unmeasured plan
unfolding verify_plan not_run_because
is_not_run-verify_plan w missing = refl
is_not_run-verify_plan w (unreadable e) = refl
is_not_run-verify_plan w (document content) =
    is_not_run-verify_parsed w (parse_plan_verification content)

-- A pass is recorded as not run only where there is no plan, where it cannot be read, or where it has
-- no Verification section or one that names no command.
pub run_plan_verification-is_unmeasured :
    (w : Workspace) → (run_plan_verification w).status ≡ not_run → is_unmeasured w.plan ≡ true
unfolding run_plan_verification
run_plan_verification-is_unmeasured w h = sym (is_not_run-verify_plan w w.plan) ∙ ap is_not_run h
