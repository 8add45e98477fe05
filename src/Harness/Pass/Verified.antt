-- ===== src/Harness/Pass/Verified.antt =====
-- When the harness says that the pushed tree is verified.
use agentic_controller.Prelude.{
  ℕ, suc, String, ◌≡◌, refl, Bool, true, false, not, ◌&&◌, ◌||◌, List, [], ◌∷◌, Result, ok, err,
  ◌==◌, any, is_some, arith,
}
use agentic_controller.Message.{Message, is_empty}
use agentic_controller.Harness.Verification.{
  VerificationStatus, VerificationStep, passed, not_run_because, incomplete_because,
}
use agentic_controller.Harness.Verification.Settled.{
  is_failure, is_aborted, is_pass, has_gap, expected_status, settle-expected_status,
}
use agentic_controller.Harness.Plan.{
  PlanStep, is_runnable, PlanVerification, parse_plan_verification,
}
use agentic_controller.Harness.Pass.{
  Plan, missing, unreadable, document, StepRun, exited_zero, Workspace, kept_paths, record_step,
  record_steps, or_default, gap_of, gap_result, after_gap, unsettled, target_of,
  default_verify_timeout, default_verify_total_timeout, truncated_gap, verify_target, worktree_gap,
  measure, run_plan_verification, verify_plan, verify_parsed, nothing_to_run, after_target,
}

abbrev pub is_passed : VerificationStatus → Bool
is_passed passed = true
is_passed _ = false

-- the command ran to its end, undisturbed, and exited 0
abbrev pub exits_zero : StepRun → Bool
exits_zero r =
    not (is_some r.before)
    && not (is_some r.during)
    && not r.overdue
    && (elim r.result [ exited_zero ↦ true | _ ↦ false ])

-- every command of the section ran and exited 0
abbrev pub all_exit_zero : (ℕ → StepRun) → ℕ → List PlanStep → Bool
all_exit_zero run i [] = true
all_exit_zero run i (s ∷ rest) =
    (not (is_runnable s) || exits_zero (run i)) && all_exit_zero run (suc i) rest

-- the branch that will be pushed and the working tree are at one commit
abbrev pub at_tip : Result Message String → Result Message String → Bool
at_tip (ok tip) (ok head) = head == tip
at_tip _ _ = false

abbrev pub none_of : List String → Bool
none_of [] = true
none_of (p ∷ ps) = false

-- nothing but the stage's own bookkeeping is uncommitted
abbrev pub is_clean : Result Message (List String) → Bool
is_clean (err e) = false
is_clean (ok paths) = none_of (kept_paths paths)

abbrev pub covers_parsed : Workspace → PlanVerification → Bool
covers_parsed w p =
    p.found && any is_runnable p.steps && not p.truncated && all_exit_zero w.run 0 p.steps

abbrev pub covers : Workspace → Plan → Bool
covers w (document content) = covers_parsed w (parse_plan_verification content)
covers w _ = false

abbrev pub is_verified : Workspace → Bool
is_verified w =
    covers w w.plan
    && w.has_repo
    && not (w.branch == "")
    && at_tip w.branch_tip w.head
    && is_clean w.uncommitted_paths

or_of_nots :
    (a b c d x y : Bool)
    → (a || c) ≡ not x
    → (b || d) ≡ not y
    → ((a || b) || (c || d)) ≡ not (x && y)
or_of_nots a b c d x y h k = ground arith

or_of_implied :
    (a b c x y z : Bool)
    → a ≡ (x && y)
    → ((not x || y) && z) ≡ true
    → (z ≡ true → b ≡ c)
    → (a || b) ≡ (x || c)
or_of_implied a b c x y z h k l = ground arith

module _ (timeout total : ℕ) where
  is_pass-record_step :
      (s : PlanStep) (r : StepRun)
      → is_pass (record_step timeout total s r) ≡ (is_runnable s && exits_zero r)
  unfolding record_step
  is_pass-record_step s r = ground arith

  disturbed-record_step :
      (s : PlanStep) (r : StepRun)
      → (is_failure (record_step timeout total s r) || is_aborted (record_step timeout total s r))
        ≡ not (not (is_runnable s) || exits_zero r)
  unfolding record_step
  disturbed-record_step s r = ground arith

  module _ (run : ℕ → StepRun) where
    disturbed-record_steps :
        (i : ℕ) (steps : List PlanStep)
        → (any is_failure (record_steps timeout total run i steps)
            || any is_aborted (record_steps timeout total run i steps))
          ≡ not (all_exit_zero run i steps)
    unfolding record_steps
    disturbed-record_steps i [] = refl
    disturbed-record_steps i (s ∷ rest) =
        or_of_nots (is_failure (record_step timeout total s (run i)))
          (any is_failure (record_steps timeout total run (suc i) rest))
          (is_aborted (record_step timeout total s (run i)))
          (any is_aborted (record_steps timeout total run (suc i) rest))
          (not (is_runnable s) || exits_zero (run i)) (all_exit_zero run (suc i) rest)
          (disturbed-record_step s (run i)) (disturbed-record_steps (suc i) rest)

    is_pass-record_steps :
        (i : ℕ) (steps : List PlanStep)
        → all_exit_zero run i steps ≡ true
        → any is_pass (record_steps timeout total run i steps) ≡ any is_runnable steps
    unfolding record_steps
    is_pass-record_steps i [] h = refl
    is_pass-record_steps i (s ∷ rest) h =
        or_of_implied (is_pass (record_step timeout total s (run i)))
          (any is_pass (record_steps timeout total run (suc i) rest)) (any is_runnable rest)
          (is_runnable s) (exits_zero (run i)) (all_exit_zero run (suc i) rest)
          (is_pass-record_step s (run i)) h (is_pass-record_steps (suc i) rest)

is_passed-expected_status :
    (cs : List VerificationStep) (extra : List Message)
    → is_passed (expected_status cs extra)
      ≡ (not (any is_failure cs || any is_aborted cs) && not (has_gap extra) && any is_pass cs)
is_passed-expected_status cs extra = ground arith

is_empty-gap_of : (tip : String) (l : List String) → is_empty (gap_of tip l) ≡ none_of l
unfolding gap_of is_empty
is_empty-gap_of tip [] = refl
is_empty-gap_of tip (p ∷ []) = refl
is_empty-gap_of tip (p ∷ q ∷ l) = refl

module _ (w : Workspace) (p : PlanVerification) where
  is_passed-measure :
      (tip : String) (gap : Message)
      → any is_runnable p.steps ≡ true
      → is_passed (measure w p tip gap).status
        ≡ (is_empty gap && not p.truncated && all_exit_zero w.run 0 p.steps)
  unfolding measure truncated_gap is_empty
  is_passed-measure tip gap h =
      let timeout = or_default w.timeout default_verify_timeout in
      let total = or_default w.total default_verify_total_timeout in
      let cs = record_steps timeout total w.run 0 p.steps in
      rw (settle-expected_status (unsettled w p tip) (gap ∷ truncated_gap p.truncated ∷ []) refl) (
        ground (
          arith,
          is_passed-expected_status cs (gap ∷ truncated_gap p.truncated ∷ []),
          disturbed-record_steps timeout total w.run 0 p.steps,
          is_pass-record_steps timeout total w.run 0 p.steps,
        ))

  is_passed-after_gap :
      (tip : String) (r : Result Message (List String))
      → any is_runnable p.steps ≡ true
      → is_passed (after_gap w p tip (gap_result tip r)).status
        ≡ (is_clean r && not p.truncated && all_exit_zero w.run 0 p.steps)
  unfolding after_gap gap_result incomplete_because
  is_passed-after_gap tip (err e) h = refl
  is_passed-after_gap tip (ok paths) h = ground (
    arith,
    is_passed-measure tip (gap_of tip (kept_paths paths)),
    is_empty-gap_of tip (kept_paths paths),
  )

  is_passed-target_of :
      (tip head : Result Message String)
      → any is_runnable p.steps ≡ true
      → is_passed (after_target w p (target_of w.branch tip head)).status ≡ (
          at_tip tip head
          && is_clean w.uncommitted_paths
          && not p.truncated
          && all_exit_zero w.run 0 p.steps)
  unfolding after_target target_of worktree_gap incomplete_because
  is_passed-target_of (err e) head h = refl
  is_passed-target_of (ok tip) (err e) h = refl
  is_passed-target_of (ok tip) (ok head) h =
      ground (arith, is_passed-after_gap tip w.uncommitted_paths)

is_passed-nothing_to_run : (p : PlanVerification) → is_passed (nothing_to_run p).status ≡ false
unfolding nothing_to_run incomplete_because not_run_because
is_passed-nothing_to_run p = ground arith

is_passed-verify_parsed :
    (w : Workspace) (p : PlanVerification)
    → is_passed (verify_parsed w p).status ≡ (
        covers_parsed w p
        && w.has_repo
        && not (w.branch == "")
        && at_tip w.branch_tip w.head
        && is_clean w.uncommitted_paths)
unfolding verify_parsed verify_target incomplete_because after_target not_run_because
is_passed-verify_parsed w p =
    ground (arith, is_passed-nothing_to_run p, is_passed-target_of w p w.branch_tip w.head)

is_passed-verify_plan :
    (w : Workspace) (plan : Plan)
    → is_passed (verify_plan w plan).status ≡ (
        covers w plan
        && w.has_repo
        && not (w.branch == "")
        && at_tip w.branch_tip w.head
        && is_clean w.uncommitted_paths)
unfolding verify_plan not_run_because
is_passed-verify_plan w missing = refl
is_passed-verify_plan w (unreadable e) = refl
is_passed-verify_plan w (document content) =
    is_passed-verify_parsed w (parse_plan_verification content)

-- The pass is recorded as passed exactly when the plan was read and has a Verification section that
-- names a command and was not cut at the step cap, every command of it ran undisturbed and exited 0,
-- the branch to be pushed and HEAD are one commit, and nothing but the stage's own bookkeeping files
-- is uncommitted.
pub run_plan_verification-is_verified :
    (w : Workspace) → is_passed (run_plan_verification w).status ≡ is_verified w
unfolding run_plan_verification
run_plan_verification-is_verified w = is_passed-verify_plan w w.plan
