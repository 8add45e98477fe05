-- ===== src/Harness/Stage/Ending.antt =====
-- What the exit code of a stage says, in the harness and at the controller that reads it.
use agentic_controller.Prelude.{
  inl, inr, if◌then◌else◌, ◌⊎◌, ◌≡◌, Bool, true, false, not, ◌&&◌, Option, none, some, arith,
  is_some, eqb,
}
use agentic_controller.Harness.Outcome.{
  Outcome, succeeded, failed, exit_code, outcome_name, classify_outcome,
}
use agentic_controller.Harness.Verification.{unmet, not_run, not_run_because}
use agentic_controller.Harness.Pass.{run_plan_verification}
use agentic_controller.Harness.Pass.Verified.{is_verified, run_plan_verification-is_verified}
use agentic_controller.Harness.Pass.Unmeasured.{is_unmeasured, run_plan_verification-is_unmeasured}
use agentic_controller.Harness.Handoff.{HandoffVerdict, verdict_failed, stage_handoff}
use agentic_controller.Harness.Stage.{StageRun, is_intermediate_workflow_stage, decide, end_stage}

abbrev pub is_success : Outcome → Bool
is_success succeeded = true
is_success _ = false

abbrev handoff_fails : Option HandoffVerdict → Bool
handoff_fails none = false
handoff_fails (some v) = verdict_failed v

-- the turn ended as a success, the runtime is still up, and the stage's handoff does not say that it failed
abbrev pub claims_success : StageRun → Bool
claims_success s =
    s.server_alive
    && is_success (classify_outcome s.call s.native_max_turns s.provider_error).0
    && not (handoff_fails (stage_handoff s.secrets s.handoff_changed s.handoff_content))

-- the operator enforces verification, and this is not an earlier stage of a workflow
abbrev pub must_verify : StageRun → Bool
must_verify s =
    s.verify && s.verify_enforce && not (is_intermediate_workflow_stage s.position s.stage_count)

-- The process exits 0 exactly when the turn earned success, the runtime is still up, the handoff does not report a failure,
-- verification is not enforced here or is not unmet, and the final push went through.
pub exit_zero_iff :
    (s : StageRun)
    → eqb (end_stage s).0 0 ≡ (
        claims_success s
        && not (must_verify s && unmet (run_plan_verification s.workspace).status)
        && not (is_some s.push_error))
unfolding end_stage unmet not_run_because
exit_zero_iff s = ground arith

-- what the stage ends as, the push included
abbrev pub finished_outcome : StageRun → Outcome
finished_outcome s = if is_some s.push_error then failed else (decide s).outcome

-- The process's exit code, and the exit code and the word in the termination blob, are those of one
-- outcome: the decided one, or failed where the final push failed.
pub end_stage_agrees :
    (s : StageRun)
    → ((end_stage s).0 ≡ exit_code (finished_outcome s))
      × ((end_stage s).1.exit_code ≡ exit_code (finished_outcome s))
      × ((end_stage s).1.outcome ≡ outcome_name (finished_outcome s))
unfolding end_stage exit_code outcome_name
end_stage_agrees s = ground arith

verified_or_not_run :
    (s : StageRun)
    → (end_stage s).0 ≡ 0
    → must_verify s ≡ true
    → (is_verified s.workspace ≡ true) ⊎ ((run_plan_verification s.workspace).status ≡ not_run)
unfolding unmet
verified_or_not_run s h k =
    ground (arith, exit_zero_iff s, run_plan_verification-is_verified s.workspace)

-- Where the operator enforces verification, the last stage ends with code 0 only if all commands of the
-- plan were measured as passing on the commit that is pushed, or nothing was measured because there is
-- no plan, the plan cannot be read, or it has no Verification section or one that names no command.
pub exit_zero_verified :
    (s : StageRun)
    → (end_stage s).0 ≡ 0
    → must_verify s ≡ true
    → (is_verified s.workspace ≡ true) ⊎ (is_unmeasured s.workspace.plan ≡ true)
exit_zero_verified s h k = elim (verified_or_not_run s h k) [
  | inl v ↦ inl v
  | inr n ↦ inr (run_plan_verification-is_unmeasured s.workspace n)
]
