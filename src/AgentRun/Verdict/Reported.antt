-- ===== src/AgentRun/Verdict/Reported.antt =====
-- When a run counts as verified.
use agentic_controller.Prelude.{
  ℕ, String, ◌≡◌, refl, ap, ◌∙◌, ◌≢◌, Bool, Option, none, some, if_elim, ◌==◌, arith, eq_iff,
  if◌then◌else◌,
}
use agentic_controller.Api.{
  AgentRun, Phase, Message, ConditionStatus, condition_true, condition_false, condition_unknown,
  StatusConditions,
}
use agentic_controller.AgentRun.Pod.{Pod, Sandbox, terminal_pod, termination_data_from_pod}
use agentic_controller.AgentRun.Status.{
  set_run_succeeded, set_terminal_outcome, outcome_of_exit, stamp_completion, set_phase,
}
use agentic_controller.AgentRun.Verdict.{
  HarnessVerification, verification_verdict, verdict_of, harness_verification_from,
  set_run_verified,
}
use agentic_controller.AgentRun.Phase.{
  Env, finished_reason, finish_run, capture, follow_sandbox, update_phase_from_sandbox,
}
use agentic_controller.AgentRun.Lifecycle.{status_in}

-- what the termination data says about verification, `none` where it says nothing
abbrev pub reported : (String → Option HarnessVerification) → Option String → Option String
reported decode none = none
reported decode (some raw) = elim (decode raw) [
  | none ↦ none
  | some v ↦ if raw == "" then none else if v.status == "" then none else some v.status
]

-- the status of the Verified condition for what was reported
abbrev pub expected_verdict : Option String → ConditionStatus
expected_verdict none = condition_unknown
expected_verdict (some s) =
    if s == "passed"
    then condition_true
    else if s == "failed"
    then condition_false
    else if s == "incomplete"
    then condition_false
    else if s == "notRun"
    then condition_false
    else condition_unknown

status-verification_verdict :
    (decode : String → Option HarnessVerification) (td : Option String)
    → (verification_verdict decode td).status ≡ expected_verdict (reported decode td)
unfolding verification_verdict verdict_of harness_verification_from
status-verification_verdict decode none = refl
status-verification_verdict decode (some raw) = ground arith

verified_not_succeeded : ◌≢◌ {A = String} "Succeeded" "Verified"
verified_not_succeeded = ground (arith, eq_iff "Succeeded" "Verified")

module _ (ops : StatusConditions) where
  abbrev pub verified_status : AgentRun → Option ConditionStatus
  verified_status run = status_in (ops.find run.status.conditions "Verified")

  record Keeps (v : Option ConditionStatus) (run : AgentRun) : Type 0 where
    verified : verified_status run ≡ v

  set_run_succeeded-Keeps :
      (run : AgentRun) (s : ConditionStatus) (r : String) (m : Message)
      → Keeps (verified_status run) (set_run_succeeded ops run s r m)
  unfolding set_run_succeeded
  set_run_succeeded-Keeps run s r m = record {
    verified =
        ap status_in (ops.find-set_ne run.status.conditions _ "Verified" verified_not_succeeded);
  }

  outcome_of_exit-Keeps :
      (run : AgentRun) (n : ℕ) (b : Bool) (r m : String)
      → Keeps (verified_status run) (outcome_of_exit ops run n b r m)
  unfolding outcome_of_exit
  outcome_of_exit-Keeps run n b r m =
      let with_phase = λ (p : Phase) (s : ConditionStatus) (r : String) (m : Message).
        set_run_succeeded-Keeps (set_phase run p) s r m in
      search (if_elim (Keeps (verified_status run)), with_phase)

  verified-set_run_verified :
      (decode : String → Option HarnessVerification) (run : AgentRun) (td : Option String)
      → verified_status (set_run_verified ops decode run td)
        ≡ some (expected_verdict (reported decode td))
  unfolding set_run_verified
  verified-set_run_verified decode run td =
      ap status_in (ops.find-set_self _ _) ∙ ap some (status-verification_verdict decode td)

-- the termination data of a finished run: the agent container's, or what it had
abbrev pub kept_data : Option String → Option String → Option String
kept_data old none = old
kept_data old (some td) = some td

data-capture :
    (run : AgentRun) (td : Option String)
    → (capture run td).status.termination_data ≡ kept_data run.status.termination_data td
unfolding capture
data-capture run none = refl
data-capture run (some td) = refl

abbrev pub captured : Env → AgentRun → Option Pod → Option String
captured env run pod =
    kept_data run.status.termination_data
      (termination_data_from_pod env.is_json_object (terminal_pod pod env.direct_pod))

-- Once the Sandbox has finished, the run's Verified condition is True exactly when the termination
-- data reports passed; it is False for failed, incomplete and notRun, and Unknown for any other
-- status, for none, and for data that does not decode. The exit code has no part in it.
pub verified-update_phase_from_sandbox :
    (env : Env) (run : AgentRun) (sandbox : Sandbox) (pod : Option Pod) (reason : String)
    → finished_reason sandbox.conditions ≡ some reason
    → verified_status env.conditions (update_phase_from_sandbox env run sandbox pod).0
      ≡ some (expected_verdict (reported env.decode_verification (captured env run pod)))
unfolding update_phase_from_sandbox follow_sandbox finish_run set_terminal_outcome stamp_completion
verified-update_phase_from_sandbox env run sandbox pod reason h = rw h (
    (outcome_of_exit-Keeps env.conditions _ _ _ _ _).verified
    ∙ verified-set_run_verified env.conditions env.decode_verification _ _
    ∙ ap (λ t. some (expected_verdict (reported env.decode_verification t)))
        (data-capture _
          (termination_data_from_pod env.is_json_object (terminal_pod pod env.direct_pod))))
