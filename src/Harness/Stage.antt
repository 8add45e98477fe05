-- ===== src/Harness/Stage.antt =====
-- How `runStage` of harness/cmd/migration-harness/main.go ends a stage once the agent's turn is over:
-- the outcome of the turn, the stage's own verdict, the harness's verification, the final push, the
-- termination blob and the exit code. Notices and log lines are left out.
pub mod Ending
use agentic_controller.Prelude.{
  ℕ, zero, suc, List, [], Result, String, Bool, true, false, not, ◌&&◌, ◌||◌, Option, none, some,
  ◌==◌, ltb, leb, eqb, is_some, if◌then◌else◌,
}
use agentic_controller.Message.{Message, text, runes, format1, format2, redacted, is_empty}
use agentic_controller.Text.Split.{is_nil}
use agentic_controller.Harness.Handoff.{HandoffVerdict, verdict_failed, stage_handoff}
use agentic_controller.Harness.Outcome.{
  Outcome, succeeded, failed, limit_reached, refused, outcome_name, exit_code, LimitKind,
  limit_none, limit_max_turns, limit_max_cost, PromptResult, PromptCall, answered, broken,
  classify_outcome, Usage, combine_usage,
}
use agentic_controller.Harness.Verification
use agentic_controller.Harness.Verification.{Verification, not_run_because, unmet}
use agentic_controller.Harness.Pass.{Workspace, run_plan_verification}

verdict_stop_reason : HandoffVerdict → Message
verdict_stop_reason v =
    if is_nil v.detail
    then format1 "handoff: Status: %s" (runes v.status)
    else format1 "handoff: %s" (runes v.detail)

-- The stage as it stands when the turn is over. `position` and `stage_count` are the parsed texts of
-- the workflow position, `none` where the text is empty or no number. `push_error` is the answer of
-- the final push.
pub record StageRun : Type 0 where
  pub call : PromptCall
  pub native_max_turns : ℕ
  pub provider_error : Bool
  pub provider_summary : Message
  pub prompt_detail : Message
  pub server_alive : Bool
  pub handoff_result : Option PromptResult
  pub secrets : List (List ℕ)
  pub handoff_changed : Result Message Bool
  pub handoff_content : Result Message (List ℕ)
  pub verify : Bool
  pub verify_enforce : Bool
  pub position : Option ℕ
  pub stage_count : Option ℕ
  pub workspace : Workspace
  pub push_error : Option Message

pub record TerminationBlob : Type 0 where
  pub exit_code : ℕ
  pub outcome : String
  pub limit_reached : LimitKind
  pub handoff_status : Message
  pub stop_reason : Message
  pub maven_proxy_warning : Message
  pub usage : Option Usage
  pub verification : Option Verification

abbrev pub primary_result : PromptCall → Option PromptResult
primary_result (answered r) = some r
primary_result (broken e r) = r

abbrev pub call_failed : PromptCall → Bool
call_failed (answered r) = false
call_failed (broken e r) = true

-- `workflowStagePosition`
workflow_stage_position : Option ℕ → Option ℕ → Option (ℕ × ℕ)
workflow_stage_position (some stage) (some count) =
    if eqb stage 0 || eqb count 0 || ltb count stage then none else some (stage, count)
workflow_stage_position _ _ = none

unfoldable pub is_intermediate_workflow_stage : Option ℕ → Option ℕ → Bool
unfolding workflow_stage_position
is_intermediate_workflow_stage stage count = elim (workflow_stage_position stage count) [
  | none ↦ false
  | some (s, n) ↦ ltb s n
]

unfoldable pub enforce_verification : StageRun → Verification → Bool
unfolding is_intermediate_workflow_stage
enforce_verification s v =
    s.verify_enforce
    && unmet v.status
    && not (is_intermediate_workflow_stage s.position s.stage_count)

-- A crash of the runtime overrides any outcome.
unfoldable pub check_health : Bool → Outcome × LimitKind → Outcome × LimitKind
check_health true o = o
check_health false o = (failed, limit_none)

-- Only a turn that earned success is read again.
unfoldable pub read_handoff : Outcome → Option HandoffVerdict → Option HandoffVerdict
read_handoff succeeded v = v
read_handoff _ v = none

unfoldable pub after_handoff : Outcome → Option HandoffVerdict → Outcome
unfolding verdict_failed
after_handoff o none = o
after_handoff o (some v) = if verdict_failed v then refused else o

unfoldable pub verify_stage : StageRun → Outcome → Verification
verify_stage s succeeded =
    if s.verify
    then run_plan_verification s.workspace
    else not_run_because (text "disabled (HARNESS_VERIFY=off)")
verify_stage s o =
    if s.verify
    then not_run_because (
        format1 "stage outcome %s — the harness verifies a turn that claims success"
          (text (outcome_name o)))
    else not_run_because (text "disabled (HARNESS_VERIFY=off)")

status_text : Verification.VerificationStatus → String
status_text Verification.passed = "passed"
status_text Verification.failed = "failed"
status_text Verification.not_run = "notRun"
status_text Verification.incomplete = "incomplete"

-- the decisions before the final push
pub record Decision : Type 0 where
  pub outcome : Outcome
  pub limit : LimitKind
  pub handoff : Option HandoffVerdict
  pub verification : Verification
  pub enforced : Bool

unfoldable pub decide : StageRun → Decision
unfolding check_health read_handoff after_handoff enforce_verification verify_stage
decide s =
    let (turn, limit) =
      check_health s.server_alive (classify_outcome s.call s.native_max_turns s.provider_error) in
    let verdict = read_handoff turn (stage_handoff s.secrets s.handoff_changed s.handoff_content) in
    let claimed = after_handoff turn verdict in
    let v = verify_stage s claimed in
    let enforced = enforce_verification s v in
    record {
      outcome = if enforced then failed else claimed;
      limit = if enforced then limit_none else limit;
      handoff = verdict;
      verification = v;
      enforced = enforced;
    }

provider_rejected : StageRun → Bool
provider_rejected s = elim (primary_result s.call) [
  | none ↦ false
  | some r ↦ s.provider_error && eqb r.turns_used 0
]

is_outcome_failed : Outcome → Bool
is_outcome_failed failed = true
is_outcome_failed _ = false

abbrev no_verdict : HandoffVerdict
no_verdict = record { status = []; detail = [] }

abbrev or_no_verdict : Option HandoffVerdict → HandoffVerdict
or_no_verdict none = no_verdict
or_no_verdict (some v) = v

-- the stop reason of a blob that has a result
result_stop_reason : StageRun → Decision → PromptResult → Message
unfolding verdict_stop_reason provider_rejected status_text
result_stop_reason s d r =
    if d.enforced
    then format2 "verification %s: %s" (text (status_text d.verification.status))
        d.verification.reason
    else if provider_rejected s
    then format1 "provider error: %s" s.provider_summary
    else elim d.outcome [
      | refused ↦ verdict_stop_reason (or_no_verdict d.handoff)
      | _ ↦ redacted (text r.stop_reason)
    ]

blob_of_result : StageRun → Decision → Option PromptResult → TerminationBlob
unfolding result_stop_reason
blob_of_result s d none = record {
  exit_code = exit_code d.outcome;
  outcome = outcome_name d.outcome;
  limit_reached = limit_none;
  handoff_status = text "";
  stop_reason = text "";
  maven_proxy_warning = text "";
  usage = none;
  verification = some d.verification;
}
blob_of_result s d (some r) = record {
  exit_code = exit_code d.outcome;
  outcome = outcome_name d.outcome;
  limit_reached = d.limit;
  handoff_status = redacted (runes (or_no_verdict d.handoff).status);
  stop_reason = result_stop_reason s d r;
  maven_proxy_warning = text "";
  usage = some (combine_usage r s.handoff_result);
  verification = some d.verification;
}

-- A failed call outranks the stop reason of a partial result.
blob_before_push : StageRun → Decision → TerminationBlob
unfolding blob_of_result provider_rejected is_outcome_failed
blob_before_push s d =
    let b = blob_of_result s d (primary_result s.call) in
    if call_failed s.call
      && is_outcome_failed d.outcome
      && not (provider_rejected s)
      && not d.enforced
    then record b { stop_reason = format1 "prompt failed: %s" s.prompt_detail }
    else b

unfoldable pub finish_blob : StageRun → Decision → TerminationBlob
unfolding blob_before_push
finish_blob s d = elim s.push_error [
  | none ↦ blob_before_push s d
  | some e ↦ record (blob_before_push s d) {
    exit_code = 1;
    outcome = outcome_name failed;
    limit_reached = limit_none;
    stop_reason = format1 "final push: %v" e;
  }
]

-- the code that the process exits with
unfoldable pub finish_code : StageRun → Decision → ℕ
finish_code s d = elim s.push_error [
  | some e ↦ 1
  | none ↦ elim d.outcome [ succeeded ↦ 0 | limit_reached ↦ 2 | refused ↦ 3 | failed ↦ 1 ]
]

-- the exit code and the termination blob of the stage
unfoldable pub end_stage : StageRun → ℕ × TerminationBlob
unfolding decide finish_code finish_blob
end_stage s = let d = decide s in (finish_code s d, finish_blob s d)
