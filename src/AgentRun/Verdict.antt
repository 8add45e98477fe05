-- ===== src/AgentRun/Verdict.antt =====
-- internal/controller/verification.go: the Verified condition, from the verdict that the harness left
-- in the termination blob. `decode` is the unmarshalling of the one key of the blob that the
-- controller reads (encoding/json), `none` where it fails or the key is missing.
pub mod Reported
use agentic_controller.Prelude.{
  take, ℕ, String, Bool, true, ◌&&◌, ◌||◌, Option, none, some, List, [], ◌∷◌, ◌==◌, ltb, leb,
  length, if◌then◌else◌,
}
use agentic_controller.Api.{
  AgentRun, Message, text, runes, format1, format2, ConditionStatus, condition_true,
  condition_false, condition_unknown, StatusConditions,
}
use agentic_controller.Text.{codes, trim_space}
use agentic_controller.AgentRun.Status.{set_condition}

-- The texts that the message cuts are lists of code points.
pub record HarnessVerification : Type 0 where
  pub status : String
  pub reason : List ℕ
  pub commit : List ℕ

abbrev pub verification_verdict_max_runes : ℕ
verification_verdict_max_runes = 512

abbrev pub verification_commit_runes : ℕ
verification_commit_runes = 12

abbrev pub evidence_pointer : String
evidence_pointer =
    "status.terminationData.verification.commands records each command and its exit code"

-- `truncateRunes`, which marks the cut with an ellipsis
truncate_runes : List ℕ → ℕ → Message
truncate_runes s max = if leb (length s) max then runes s else format1 "%s…" (runes (take max s))

truncate_runes_plain : List ℕ → ℕ → List ℕ
truncate_runes_plain s max = if leb (length s) max then s else take max s

unfoldable pub is_hex : ℕ → Bool
is_hex r = leb b'0' r && leb r b'9' || leb b'a' r && leb r b'f' || leb b'A' r && leb r b'F'

all_hex : List ℕ → Bool
all_hex [] = true
all_hex (r ∷ s) = is_hex r && all_hex s

short_sha : List ℕ → List ℕ
unfolding is_hex all_hex truncate_runes_plain
short_sha sha =
    if ltb (length sha) 7 || ltb 64 (length sha)
    then []
    else if all_hex sha
    then truncate_runes_plain sha verification_commit_runes
    else []

unfoldable pub short_commit : List ℕ → List ℕ
unfolding short_sha trim_space
short_commit sha = short_sha (trim_space sha)

on_commit : Message → List ℕ → Message
on_commit m [] = m
on_commit m c = format2 "%s on commit %s" m (runes c)

because : Message → List ℕ → Message
unfolding truncate_runes
because m [] = m
because m r = format2 "%s: %s" m (truncate_runes r verification_verdict_max_runes)

unfoldable pub with_detail : String → HarnessVerification → Message
unfolding on_commit because short_commit
with_detail summary v =
    format2 "%s. %s"
      (because (on_commit (text summary) (short_commit v.commit)) (trim_space v.reason))
      (text evidence_pointer)

-- The empty raw extension is no blob.
unfoldable pub harness_verification_from :
    (String → Option HarnessVerification) → Option String → Option HarnessVerification
harness_verification_from decode none = none
harness_verification_from decode (some raw) =
    if raw == ""
    then none
    else elim (decode raw) [ none ↦ none | some v ↦ if v.status == "" then none else some v ]

pub record Verdict : Type 0 where
  pub status : ConditionStatus
  pub reason : String
  pub message : Message

unfoldable pub verdict_of : Option HarnessVerification → Verdict
unfolding with_detail truncate_runes
verdict_of none = record {
  status = condition_unknown;
  reason = "VerificationNotReported";
  message =
      text
        "The harness reported no verification result; this run's pushed tree was not independently checked";
}
verdict_of (some v) =
    if v.status == "passed"
    then record {
      status = condition_true;
      reason = "VerificationPassed";
      message = with_detail "Every verification command in the run's plan ran and exited 0" v;
    }
    else if v.status == "failed"
    then record {
      status = condition_false;
      reason = "VerificationFailed";
      message = with_detail "A verification command in the run's plan did not pass" v;
    }
    else if v.status == "incomplete"
    then record {
      status = condition_false;
      reason = "VerificationIncomplete";
      message =
          with_detail
            "Verification of the run's plan could not be completed, so the pushed tree is not verified"
            v;
    }
    else if v.status == "notRun"
    then record {
      status = condition_false;
      reason = "VerificationNotRun";
      message = with_detail "No verification command ran, so the pushed tree is unverified" v;
    }
    else record {
      status = condition_unknown;
      reason = "VerificationNotReported";
      message =
          format1
            "The harness reported an unrecognised verification status %q; this run's pushed tree cannot be treated as verified"
            (truncate_runes (codes v.status) verification_verdict_max_runes);
    }

unfoldable pub verification_verdict :
    (String → Option HarnessVerification) → Option String → Verdict
unfolding verdict_of harness_verification_from
verification_verdict decode td = verdict_of (harness_verification_from decode td)

unfoldable pub set_run_verified :
    StatusConditions → (String → Option HarnessVerification) → AgentRun → Option String → AgentRun
set_run_verified ops decode run td =
    let v = verification_verdict decode td in
    set_condition ops run "Verified" v.status v.reason v.message
