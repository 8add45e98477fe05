-- ===== src/Harness/Verification.antt =====
-- harness/cmd/migration-harness/verify.go: the record of the harness's own verification and how its
-- verdict is settled. The elapsed seconds of a command are left out.
pub mod Settled
use agentic_controller.Prelude.{
  ℕ, String, Bool, true, false, ◌||◌, Option, List, [], ◌∷◌, ◌++◌, map, zero, suc, if◌then◌else◌,
}
use agentic_controller.Message.{Message, text, format2, redacted, clipped, is_empty, join}

pub data VerificationStatus : Type 0 where
  passed failed not_run incomplete : VerificationStatus

pub data StepStatus : Type 0 where
  step_passed step_failed step_timed_out step_skipped step_error step_aborted : StepStatus

pub record VerificationStep : Type 0 where
  pub label : Message
  pub command : Message
  pub status : StepStatus
  pub exit_code : Option ℕ
  pub reason : Message
  pub output : Message

pub record Verification : Type 0 where
  pub status : VerificationStatus
  pub reason : Message
  pub commit : String
  pub commands : List VerificationStep

abbrev pub verify_reason_len : ℕ
verify_reason_len = 160

unfoldable pub is_failed : VerificationStatus → Bool
is_failed failed = true
is_failed _ = false

unfoldable pub is_incomplete : VerificationStatus → Bool
is_incomplete incomplete = true
is_incomplete _ = false

-- anything that enforcement acts on
unfoldable pub unmet : VerificationStatus → Bool
unfolding is_failed is_incomplete
unmet s = is_failed s || is_incomplete s

drop_output : VerificationStep → VerificationStep
drop_output c = record c { output = text "" }

unfoldable pub without_output : Verification → Verification
unfolding drop_output
without_output v = record v { commands = map drop_output v.commands }

unfoldable pub verdict_only : Verification → Verification
verdict_only v = record v { commands = [] }

unfoldable pub not_run_because : Message → Verification
not_run_because m = record {
  status = not_run;
  reason = clipped verify_reason_len m;
  commit = "";
  commands = [];
}

unfoldable pub incomplete_because : Message → Verification
incomplete_because m = record {
  status = incomplete;
  reason = clipped verify_reason_len (redacted m);
  commit = "";
  commands = [];
}

unfoldable pub nonempty : List Message → List Message
nonempty [] = []
nonempty (g ∷ gs) = let rest = nonempty gs in if is_empty g then rest else g ∷ rest

unfoldable pub status_name : StepStatus → String
status_name step_passed = "passed"
status_name step_failed = "failed"
status_name step_timed_out = "timedOut"
status_name step_skipped = "skipped"
status_name step_error = "error"
status_name step_aborted = "aborted"

-- what the loop of `settle` holds: the verdict so far, the commands that ran, and the gaps
pub record Tally : Type 0 where
  pub status : VerificationStatus
  pub reason : Message
  pub ran : ℕ
  pub gaps : List Message

-- The first failure names the verdict.
record_failure : VerificationStep → Tally → Tally
unfolding is_failed
record_failure c t = if is_failed t.status then record t { ran = suc t.ran } else record t {
  ran = suc t.ran;
  status = failed;
  reason = format2 "%s %s" c.label (format2 "%s: %s" (text (status_name c.status)) c.command);
}

tally_as : StepStatus → VerificationStep → Tally → Tally
unfolding record_failure
tally_as step_passed c t = record t { ran = suc t.ran }
tally_as step_failed c t = record_failure c t
tally_as step_timed_out c t = record_failure c t
tally_as step_error c t = record_failure c t
tally_as step_aborted c t = record t {
  gaps = t.gaps ++ format2 "%s was not measured (%s)" c.label c.reason ∷ [];
}
tally_as step_skipped c t = t

unfoldable pub tally : Tally → List VerificationStep → Tally
unfolding tally_as
tally t [] = t
tally t (c ∷ cs) = tally (tally_as c.status c t) cs

-- a measured failure, then a gap, then nothing measured, then what the verdict was
verdict : VerificationStatus → Message → ℕ → List Message → VerificationStatus × Message
verdict failed reason ran gaps = (failed, reason)
verdict _ reason ran (g ∷ gaps) = (incomplete, join "; " g gaps)
verdict _ reason zero [] = (incomplete, text "no verification command produced a result")
verdict status reason (suc ran) [] = (status, reason)

unfoldable pub settle : Verification → List Message → Verification
unfolding verdict nonempty tally
settle v extra =
    let start : Tally = record {
      status = v.status;
      reason = v.reason;
      ran = 0;
      gaps = nonempty extra;
    } in
    let t = tally start v.commands in
    let (status, reason) = verdict t.status t.reason t.ran t.gaps in
    record v { status = status; reason = clipped verify_reason_len (redacted reason) }
