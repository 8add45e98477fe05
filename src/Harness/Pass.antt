-- ===== src/Harness/Pass.antt =====
-- `runPlanVerification` of harness/cmd/migration-harness/verify.go: the commands of the plan's
-- Verification section, run on the tree that is about to be pushed. What the calls of git, of the
-- file system and of the shell answer is given; log lines are left out.
pub mod Verified
pub mod Unmeasured
use agentic_controller.Prelude.{
  ℕ, zero, suc, ◌-◌, String, Bool, true, false, not, ◌&&◌, ◌||◌, Option, none, some, List, [], ◌∷◌,
  Result, ok, err, ◌==◌, ltb, length, any, map, if◌then◌else◌,
}
use agentic_controller.Message.{
  Message, text, count, runes, format1, format2, format3, redacted, clipped, is_empty, join,
}
use agentic_controller.Text.Split.{is_nil}
use agentic_controller.Harness.Plan.{
  PlanStep, is_runnable, PlanVerification, verify_max_steps, parse_plan_verification,
}
use agentic_controller.Harness.Verification.{
  Verification, VerificationStep, passed, StepStatus, step_passed, step_failed, step_timed_out,
  step_skipped, step_error, step_aborted, verify_reason_len, not_run_because, incomplete_because,
  settle,
}

-- what reading docs/plan.md gives
pub data Plan : Type 0 where
  missing : Plan
  unreadable : Message → Plan
  document : List ℕ → Plan

-- Why the pass stops: its budget is used up, or the run is cancelled.
pub data Stop : Type 0 where
  out_of_budget cancelled : Stop

-- the error of `cmd.Run`
pub data RunError : Type 0 where
  exited_zero : RunError
  exit_error : ℕ → RunError
  not_started : Message → RunError

-- What happens around one command: whether the pass is stopped before it or during it, whether the
-- command's own deadline passes, how it ends, and its captured output.
pub record StepRun : Type 0 where
  pub before : Option Stop
  pub during : Option Stop
  pub overdue : Bool
  pub result : RunError
  pub output : String

-- The timeouts are in nanoseconds, 0 where none is configured; `run` gives what happens at each line.
pub record Workspace : Type 0 where
  pub plan : Plan
  pub has_repo : Bool
  pub branch : String
  pub branch_tip : Result Message String
  pub head : Result Message String
  pub uncommitted_paths : Result Message (List String)
  pub timeout : ℕ
  pub total : ℕ
  pub run : ℕ → StepRun

abbrev verify_output_blob : ℕ
verify_output_blob = 200

abbrev verify_command_len : ℕ
verify_command_len = 120

abbrev default_verify_timeout : ℕ
default_verify_timeout = 600_000_000_000

abbrev default_verify_total_timeout : ℕ
default_verify_total_timeout = 1_800_000_000_000

abbrev or_default : ℕ → ℕ → ℕ
or_default zero d = d
or_default (suc n) d = suc n

pass_stopped : ℕ → Stop → Message
pass_stopped total out_of_budget =
    format1 "the verification pass ran out of its %s budget" (count total)
pass_stopped total cancelled = text "the run was cancelled"

unfoldable pub truncated_gap : Bool → Message
truncated_gap false = text ""
truncated_gap true =
    format1 "the ## Verification section lists more than %d commands; the rest were not run"
      (count verify_max_steps)

-- `shortSHA`
short_sha : String → Message
short_sha s = if s == "" then text "unknown" else format1 "%.12s" (text s)

compare_tips : String → String → String → Result Message String
unfolding short_sha
compare_tips branch head tip =
    if head == tip
    then ok tip
    else err (
        format3
          "the working tree is at %s but branch %s points at %s — the harness cannot verify the commit being pushed"
          (short_sha head) (text branch) (short_sha tip))

target_of : String → Result Message String → Result Message String → Result Message String
unfolding compare_tips
target_of branch (err e) head = err (format2 "resolve branch %s: %v" (text branch) e)
target_of branch (ok tip) (err e) = err (format1 "resolve HEAD: %v" e)
target_of branch (ok tip) (ok head) = compare_tips branch head tip

-- the commit that the result describes, or the mismatch
unfoldable pub verify_target : Workspace → Result Message String
unfolding target_of
verify_target w =
    if not w.has_repo || w.branch == ""
    then err (text "the harness could not identify the commit being pushed")
    else target_of w.branch w.branch_tip w.head

unfoldable pub is_ignored : String → Bool
is_ignored path = path == ".konveyor/analysis.json" || path == ".konveyor/handoff.md"

unfoldable pub kept_paths : List String → List String
unfolding is_ignored
kept_paths [] = []
kept_paths (p ∷ ps) = let rest = kept_paths ps in if is_ignored p then rest else p ∷ rest

shown_paths : String → List String → Message
shown_paths p [] = text p
shown_paths p (a ∷ []) = join ", " (text p) (text a ∷ [])
shown_paths p (a ∷ b ∷ []) = join ", " (text p) (text a ∷ text b ∷ [])
shown_paths p (a ∷ b ∷ rest) =
    format2 "%s, and %d more" (join ", " (text p) (text a ∷ text b ∷ [])) (count (length rest))

gap_message : String → String → List String → Message
unfolding short_sha shown_paths
gap_message commit p ps =
    format3
      "%d path(s) in the working tree are not in commit %s (%s), so the commands did not run on the tree being pushed"
      (count (suc (length ps))) (short_sha commit) (shown_paths p ps)

gap_of : String → List String → Message
unfolding gap_message
gap_of commit [] = text ""
gap_of commit (p ∷ ps) = gap_message commit p ps

gap_result : String → Result Message (List String) → Result Message Message
unfolding gap_of kept_paths
gap_result commit (err e) = err e
gap_result commit (ok paths) = ok (gap_of commit (kept_paths paths))

unfoldable pub worktree_gap : Workspace → String → Result Message Message
unfolding gap_result
worktree_gap w commit = gap_result commit w.uncommitted_paths

clip_command : PlanStep → Message
clip_command step = clipped verify_command_len (redacted (runes step.command))

skipped_record : PlanStep → VerificationStep
skipped_record step = record {
  label = runes step.label;
  command = text "";
  status = step_skipped;
  exit_code = none;
  reason = clipped verify_reason_len (redacted step.skip);
  output = text "";
}

-- `runVerifyStep`: the status, the exit code and the reason, in the order of its cases
unfoldable pub end_of_run : ℕ → ℕ → StepRun → StepStatus × Option ℕ × Message
unfolding pass_stopped
end_of_run timeout total r = elim r.during [
  | some stop ↦ (step_aborted, none, format1 "%s during this command" (pass_stopped total stop))
  | none ↦
      if r.overdue
      then (step_timed_out, none, format1 "no exit after %s" (count timeout))
      else elim r.result [
        | exit_error code ↦ (step_failed, some code, text "")
        | not_started e ↦ (step_error, none, clipped verify_reason_len (redacted e))
        | exited_zero ↦ (step_passed, some 0, text "")
      ]
]

-- The excerpt of the output stands as the redacted text that it is cut from.
excerpt : StepStatus → String → Message
excerpt step_passed output = text ""
excerpt _ output =
    if output == "" then text "" else clipped verify_output_blob (redacted (text output))

unfoldable pub run_verify_step : ℕ → ℕ → PlanStep → StepRun → VerificationStep
unfolding end_of_run excerpt clip_command
run_verify_step timeout total step r =
    let (status, exit_code, reason) = end_of_run timeout total r in
    record {
      label = runes step.label;
      command = clip_command step;
      status = status;
      exit_code = exit_code;
      reason = reason;
      output = excerpt status r.output;
    }

aborted_record : ℕ → PlanStep → Stop → VerificationStep
unfolding clip_command pass_stopped
aborted_record total step stop = record {
  label = runes step.label;
  command = clip_command step;
  status = step_aborted;
  exit_code = none;
  reason = format1 "%s before this command" (pass_stopped total stop);
  output = text "";
}

unfoldable pub record_step : ℕ → ℕ → PlanStep → StepRun → VerificationStep
unfolding skipped_record aborted_record run_verify_step is_runnable
record_step timeout total step r =
    if not (is_runnable step) then skipped_record step else elim r.before [
      | some stop ↦ aborted_record total step stop
      | none ↦ run_verify_step timeout total step r
    ]

-- the loop over the section's lines, from line `i` on
unfoldable pub record_steps : ℕ → ℕ → (ℕ → StepRun) → ℕ → List PlanStep → List VerificationStep
record_steps timeout total run i [] = []
record_steps timeout total run i (s ∷ rest) =
    record_step timeout total s (run i) ∷ record_steps timeout total run (suc i) rest

abbrev pub unsettled : Workspace → PlanVerification → String → Verification
unsettled w p target = record {
  status = passed;
  reason = text "";
  commit = target;
  commands =
      record_steps (or_default w.timeout default_verify_timeout)
        (or_default w.total default_verify_total_timeout) w.run 0 p.steps;
}

unfoldable pub measure : Workspace → PlanVerification → String → Message → Verification
measure w p target gap = settle (unsettled w p target) (gap ∷ truncated_gap p.truncated ∷ [])

after_gap : Workspace → PlanVerification → String → Result Message Message → Verification
after_gap w p target (err e) = incomplete_because (format1 "inspect the working tree: %v" e)
after_gap w p target (ok gap) = measure w p target gap

after_target : Workspace → PlanVerification → Result Message String → Verification
unfolding after_gap
after_target w p (err mismatch) = incomplete_because mismatch
after_target w p (ok target) = after_gap w p target (worktree_gap w target)

-- a section with nothing to run
nothing_to_run : PlanVerification → Verification
nothing_to_run p =
    if p.truncated
    then incomplete_because (truncated_gap true)
    else if not (is_nil p.fence)
    then incomplete_because (
        format1
          "the ## Verification section of docs/plan.md names no command outside a fenced %s block, which the harness does not read — nothing was measured"
          (runes p.fence))
    else elim p.steps [
      | [] ↦ not_run_because (text "the ## Verification section of docs/plan.md is empty")
      | s ∷ rest ↦
          not_run_because
            (text "the ## Verification section of docs/plan.md names no command to run")
    ]

verify_parsed : Workspace → PlanVerification → Verification
unfolding after_target nothing_to_run
verify_parsed w p =
    if not p.found
    then not_run_because (text "docs/plan.md has no ## Verification section")
    else if not (any is_runnable p.steps)
    then nothing_to_run p
    else after_target w p (verify_target w)

verify_plan : Workspace → Plan → Verification
unfolding verify_parsed parse_plan_verification
verify_plan w missing =
    not_run_because (text "docs/plan.md not found — no verification commands to run")
verify_plan w (unreadable e) = not_run_because (format1 "read docs/plan.md: %v" (redacted e))
verify_plan w (document content) = verify_parsed w (parse_plan_verification content)

unfoldable pub run_plan_verification : Workspace → Verification
unfolding verify_plan
run_plan_verification w = verify_plan w w.plan
