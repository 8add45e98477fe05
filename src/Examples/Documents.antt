-- ===== src/Examples/Documents.antt =====
-- A plan and a handoff, as the agent writes them.
use agentic_controller.Prelude.{ℕ, List, [], ◌∷◌, ◌≡◌, refl, true, false, some}
use agentic_controller.Message.{text}
use agentic_controller.Text.{codes}
use agentic_controller.Harness.Plan.{
  PlanStep, PlanVerification, parse_plan_verification, read_entry,
}
use agentic_controller.Harness.Handoff.{HandoffVerdict, parse_handoff_verdict, read_line}
use agentic_controller.Harness.Markdown.{
  handoff_prose, handoff_prose_lines, prose_from, lines_of, fence_marker,
}
use agentic_controller.Text.Split.{split, unix_newlines, after_word, lower, is_among}

abbrev pub plan_md : List ℕ
plan_md = codes "# Plan\n\n## Verification\n\n- Build: mvn package\n- Blackbox: start the app\n"

abbrev pub build : PlanStep
build = record { label = codes "Build"; command = codes "mvn package"; skip = text "" }

abbrev pub handoff_md : List ℕ
handoff_md = codes "## Goal\n\n## Execute\n- Status: completed\n"

abbrev pub secrets : List (List ℕ)
secrets = codes "hunter2" ∷ []

abbrev pub blackbox : PlanStep
blackbox = record {
  label = codes "Blackbox";
  command = [];
  skip = text "manual steps, not a command the harness can run or score";
}

abbrev pub plan_read : PlanVerification
plan_read = record { steps = build ∷ blackbox ∷ []; found = true; truncated = false; fence = [] }

pub plan_parsed : parse_plan_verification plan_md ≡ plan_read
unfolding parse_plan_verification handoff_prose_lines prose_from lines_of split fence_marker
    unix_newlines read_entry after_word lower is_among
plan_parsed = refl

abbrev pub completed : HandoffVerdict
completed = record { status = codes "completed"; detail = [] }

pub handoff_parsed : parse_handoff_verdict secrets handoff_md ≡ some completed
unfolding parse_handoff_verdict handoff_prose handoff_prose_lines prose_from lines_of split
    fence_marker unix_newlines read_line after_word lower
handoff_parsed = refl
