-- ===== src/Examples/Reading.antt =====
-- The theorems on plans, handoffs and outputs at concrete documents.
use agentic_controller.Prelude.{ℕ, List, [], ◌∷◌, ◌≡◌, refl}
use agentic_controller.Text.{codes, equal_texts, trim_space}
use agentic_controller.Text.Split.{split, unix_newlines}
use agentic_controller.Harness.Markdown.{lines_of, fence_marker, closes}
use agentic_controller.Harness.Markdown.Fences.{Fenced}
use agentic_controller.Harness.Plan.{parse_plan_verification}
use agentic_controller.Harness.Plan.Cap.{all_steps}
use agentic_controller.Harness.Plan.Bounds.{IsBounded, parse_plan_verification-IsBounded}
use agentic_controller.Harness.Handoff.{parse_handoff_verdict}
use agentic_controller.Harness.Handoff.Read.{parse_handoff_verdict-Fenced}
use agentic_controller.Harness.Output.{write_all, empty_buffer}
use agentic_controller.Harness.Output.Tail.{concat, Shows, write_all-Shows}
use agentic_controller.Examples.Documents.{plan_md, secrets}

parse_plan_verification-IsBounded_example :
    IsBounded (all_steps plan_md) (parse_plan_verification plan_md)
parse_plan_verification-IsBounded_example = parse_plan_verification-IsBounded plan_md

abbrev before : List (List ℕ)
before = codes "- Status: done" ∷ []

abbrev opening : List ℕ
opening = codes "```sh"

abbrev body : List (List ℕ)
body = codes "## Goal" ∷ codes "- Status: failed" ∷ []

abbrev closing : List ℕ
closing = codes "```"

abbrev with_quote : List ℕ
with_quote = codes "- Status: done\n```sh\n## Goal\n- Status: failed\n```\n"

abbrev without_quote : List ℕ
without_quote = codes "- Status: done\n```sh\n```\n"

with_quote-Fenced : Fenced with_quote before opening body closing ([] ∷ [])
unfolding lines_of split unix_newlines fence_marker closes equal_texts trim_space
with_quote-Fenced = record {
  marker = record { char = 96; size = 3 };
  splits = refl;
  outside = refl;
  opens = refl;
  stays = (refl, (refl, tt));
  ends = refl;
}

without_quote-Fenced : Fenced without_quote before opening [] closing ([] ∷ [])
unfolding lines_of split unix_newlines fence_marker closes equal_texts trim_space
without_quote-Fenced = record {
  marker = record { char = 96; size = 3 };
  splits = refl;
  outside = refl;
  opens = refl;
  stays = tt;
  ends = refl;
}

parse_handoff_verdict-Fenced_example :
    (parse_plan_verification with_quote ≡ parse_plan_verification without_quote)
    × (parse_handoff_verdict secrets with_quote ≡ parse_handoff_verdict secrets without_quote)
parse_handoff_verdict-Fenced_example =
    parse_handoff_verdict-Fenced secrets with_quote without_quote with_quote-Fenced
      without_quote-Fenced

abbrev pieces : List (List ℕ)
pieces = codes "[INFO] " ∷ codes "BUILD" ∷ codes " FAILURE" ∷ []

write_all-Shows_example : Shows (write_all (empty_buffer 8) pieces) (concat pieces)
write_all-Shows_example = write_all-Shows 8 pieces
