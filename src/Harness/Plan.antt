-- ===== src/Harness/Plan.antt =====
-- The Verification section of docs/plan.md, read by `parsePlanVerification` of
-- harness/cmd/migration-harness/verify.go. A text is the list of its code points.
pub mod Cap
pub mod Bounds
mod Lines
use agentic_controller.Prelude.{
  ℕ, zero, suc, ◌+◌, Bool, true, false, not, ◌&&◌, ◌||◌, Option, none, some, List, [], ◌∷◌, ◌++◌,
  eqb, leb, ltb, String, length, any, if◌then◌else◌, map,
}
use agentic_controller.Text.Split.{
  is_nil, one_of, trim, has_suffix, fields, first_word, join_texts, lower, is_among,
}
use agentic_controller.Text.{codes, trim_left, trim_space, equal_texts, has_prefix}
use agentic_controller.Message.{Message, text, runes, format1}
use agentic_controller.Harness.Markdown.{
  is_re_space, skip_space, Line, ProseLine, handoff_prose_lines,
}
use agentic_controller.Harness.Plan.Lines.{
  section_heading, is_verification_heading, verification_item, item_indent, is_letter,
}

-- `planStep`: one line of the section, a command or why there is none
pub record PlanStep : Type 0 where
  pub label : List ℕ
  pub command : List ℕ
  pub skip : Message

unfoldable pub is_runnable : PlanStep → Bool
is_runnable s = not (is_nil s.command)

pub record PlanVerification : Type 0 where
  pub steps : List PlanStep
  pub found : Bool
  pub truncated : Bool
  pub fence : List ℕ

abbrev pub verify_max_steps : ℕ
verify_max_steps = 12

abbrev pub verify_command_max_len : ℕ
verify_command_max_len = 300

-- `verifyProseLabels[strings.ToLower(label)]`
unfoldable pub is_prose_label : List ℕ → Bool
unfolding equal_texts
is_prose_label label =
    is_among (lower label) ("blackbox" ∷ "manual" ∷ "note" ∷ "notes" ∷ "steps" ∷ [])

-- `verifyEmptyValues`
unfoldable pub is_empty_value : List ℕ → Bool
unfolding equal_texts
is_empty_value value = is_among value (
    "" ∷ "none" ∷ "n/a" ∷ "na" ∷ "-" ∷ "—" ∷ "–" ∷ "skip" ∷ "skipped" ∷ "omit" ∷ "omitted" ∷ "tbd"
    ∷ [])

-- `verifyFirstWord`
unfoldable pub verify_first_word : List ℕ → List ℕ
unfolding trim fields
verify_first_word value = lower (trim (codes ".,;:!?`\"'*") (first_word (fields value)))

-- a value with its quoted spans replaced by a space: `verifyQuoted.ReplaceAllString`; the first
-- argument is the quote of the span that is being read
abbrev closes_later : ℕ → List ℕ → Bool
closes_later q s = any (eqb q) s

unfoldable pub drop_quoted : Option ℕ → List ℕ → List ℕ
drop_quoted q [] = []
drop_quoted none (c ∷ s) = elim (one_of (codes "'\"") c && closes_later c s) [
  | true ↦ 32 ∷ drop_quoted (some c) s
  | false ↦ c ∷ drop_quoted none s
]
drop_quoted (some q) (c ∷ s) = elim (eqb c q) [
  | true ↦ drop_quoted none s
  | false ↦ drop_quoted (some q) s
]

-- `verifyShellOperator`
unfoldable pub has_shell_operator : List ℕ → Bool
has_shell_operator [] = false
has_shell_operator (c ∷ []) = false
has_shell_operator (c ∷ d ∷ s) =
    eqb c b'&' && eqb d b'&'
    || eqb c b'|' && eqb d b'|'
    || eqb c b'$' && eqb d b'('
    || has_shell_operator (d ∷ s)

abbrev capital_next : List ℕ → Bool
capital_next [] = false
capital_next (c ∷ s) = leb 65 c && leb c 90

-- `(\s+[A-Z]|$)`
abbrev sentence_ends : List ℕ → Bool
sentence_ends [] = true
sentence_ends (c ∷ s) = is_re_space c && capital_next (skip_space s)

abbrev after_closing : List ℕ → List ℕ
after_closing [] = []
after_closing (c ∷ s) = if one_of (codes "\"')") c then s else c ∷ s

-- `verifySentence`
unfoldable pub has_sentence : List ℕ → Bool
has_sentence [] = false
has_sentence (c ∷ []) = false
has_sentence (c ∷ d ∷ s) =
    is_letter c && one_of (codes ".!?") d && sentence_ends (after_closing s) || has_sentence (d ∷ s)

-- `verifyLooksLikeProse`
unfoldable pub verify_looks_like_prose : List ℕ → Bool
unfolding has_shell_operator has_sentence drop_quoted
verify_looks_like_prose value =
    any (one_of (32 ∷ 9 ∷ [])) value
    && not (has_shell_operator value)
    && has_sentence (drop_quoted none value)

-- the value without the backticks of Markdown around it
unfoldable pub bare_value : List ℕ → List ℕ
unfolding trim_space trim has_suffix has_prefix
bare_value value =
    let v = trim_space value in
    if ltb 1 (length v) && has_prefix v (codes "`") && has_suffix v (codes "`")
    then trim_space (trim (codes "`") v)
    else v

abbrev skipped_step : List ℕ → Message → PlanStep
skipped_step label why = record { label = label; command = []; skip = why }

-- the cases of `classifyVerifyItem`, on the label and the value that they test
unfoldable pub classify_value : List ℕ → List ℕ → PlanStep
unfolding is_prose_label is_empty_value verify_first_word verify_looks_like_prose has_prefix
classify_value label value =
    let first = verify_first_word value in
    if is_prose_label label
    then skipped_step label (text "manual steps, not a command the harness can run or score")
    else if is_empty_value (lower value)
    then skipped_step label (text "the plan names no command here")
    else if not (is_nil first) && is_empty_value first
    then skipped_step label (format1 "the plan says %q here, not a command" (runes first))
    else if has_prefix value (codes "<")
    then skipped_step label (text "unfilled placeholder in the plan, not a command")
    else if ltb verify_command_max_len (length value)
    then skipped_step label (text "prose, not a command (too long to be one)")
    else if verify_looks_like_prose value
    then skipped_step label (text "prose, not a command (reads as a sentence)")
    else record { label = label; command = value; skip = text "" }

-- `classifyVerifyItem`
unfoldable pub classify_verify_item : List ℕ → List ℕ → PlanStep
unfolding classify_value bare_value fields join_texts
classify_verify_item label value =
    classify_value (join_texts (codes " ") (fields label)) (bare_value value)

-- `proseChild`
unfoldable pub prose_child : List ℕ → List ℕ → PlanStep
prose_child label parent = skipped_step label (
    format1 "nested under %s — part of its manual steps, not a command the harness can run or score"
      (runes parent))

-- The state of the loop over the lines. `prose` is the indentation and the label of the prose line
-- whose sub-bullets are being read, `none` where the source has -1.
pub record PlanReader : Type 0 where
  pub parsed : PlanVerification
  pub in_section : Bool
  pub prose : Option (ℕ × List ℕ)

unfoldable pub nested_under_prose : ℕ → Option (ℕ × List ℕ) → Bool
nested_under_prose indent none = false
nested_under_prose indent (some (n, parent)) = ltb n indent

abbrev no_verification : Bool → PlanVerification
no_verification found = record { steps = []; found = found; truncated = false; fence = [] }

read_fence : PlanReader → Line → PlanReader
unfolding nested_under_prose trim_space item_indent
read_fence r line =
    if r.in_section && is_nil r.parsed.fence && not (nested_under_prose (item_indent line) r.prose)
    then record r { parsed = record r.parsed { fence = trim_space line } }
    else r

read_heading : PlanReader → Line → ℕ → PlanReader
unfolding is_verification_heading
read_heading r line level =
    if is_verification_heading line
    then record { parsed = no_verification true; in_section = true; prose = none }
    else record r { in_section = r.in_section && not (leb level 2); prose = none }

abbrev append_step : PlanReader → PlanStep → PlanReader
append_step r step = record r { parsed = record r.parsed { steps = r.parsed.steps ++ step ∷ [] } }

parent_of : Option (ℕ × List ℕ) → List ℕ
parent_of none = []
parent_of (some (n, parent)) = parent

-- an item below the cap
add_item : PlanReader → ℕ → PlanStep → PlanReader
unfolding nested_under_prose parent_of prose_child is_prose_label
add_item r indent step =
    if nested_under_prose indent r.prose
    then append_step r (prose_child step.label (parent_of r.prose))
    else if is_prose_label step.label
    then append_step (record r { prose = some (indent, step.label) }) step
    else append_step (record r { prose = none }) step

read_item : PlanReader → Line → Option (Line × Line) → PlanReader
unfolding add_item classify_verify_item item_indent
read_item r line none = r
read_item r line (some (label, value)) =
    if leb verify_max_steps (length r.parsed.steps)
    then record r { parsed = record r.parsed { truncated = true } }
    else add_item r (item_indent line) (classify_verify_item label value)

read_prose : PlanReader → Line → Option ℕ → PlanReader
unfolding read_heading read_item verification_item
read_prose r line (some level) = read_heading r line level
read_prose r line none = if r.in_section then read_item r line (verification_item line) else r

-- the body of the loop
unfoldable pub read_entry : PlanReader → ProseLine → PlanReader
unfolding read_fence read_prose section_heading
read_entry r e =
    if e.fence then read_fence r e.content else read_prose r e.content (section_heading e.content)

unfoldable pub read_entries : PlanReader → List ProseLine → PlanReader
read_entries r [] = r
read_entries r (e ∷ es) = read_entries (read_entry r e) es

abbrev pub initial_reader : PlanReader
initial_reader = record { parsed = no_verification false; in_section = false; prose = none }

-- `parsePlanVerification`
unfoldable pub parse_plan_verification : List ℕ → PlanVerification
unfolding read_entries
parse_plan_verification content = (read_entries initial_reader (handoff_prose_lines content)).parsed
