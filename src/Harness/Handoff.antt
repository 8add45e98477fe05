-- ===== src/Harness/Handoff.antt =====
-- harness/cmd/migration-harness/handoff.go: the stage's own verdict, read from the last section of
-- .konveyor/handoff.md. Texts are lists of code points; a regular expression is written out as the
-- matching that it stands for.
pub mod Read
use agentic_controller.Prelude.{
  ℕ, zero, suc, ◌+◌, ◌-◌, Bool, true, false, not, ◌&&◌, ◌||◌, Option, none, some, List, [], ◌∷◌,
  ◌++◌, eqb, leb, ltb, String, Result, ok, err, length, take, any, if◌then◌else◌, map,
}
use agentic_controller.Text.Split.{
  is_nil, one_of, trim, split, fields, first_word, trim_prefix, lower, is_among, after_word,
  fold_case,
}
use agentic_controller.Text.{codes, trim_left, trim_right, trim_space, equal_texts, has_prefix}
use agentic_controller.Message.{Message}
use agentic_controller.Harness.Redaction.{redact}
use agentic_controller.Harness.Markdown.{
  Line, is_re_space, skip_space, skip_stars, or_else, handoff_prose,
}

-- `handoffVerdict`
pub record HandoffVerdict : Type 0 where
  pub status : List ℕ
  pub detail : List ℕ

-- `failed`
unfoldable pub verdict_failed : HandoffVerdict → Bool
unfolding equal_texts
verdict_failed v = equal_texts v.status (codes "failed")

abbrev pub handoff_detail_len : ℕ
handoff_detail_len = 300

abbrev last_of : Line → Option Line
last_of [] = none
last_of (c ∷ []) = some (c ∷ [])
last_of (c ∷ d ∷ s) = last_of (d ∷ s)

abbrev or_last : Line → Line → Option Line
or_last s [] = last_of s
or_last s (c ∷ v) = some (c ∷ v)

-- `\s*(.+?)\s*$`: of spaces alone, the last one is left to match
captured : Line → Option Line
unfolding trim_right
captured s = or_last s (trim_right is_re_space (skip_space s))

after_colon : Line → Option Line
unfolding captured
after_colon [] = none
after_colon (c ∷ s) = if eqb c b':' then captured s else none

-- `(?:[-*]\s*)?\**`
after_bullet : Line → Line
after_bullet [] = []
after_bullet (c ∷ s) =
    if one_of (codes "-*") c then skip_stars (skip_space s) else skip_stars (c ∷ s)

-- the value of a line that begins with `word` and a colon
labelled : String → Line → Option Line
unfolding after_bullet after_colon
labelled word line = elim (after_word word (after_bullet (skip_space line))) [
  | none ↦ none
  | some rest ↦ after_colon (skip_space (skip_stars rest))
]

-- `handoffStatusLine`
unfoldable pub handoff_status_line : Line → Option Line
unfolding labelled
handoff_status_line line = labelled "status" line

-- `handoffDetailLine`
unfoldable pub handoff_detail_line : Line → Option Line
unfolding labelled
handoff_detail_line line =
    or_else (labelled "summary" line) (or_else (labelled "error" line) (labelled "reason" line))

status_and_rest : List ℕ → List (List ℕ) → HandoffVerdict
unfolding trim trim_prefix trim_space trim_right
status_and_rest value [] = record { status = []; detail = [] }
status_and_rest value (word ∷ words) =
    let rest = trim_left (one_of (codes " \t-—–:|(,")) (trim_prefix value word) in
    record {
      status = lower (trim (codes ".,;:!*`\"'()") word);
      detail = trim_space (trim_right (one_of (codes ")")) (trim_space rest));
    }

-- `splitHandoffStatus`
unfoldable pub split_handoff_status : List ℕ → HandoffVerdict
unfolding status_and_rest fields
split_handoff_status value =
    let v = trim_left (one_of (codes "* \t")) value in status_and_rest v (fields v)

-- `tableSeparator`, past the first colon: `-+:?$`
dashes_then_colon : Bool → List ℕ → Bool
dashes_then_colon some_dash [] = some_dash
dashes_then_colon some_dash (c ∷ s) =
    let rest = dashes_then_colon true s in
    if eqb c b'-' then rest else some_dash && eqb c b':' && is_nil s

abbrev after_one_colon : List ℕ → List ℕ
after_one_colon [] = []
after_one_colon (c ∷ s) = if eqb c b':' then s else c ∷ s

table_separator : List ℕ → Bool
unfolding dashes_then_colon
table_separator cell = dashes_then_colon false (after_one_colon cell)

-- `strings.EqualFold(cell, "failed")`
unfoldable pub is_failed_cell : List ℕ → Bool
unfolding fold_case equal_texts
is_failed_cell cell = equal_texts (map fold_case cell) (codes "failed")

abbrev last_cell : List (List ℕ) → List ℕ
last_cell [] = []
last_cell (c ∷ []) = c
last_cell (c ∷ d ∷ cs) = last_cell (d ∷ cs)

failed_cells : List (List ℕ) → List ℕ
unfolding table_separator is_failed_cell equal_texts
failed_cells cells =
    let last = last_cell cells in
    if not (any (λ c. not (table_separator c)) cells) || not (any is_failed_cell cells)
    then []
    else if is_among (lower last) ("" ∷ "-" ∷ "—" ∷ "–" ∷ "failed" ∷ "n/a" ∷ "none" ∷ [])
    then []
    else last

-- `failedRowDetail`
unfoldable pub failed_row_detail : Line → List ℕ
unfolding failed_cells trim_space trim split has_prefix
failed_row_detail line =
    let row = trim_space line in
    if has_prefix row (codes "|")
    then failed_cells (map trim_space (split b'|' (trim (codes "|") row)))
    else []

-- `clipHandoffDetail`
unfoldable pub clip_handoff_detail : List ℕ → List ℕ
unfolding trim_space
clip_handoff_detail detail =
    if ltb handoff_detail_len (length detail)
    then trim_space (take (handoff_detail_len - 1) detail) ++ codes "…"
    else detail

is_section_heading : Line → Bool
unfolding has_prefix
is_section_heading line = has_prefix (trim_left (one_of (32 ∷ 9 ∷ [])) line) (codes "## ")

-- `lastHandoffSection`, of the lines of the prose: `section` holds the lines from the last heading on
unfoldable pub last_section : List Line → List Line → List Line
unfolding is_section_heading
last_section section [] = section
last_section section (line ∷ rest) = elim (is_section_heading line) [
  | true ↦ last_section rest rest
  | false ↦ last_section section rest
]

unfoldable pub last_handoff_section : List ℕ → List Line
unfolding last_section
last_handoff_section content = let prose = handoff_prose content in last_section prose prose

-- what the loop over the section has found
pub record Found : Type 0 where
  pub verdict : Option HandoffVerdict
  pub table_detail : List ℕ
  pub line_detail : List ℕ

abbrev or_nil : Option (List ℕ) → List ℕ
or_nil none = []
or_nil (some s) = s

abbrev unless_found : List ℕ → List ℕ → List ℕ
unless_found [] s = s
unless_found (c ∷ t) s = c ∷ t

read_details : Found → Line → Found
unfolding failed_row_detail handoff_detail_line
read_details f line = record f {
  table_detail = unless_found f.table_detail (failed_row_detail line);
  line_detail = unless_found f.line_detail (or_nil (handoff_detail_line line));
}

read_status : Found → Line → Option (List ℕ) → Found
unfolding read_details split_handoff_status
read_status f line none = read_details f line
read_status f line (some value) = record f { verdict = some (split_handoff_status value) }

-- the body of the loop of `parseHandoffVerdict`
unfoldable pub read_line : Found → Line → Found
unfolding read_status handoff_status_line
read_line f line = elim f.verdict [
  | some v ↦ read_details f line
  | none ↦ read_status f line (handoff_status_line line)
]

unfoldable pub read_lines : Found → List Line → Found
read_lines f [] = f
read_lines f (line ∷ rest) = read_lines (read_line f line) rest

abbrev pub nothing_found : Found
nothing_found = record { verdict = none; table_detail = []; line_detail = [] }

reported : List (List ℕ) → Found → Option HandoffVerdict → Option HandoffVerdict
unfolding clip_handoff_detail redact
reported secrets f none = none
reported secrets f (some v) =
    let detail = unless_found (unless_found v.detail f.table_detail) f.line_detail in
    some (record { status = v.status; detail = clip_handoff_detail (redact secrets detail) })

-- `parseHandoffVerdict`
unfoldable pub parse_handoff_verdict : List (List ℕ) → List ℕ → Option HandoffVerdict
unfolding reported read_lines last_handoff_section
parse_handoff_verdict secrets content =
    let f = read_lines nothing_found (last_handoff_section content) in reported secrets f f.verdict

-- `stageHandoff`, given whether git says that the stage changed the file, and its content
unfoldable pub stage_handoff :
    List (List ℕ) → Result Message Bool → Result Message (List ℕ) → Option HandoffVerdict
stage_handoff secrets (ok true) (ok content) = parse_handoff_verdict secrets content
stage_handoff secrets _ _ = none
