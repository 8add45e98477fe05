-- ===== src/Harness/Handoff/Read.antt =====
-- What the verdict that is read from a handoff depends on, and how long its detail may be.
use agentic_controller.Prelude.{
  ℕ, ◌≤◌, ◌≡◌, refl, ap, ◌∙◌, Option, none, some, List, [], ◌∷◌, ◌++◌, length, length-append, take,
  sym, arith, ltb, if_cases, Option-cases, inl, inr,
}
use agentic_controller.Text.Measures.{le_of_not_ltb, length-take-le, length-trim_space}
use agentic_controller.Text.{codes, trim_space}
use agentic_controller.Harness.Markdown.{Line, or_else, handoff_prose}
use agentic_controller.Harness.Markdown.Fences.{Fenced, handoff_prose_lines-Fenced}
use agentic_controller.Harness.Redaction.{redact}
use agentic_controller.Harness.Plan.{parse_plan_verification}
use agentic_controller.Harness.Handoff.{
  HandoffVerdict, handoff_detail_len, handoff_status_line, split_handoff_status,
  last_handoff_section, clip_handoff_detail, Found, read_status, read_details, read_line,
  read_lines, nothing_found, reported, parse_handoff_verdict,
}

-- the value of the first Status line
abbrev pub first_status : List Line → Option (List ℕ)
first_status [] = none
first_status (line ∷ rest) = or_else (handoff_status_line line) (first_status rest)

abbrev pub status_of : Option HandoffVerdict → Option (List ℕ)
status_of none = none
status_of (some v) = some v.status

abbrev pub status_word : Option (List ℕ) → Option (List ℕ)
status_word none = none
status_word (some value) = some (split_handoff_status value).status

read_line_decided :
    (f : Found) (v : HandoffVerdict) (line : Line)
    → f.verdict ≡ some v
    → (read_line f line).verdict ≡ some v
unfolding read_line read_details
read_line_decided f v line e = rw (e, read_line) e

read_line_undecided :
    (f : Found) (line : Line)
    → f.verdict ≡ none
    → read_line f line ≡ read_status f line (handoff_status_line line)
unfolding read_line
read_line_undecided f line e = simp (e, read_line) refl

read_lines-decided :
    (f : Found) (v : HandoffVerdict) (lines : List Line)
    → f.verdict ≡ some v
    → (read_lines f lines).verdict ≡ some v
unfolding read_lines
read_lines-decided f v [] e = e
read_lines-decided f v (line ∷ rest) e =
    read_lines-decided (read_line f line) v rest (read_line_decided f v line e)

read_lines-status :
    (f : Found) (lines : List Line)
    → f.verdict ≡ none
    → status_of (read_lines f lines).verdict ≡ status_word (first_status lines)
unfolding read_lines read_status read_details
read_lines-status f [] e = rw e refl
read_lines-status f (line ∷ rest) e = elim (Option-cases (handoff_status_line line)) [
  | inl n ↦
      rw (read_line_undecided f line e, n, read_lines)
        (read_lines-status (read_status f line none) rest e)
  | inr (value, s) ↦
      rw (read_line_undecided f line e, s, read_lines)
        (ap status_of (read_lines-decided (read_status f line (some value)) _ rest refl))
]

status-reported :
    (secrets : List (List ℕ)) (f : Found) (v : Option HandoffVerdict)
    → status_of (reported secrets f v) ≡ status_of v
unfolding reported
status-reported secrets f none = refl
status-reported secrets f (some v) = refl

-- The status of a handoff is the first word of the first Status line of its last section, and there
-- is a verdict exactly where there is such a line.
pub status-parse_handoff_verdict :
    (secrets : List (List ℕ)) (content : List ℕ)
    → status_of (parse_handoff_verdict secrets content)
      ≡ status_word (first_status (last_handoff_section content))
unfolding parse_handoff_verdict
status-parse_handoff_verdict secrets content =
    let f = read_lines nothing_found (last_handoff_section content) in
    status-reported secrets f f.verdict
    ∙ read_lines-status nothing_found (last_handoff_section content) refl

abbrev pub detail_length : Option HandoffVerdict → ℕ
detail_length none = 0
detail_length (some v) = length v.detail

clip_handoff_detail-le : (s : List ℕ) → length (clip_handoff_detail s) ≤ handoff_detail_len
unfolding clip_handoff_detail
clip_handoff_detail-le s =
    let cut = take 299 s in
    let short : length (trim_space cut ++ codes "…") ≤ handoff_detail_len = omega (
      arith,
      length-append (trim_space cut) (codes "…"),
      length-trim_space cut,
      length-take-le 299 s,
    ) in
    if_cases {A = List ℕ} (λ d. length d ≤ handoff_detail_len) (ltb handoff_detail_len (length s))
      (λ _. short) λ e. le_of_not_ltb handoff_detail_len (length s) e

-- The detail of a handoff's verdict has at most 300 characters, whatever the file holds.
pub parse_handoff_verdict-le :
    (secrets : List (List ℕ)) (content : List ℕ)
    → detail_length (parse_handoff_verdict secrets content) ≤ handoff_detail_len
unfolding parse_handoff_verdict reported
parse_handoff_verdict-le secrets content =
    let f = read_lines nothing_found (last_handoff_section content) in
    elim (Option-cases f.verdict) [
      | inl e ↦ rw (e, reported) (omega arith)
      | inr (v, e) ↦ rw (e, reported) (clip_handoff_detail-le (redact secrets _))
    ]

-- Two documents that differ only in what stands inside one fenced block are read alike, as a plan and
-- as a handoff.
pub parse_handoff_verdict-Fenced :
    {before : List Line} {opening : Line} {body other : List Line} {closing : Line}
    {rest : List Line} (secrets : List (List ℕ)) (c d : List ℕ)
    → Fenced c before opening body closing rest
    → Fenced d before opening other closing rest
    → (parse_plan_verification c ≡ parse_plan_verification d)
      × (parse_handoff_verdict secrets c ≡ parse_handoff_verdict secrets d)
unfolding parse_plan_verification parse_handoff_verdict last_handoff_section handoff_prose
parse_handoff_verdict-Fenced secrets c d f g =
    let same = handoff_prose_lines-Fenced c f ∙ sym (handoff_prose_lines-Fenced d g) in
    (
      rw (same, parse_plan_verification) refl,
      rw (same, parse_handoff_verdict, last_handoff_section, handoff_prose) refl,
    )
