-- ===== src/Harness/Plan/Lines.antt =====
-- harness/cmd/migration-harness/verify.go: the patterns of the lines of the plan's Verification
-- section, regular expressions written out as the matching that they stand for.
use agentic_controller.Prelude.{
  ℕ, ◌+◌, Bool, true, false, not, ◌&&◌, ◌||◌, Option, none, some, [], ◌∷◌, eqb, leb, if◌then◌else◌,
}
use agentic_controller.Text.Split.{is_nil, one_of, after_word}
use agentic_controller.Text.{codes}
use agentic_controller.Harness.Markdown.{
  Line, is_re_space, skip_space, skip_stars, run_of, after_indent,
}

-- `sectionHeading`: the level of a heading
heading_level : ℕ × Line → Option ℕ
heading_level (n, []) = none
heading_level (n, c ∷ s) =
    if leb 1 n && leb n 6 && is_re_space c && not (is_nil (skip_space s)) then some n else none

heading_at : Option Line → Option ℕ
unfolding heading_level
heading_at none = none
heading_at (some s) = heading_level (run_of b'#' s)

unfoldable pub section_heading : Line → Option ℕ
unfolding heading_at
section_heading line = heading_at (after_indent line)

-- `\s*:?\s*$`
ends_heading : Line → Bool
ends_heading [] = true
ends_heading (c ∷ s) = eqb c b':' && is_nil (skip_space s)

names_verification : ℕ × Line → Bool
unfolding ends_heading
names_verification (n, []) = false
names_verification (n, c ∷ s) =
    leb 2 n && is_re_space c && (elim (after_word "verification" (skip_stars (skip_space s))) [
      | none ↦ false
      | some rest ↦ ends_heading (skip_space (skip_stars rest))
    ])

-- `verificationHeading`
unfoldable pub is_verification_heading : Line → Bool
unfolding names_verification
is_verification_heading line = elim (after_indent line) [
  | none ↦ false
  | some s ↦ names_verification (run_of b'#' s)
]

abbrev pub is_letter : ℕ → Bool
is_letter c = leb 65 c && leb c 90 || leb 97 c && leb c 122

abbrev is_label_char : ℕ → Bool
is_label_char c = is_letter c || leb 48 c && leb c 57 || one_of (codes " _/-") c

-- `\s*(.*)` after a colon
value_of : Line → Option Line
value_of [] = none
value_of (c ∷ s) = if eqb c b':' then some (skip_space s) else none

-- the value, where the label ends here: `\s*\**\s*:\s*(.*)$`
value_at : Line → Option Line
unfolding value_of
value_at s = value_of (skip_space (skip_stars (skip_space s)))

abbrev prepend : ℕ → Option (Line × Line) → Option (Line × Line)
prepend c none = none
prepend c (some (label, value)) = some (c ∷ label, value)

-- the shortest label, of which a character was read before
item_label : Line → Option (Line × Line)
unfolding value_at
item_label [] = none
item_label (c ∷ s) =
    let rest = item_label s in
    elim (value_at (c ∷ s)) [
      | some value ↦ some ([], value)
      | none ↦ if is_label_char c then prepend c rest else none
    ]

item_text : Line → Option (Line × Line)
unfolding item_label
item_text [] = none
item_text (c ∷ s) = if is_letter c then prepend c (item_label s) else none

after_bullet : Line → Option (Line × Line)
unfolding item_text
after_bullet [] = none
after_bullet (c ∷ s) =
    if one_of (codes "-*") c then item_text (skip_space (skip_stars (skip_space s))) else none

-- `verificationItem`: the label and the value of an item
unfoldable pub verification_item : Line → Option (Line × Line)
unfolding after_bullet
verification_item line = after_bullet (skip_space line)

-- `itemIndent`
unfoldable pub item_indent : Line → ℕ
item_indent [] = 0
item_indent (c ∷ s) =
    let rest = item_indent s in if eqb c 32 then rest + 1 else if eqb c 9 then rest + 4 else 0
