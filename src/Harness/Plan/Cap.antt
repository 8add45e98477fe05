-- ===== src/Harness/Plan/Cap.antt =====
-- The lines of the Verification section that a reader without a cap reads, and those that are left out.
use agentic_controller.Prelude.{
  not, ◌&&◌, ℕ, zero, suc, ◌≤◌, ◌<◌, ◌≡◌, refl, sym, ap, ◌∙◌, Bool, true, false, Option, none, some,
  List, [], ◌∷◌, ◌++◌, length, length-append, take, arith, leb, ltb, if_elim, if◌then◌else◌,
  Bool-cases, inl, inr,
}
use mathlib.Core.Path.{subst}
use agentic_controller.Text.Measures.{le_of_leb}
use agentic_controller.Harness.Markdown.{Line, ProseLine, handoff_prose_lines}
use agentic_controller.Harness.Plan.Lines.{
  is_verification_heading, section_heading, verification_item, item_indent,
}
use agentic_controller.Harness.Plan.{
  PlanStep, PlanVerification, PlanReader, verify_max_steps, classify_verify_item, add_item,
  read_item, read_heading, read_fence, read_prose, read_entry, read_entries, no_verification,
  initial_reader, parse_plan_verification,
}

whole_item : PlanReader → Line → Option (Line × Line) → PlanReader
whole_item r line none = r
whole_item r line (some (label, value)) =
    add_item r (item_indent line) (classify_verify_item label value)

whole_prose : PlanReader → Line → Option ℕ → PlanReader
unfolding whole_item
whole_prose r line (some level) = read_heading r line level
whole_prose r line none = if r.in_section then whole_item r line (verification_item line) else r

whole_entry : PlanReader → ProseLine → PlanReader
unfolding whole_prose
whole_entry r e =
    if e.fence then read_fence r e.content else whole_prose r e.content (section_heading e.content)

whole_entries : PlanReader → List ProseLine → PlanReader
unfolding whole_entry
whole_entries r [] = r
whole_entries r (e ∷ es) = whole_entries (whole_entry r e) es

-- all lines of the section, without a cap
pub all_steps : List ℕ → List PlanStep
unfolding whole_entries
all_steps content = (whole_entries initial_reader (handoff_prose_lines content)).parsed.steps

take_append : {A : Type 0} (n : ℕ) (xs ys : List A) → n ≤ length xs → take n (xs ++ ys) ≡ take n xs
take_append zero xs ys h = refl
take_append (suc n) [] ys h = absurd (omega (arith, h))
take_append (suc n) (x ∷ xs) ys h = ap (λ l. x ∷ l) (take_append n xs ys (omega (arith, h)))

take_all : {A : Type 0} (n : ℕ) (xs : List A) → length xs ≤ n → take n xs ≡ xs
take_all zero [] h = refl
take_all zero (x ∷ xs) h = absurd (omega (arith, h))
take_all (suc n) [] h = refl
take_all (suc n) (x ∷ xs) h = ap (λ l. x ∷ l) (take_all n xs (omega (arith, h)))

length-take : {A : Type 0} (n : ℕ) (xs : List A) → n ≤ length xs → length (take n xs) ≡ n
length-take zero xs h = refl
length-take (suc n) [] h = absurd (omega (arith, h))
length-take (suc n) (x ∷ xs) h = ap suc (length-take n xs (omega (arith, h)))

-- one line more
record Adds (r q : PlanReader) : Type 0 where
  step : PlanStep
  steps : q.parsed.steps ≡ r.parsed.steps ++ step ∷ []
  truncated : q.parsed.truncated ≡ r.parsed.truncated
  in_section : q.in_section ≡ r.in_section

add_item-Adds : (r : PlanReader) (indent : ℕ) (s : PlanStep) → Adds r (add_item r indent s)
unfolding add_item
add_item-Adds r indent s =
    if_elim (Adds r) _ (record { step = _; steps = refl; truncated = refl; in_section = refl })
      (if_elim (Adds r) _ (record { step = s; steps = refl; truncated = refl; in_section = refl })
        (record { step = s; steps = refl; truncated = refl; in_section = refl }))

-- The reader beside the one without a cap: the same, or the first lines of what that one has read.
data Cuts : PlanReader → PlanReader → Type 0 where
  same :
      (u : PlanReader)
      → u.parsed.truncated ≡ false
      → length u.parsed.steps ≤ verify_max_steps
      → Cuts u u
  first :
      {r u : PlanReader}
      → r.parsed.truncated ≡ true
      → r.parsed.steps ≡ take verify_max_steps u.parsed.steps
      → verify_max_steps < length u.parsed.steps
      → r.in_section ≡ u.in_section
      → Cuts r u

read_item-same :
    (u : PlanReader) (line : Line) (m : Option (Line × Line))
    → u.parsed.truncated ≡ false
    → length u.parsed.steps ≤ verify_max_steps
    → Cuts (read_item u line m) (whole_item u line m)
unfolding read_item whole_item
read_item-same u line none t l = same u t l
read_item-same u line (some (label, value)) t l =
    let a = add_item-Adds u (item_indent line) (classify_verify_item label value) in
    let longer = ap length a.steps ∙ length-append u.parsed.steps (a.step ∷ []) in
    elim (Bool-cases (leb verify_max_steps (length u.parsed.steps))) [
      | inl e ↦
          let full = le_of_leb verify_max_steps (length u.parsed.steps) e in
          rw e (
            first refl
              (sym (
                ap (take verify_max_steps) a.steps
                ∙ take_append verify_max_steps u.parsed.steps (a.step ∷ []) full
                ∙ take_all verify_max_steps u.parsed.steps l))
              (omega (arith, longer, full)) (sym a.in_section))
      | inr e ↦ rw e (
          same (add_item u (item_indent line) (classify_verify_item label value)) (a.truncated ∙ t)
            (ground (arith, longer, e)))
    ]

read_item-first :
    (r u : PlanReader) (line : Line) (m : Option (Line × Line))
    → r.parsed.truncated ≡ true
    → r.parsed.steps ≡ take verify_max_steps u.parsed.steps
    → verify_max_steps < length u.parsed.steps
    → r.in_section ≡ u.in_section
    → Cuts (read_item r line m) (whole_item u line m)
unfolding read_item whole_item
read_item-first r u line none t s l i = first t s l i
read_item-first r u line (some (label, value)) t s l i =
    let a = add_item-Adds u (item_indent line) (classify_verify_item label value) in
    let longer = ap length a.steps ∙ length-append u.parsed.steps (a.step ∷ []) in
    let twelve = ap length s ∙ length-take verify_max_steps u.parsed.steps (omega (arith, l)) in
    let full : leb verify_max_steps (length r.parsed.steps) ≡ true = rw twelve refl in
    rw full (
      first refl
        (s
          ∙ sym (
              ap (take verify_max_steps) a.steps
              ∙ take_append verify_max_steps u.parsed.steps (a.step ∷ []) (omega (arith, l))))
        (omega (arith, longer, l)) (i ∙ sym a.in_section))

-- where the section begins
abbrev section_start : PlanReader
section_start = record { parsed = no_verification true; in_section = true; prose = none }

read_heading-Cuts :
    (r u : PlanReader) (line : Line) (level : ℕ)
    → Cuts r u
    → Cuts (read_heading r line level) (read_heading u line level)
unfolding read_heading
read_heading-Cuts _ _ line level (same u t l) =
    if_elim (λ q. Cuts q q) (is_verification_heading line) (same section_start refl (omega arith))
      (same (record u { in_section = u.in_section && not (leb level 2); prose = none }) t l)
read_heading-Cuts r u line level (first t s l i) =
    elim (Bool-cases (is_verification_heading line)) [
      | inl e ↦ rw e (same section_start refl (omega arith))
      | inr e ↦ rw e (first t s l (rw i refl))
    ]

-- a line of prose, in the section or not
prose-same :
    (u : PlanReader) (line : Line) (inside : Bool)
    → u.parsed.truncated ≡ false
    → length u.parsed.steps ≤ verify_max_steps
    → Cuts
        (if inside then read_item u line (verification_item line) else u)
        (if inside then whole_item u line (verification_item line) else u)
prose-same u line true t l = read_item-same u line (verification_item line) t l
prose-same u line false t l = same u t l

prose-first :
    (r u : PlanReader) (line : Line) (inside : Bool)
    → r.parsed.truncated ≡ true
    → r.parsed.steps ≡ take verify_max_steps u.parsed.steps
    → verify_max_steps < length u.parsed.steps
    → r.in_section ≡ u.in_section
    → Cuts
        (if inside then read_item r line (verification_item line) else r)
        (if inside then whole_item u line (verification_item line) else u)
prose-first r u line true t s l i = read_item-first r u line (verification_item line) t s l i
prose-first r u line false t s l i = first t s l i

read_prose-Cuts :
    (r u : PlanReader) (line : Line) (m : Option ℕ)
    → Cuts r u
    → Cuts (read_prose r line m) (whole_prose u line m)
unfolding read_prose whole_prose
read_prose-Cuts r u line (some level) h = read_heading-Cuts r u line level h
read_prose-Cuts _ _ line none (same u t l) = prose-same u line u.in_section t l
read_prose-Cuts r u line none (first t s l i) =
    subst
      (λ inside.
        Cuts (if inside then read_item r line (verification_item line) else r)
          (if u.in_section then whole_item u line (verification_item line) else u))
      (sym i) (prose-first r u line u.in_section t s l i)

-- a fence leaves the lines as they are
record SameLines (r q : PlanReader) : Type 0 where
  truncated : q.parsed.truncated ≡ r.parsed.truncated
  steps : q.parsed.steps ≡ r.parsed.steps
  in_section : q.in_section ≡ r.in_section

read_fence-SameLines : (r : PlanReader) (line : Line) → SameLines r (read_fence r line)
unfolding read_fence
read_fence-SameLines r line =
    if_elim (SameLines r) _ (record { truncated = refl; steps = refl; in_section = refl })
      (record { truncated = refl; steps = refl; in_section = refl })

read_fence-Cuts :
    (r u : PlanReader) (line : Line) → Cuts r u → Cuts (read_fence r line) (read_fence u line)
read_fence-Cuts _ _ line (same u t l) =
    let k = read_fence-SameLines u line in same (read_fence u line) (k.truncated ∙ t) (rw k.steps l)
read_fence-Cuts r u line (first t s l i) =
    let j = read_fence-SameLines r line in
    let k = read_fence-SameLines u line in
    first (j.truncated ∙ t) (j.steps ∙ s ∙ ap (take verify_max_steps) (sym k.steps)) (rw k.steps l)
      (j.in_section ∙ i ∙ sym k.in_section)

read_entry-Cuts :
    (r u : PlanReader) (e : ProseLine) → Cuts r u → Cuts (read_entry r e) (whole_entry u e)
unfolding read_entry whole_entry
read_entry-Cuts r u e h = elim (Bool-cases e.fence) [
  | inl b ↦ rw b (read_fence-Cuts r u e.content h)
  | inr b ↦ rw b (read_prose-Cuts r u e.content (section_heading e.content) h)
]

read_entries-Cuts :
    (r u : PlanReader) (es : List ProseLine)
    → Cuts r u
    → Cuts (read_entries r es) (whole_entries u es)
unfolding read_entries whole_entries
read_entries-Cuts r u [] h = h
read_entries-Cuts r u (e ∷ es) h =
    read_entries-Cuts (read_entry r e) (whole_entry u e) es (read_entry-Cuts r u e h)

-- The lines that are read are the first of all, and the section is reported as truncated exactly where
-- there are more.
pub record IsCut (all : List PlanStep) (v : PlanVerification) : Type 0 where
  pub steps : v.steps ≡ take verify_max_steps all
  pub truncated : v.truncated ≡ ltb verify_max_steps (length all)

Cuts-IsCut : (r u : PlanReader) → Cuts r u → IsCut u.parsed.steps r.parsed
Cuts-IsCut _ _ (same u t l) = record {
  steps = sym (take_all verify_max_steps u.parsed.steps l);
  truncated = ground (arith, t, l);
}
Cuts-IsCut r u (first t s l i) = record { steps = s; truncated = ground (arith, t, l) }

pub parse_plan_verification-IsCut :
    (content : List ℕ) → IsCut (all_steps content) (parse_plan_verification content)
unfolding parse_plan_verification all_steps
parse_plan_verification-IsCut content =
    Cuts-IsCut (read_entries initial_reader (handoff_prose_lines content))
      (whole_entries initial_reader (handoff_prose_lines content))
      (read_entries-Cuts initial_reader initial_reader (handoff_prose_lines content)
        (same initial_reader refl (omega arith)))
