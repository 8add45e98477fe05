-- ===== src/Params/Substitution/Rendered.antt =====
-- What a substitution that succeeds has done to the text.
use agentic_controller.Prelude.{
  ℕ, zero, suc, ◌-◌, ◌≤◌, ◌<◌, ◌≢◌, ◌≡◌, refl, sym, ap, ◌∙◌, true, false, Option, none, some, List,
  [], ◌∷◌, ◌++◌, ok, ok_inj, eqb, length, length-append, arith, if_cases, if_elim, Bool-cases,
  Option-cases, inl, inr,
}
use agentic_controller.Text.{codes, has_prefix}
use agentic_controller.Params.Substitution.{
  is_name_char, is_name_start, longer, Scope, agent_scope, workflow_scope, Scopes, Reference,
  name_rest, name_of, after, opening, reference_in, reference_at, resolve, Rendering, replace,
  replace_from, has_opening, outcome_of, substitute,
}
use mathlib.Core.List.{append_assoc, nil≢cons}
use mathlib.Core.Bool.{true≢false}
use mathlib.Core.Path.{subst}

-- `out` is `s` with the value of each reference in its place, read from left to right, and with
-- everything else as it was.
pub data Renders (scopes : Scopes) : List ℕ → List ℕ → Type 0 where
  ends : Renders scopes [] []
  keeps :
      {c : ℕ} {s out : List ℕ}
      → reference_at (c ∷ s) ≡ none
      → Renders scopes s out
      → Renders scopes (c ∷ s) (c ∷ out)
  replaces :
      {r : Reference} {value s out : List ℕ}
      → reference_at (r.source ++ s) ≡ some r
      → resolve scopes r ≡ some value
      → Renders scopes s out
      → Renders scopes (r.source ++ s) (value ++ out)

has_prefix-after : (s t : List ℕ) → has_prefix s t ≡ true → s ≡ t ++ after t s
unfolding has_prefix
has_prefix-after s [] h = refl
has_prefix-after [] (b ∷ t) h = cc
has_prefix-after (a ∷ s) (b ∷ t) h = ground (arith, has_prefix-after s t)

-- A name is read up to its parenthesis.
record Closes (s name : List ℕ) : Type 0 where
  rest : List ℕ
  splits : s ≡ name ++ b')' ∷ rest

abbrev Names : List ℕ → Option (List ℕ) → Type 0
Names s none = Unit
Names s (some name) = Closes s name

longer-Names : (c : ℕ) (s : List ℕ) (o : Option (List ℕ)) → Names s o → Names (c ∷ s) (longer c o)
longer-Names c s none h = tt
longer-Names c s (some name) h = record { rest = h.rest; splits = ap (◌∷◌ c) h.splits }

closing_here : (c : ℕ) (s : List ℕ) → eqb c b')' ≡ true → Closes (c ∷ s) []
closing_here c s e =
    let same : c ≡ b')' = ground arith in record { rest = s; splits = ap (λ d. d ∷ s) same }

name_rest-Names : (s : List ℕ) → Names s (name_rest s)
unfolding name_rest
name_rest-Names [] = tt
name_rest-Names (c ∷ s) = if_cases (Names (c ∷ s)) (eqb c b')') (closing_here c s) λ _.
    if_elim (Names (c ∷ s)) (is_name_char c) (longer-Names c s (name_rest s) (name_rest-Names s)) tt

name_of-Names : (s : List ℕ) → Names s (name_of s)
unfolding name_of
name_of-Names [] = tt
name_of-Names (c ∷ s) = if_elim (Names (c ∷ s)) (is_name_start c) (name_rest-Names (c ∷ s)) tt

-- The text goes on with the reference.
record Continues (s : List ℕ) (r : Reference) : Type 0 where
  rest : List ℕ
  splits : s ≡ r.source ++ rest
  others : List ℕ
  begins : r.source ≡ b'$' ∷ b'(' ∷ others

abbrev Refers : List ℕ → Option Reference → Type 0
Refers s none = Unit
Refers s (some r) = Continues s r

reference_in-Refers :
    (scope : Scope) (s : List ℕ) (o : Option (List ℕ))
    → Names s o
    → Refers (opening scope ++ s) (reference_in scope o)
unfolding reference_in
reference_in-Refers scope s none h = tt
reference_in-Refers agent_scope s (some name) h = record {
  rest = h.rest;
  splits =
      ap (λ t. opening agent_scope ++ t) (h.splits ∙ sym (append_assoc name (codes ")") h.rest));
  others = _;
  begins = refl;
}
reference_in-Refers workflow_scope s (some name) h = record {
  rest = h.rest;
  splits =
      ap (λ t. opening workflow_scope ++ t) (h.splits ∙ sym (append_assoc name (codes ")") h.rest));
  others = _;
  begins = refl;
}

behind_opening :
    (scope : Scope) (s : List ℕ)
    → has_prefix s (opening scope) ≡ true
    → Refers s (reference_in scope (name_of (after (opening scope) s)))
behind_opening scope s e =
    let t = after (opening scope) s in
    subst (λ u. Refers u (reference_in scope (name_of t)))
      (sym (has_prefix-after s (opening scope) e))
      (reference_in-Refers scope t (name_of t) (name_of-Names t))

reference_at-Refers : (s : List ℕ) → Refers s (reference_at s)
unfolding reference_at
reference_at-Refers s =
    if_cases (Refers s) (has_prefix s (opening agent_scope)) (behind_opening agent_scope s) λ _.
      if_cases (Refers s) (has_prefix s (opening workflow_scope)) (behind_opening workflow_scope s)
        λ _. tt

reference_at-Continues : (s : List ℕ) (r : Reference) → reference_at s ≡ some r → Continues s r
reference_at-Continues s r h = subst (Refers s) h (reference_at-Refers s)

-- what is left of a match is passed over
replace_from-skip :
    (scopes : Scopes) (xs s : List ℕ)
    → replace_from scopes (length xs) (xs ++ s) ≡ replace_from scopes 0 s
unfolding replace_from
replace_from-skip scopes [] s = refl
replace_from-skip scopes (x ∷ xs) s = replace_from-skip scopes xs s

-- one match: its value, or its own text, and what the pass makes of the rest
replace_from_match :
    (scopes : Scopes) (r : Reference) (c : ℕ) (others rest : List ℕ)
    → r.source ≡ c ∷ others
    → reference_at (c ∷ (others ++ rest)) ≡ some r
    → replace_from scopes 0 (c ∷ (others ++ rest))
      ≡ replace r (resolve scopes r) (replace_from scopes 0 rest)
unfolding replace_from
replace_from_match scopes r c others rest e h =
    let left : length r.source - 1 ≡ length others = ground arith in
    rw (h, replace_from)
      (ap (replace r (resolve scopes r)) (
        ap (λ n. replace_from scopes n (others ++ rest)) left
        ∙ replace_from-skip scopes others rest))

replace_from_reference :
    (scopes : Scopes) (r : Reference) (c : ℕ) (others rest : List ℕ)
    → r.source ≡ c ∷ others
    → reference_at (r.source ++ rest) ≡ some r
    → replace_from scopes 0 (r.source ++ rest)
      ≡ replace r (resolve scopes r) (replace_from scopes 0 rest)
replace_from_reference scopes r c others rest e h =
    ap (λ t. replace_from scopes 0 (t ++ rest)) e
    ∙ replace_from_match scopes r c others rest e
        (subst (λ t. reference_at (t ++ rest) ≡ some r) e h)

abbrev Done : Scopes → List ℕ → Rendering → Type 0
Done scopes s r = r.unresolved ≡ [] → Renders scopes s r.rendered

replace-Done :
    (scopes : Scopes) (r : Reference) (rest : List ℕ) (o : Option (List ℕ)) (done : Rendering)
    → reference_at (r.source ++ rest) ≡ some r
    → resolve scopes r ≡ o
    → Done scopes rest done
    → Done scopes (r.source ++ rest) (replace r o done)
unfolding replace
replace-Done scopes r rest none done h e k = λ u. absurd (nil≢cons (sym u))
replace-Done scopes r rest (some v) done h e k = λ u. replaces h e (k u)

keep-Done :
    (scopes : Scopes) (c : ℕ) (s : List ℕ)
    → reference_at (c ∷ s) ≡ none
    → Done scopes s (replace_from scopes 0 s)
    → Done scopes (c ∷ s) (replace_from scopes 0 (c ∷ s))
unfolding replace_from
keep-Done scopes c s h k = rw (h, replace_from) (λ u. keeps h (k u))

reference-Done :
    (scopes : Scopes) (s : List ℕ) (r : Reference) (found : Continues s r)
    → reference_at s ≡ some r
    → Done scopes found.rest (replace_from scopes 0 found.rest)
    → Done scopes s (replace_from scopes 0 s)
reference-Done scopes s r found e h =
    let there = subst (λ t. reference_at t ≡ some r) found.splits e in
    let matched =
      replace_from_reference scopes r b'$' (b'(' ∷ found.others) found.rest found.begins there in
    subst (λ t. Done scopes t (replace_from scopes 0 t)) (sym found.splits)
      (subst (Done scopes (r.source ++ found.rest)) (sym matched)
        (replace-Done scopes r found.rest (resolve scopes r) _ there refl h))

length-Continues :
    (s : List ℕ) (r : Reference) (found : Continues s r) → length found.rest < length s
length-Continues s r found =
    omega (arith, ap length found.splits, length-append r.source found.rest, ap length found.begins)

replace_from-Done :
    (scopes : Scopes) (fuel : ℕ) (s : List ℕ)
    → length s ≤ fuel
    → Done scopes s (replace_from scopes 0 s)
replace_from-Done scopes fuel [] h = unfold replace_from in λ u. ends
replace_from-Done scopes zero (c ∷ s) h = absurd (omega arith)
replace_from-Done scopes (suc fuel) (c ∷ s) h = elim (Option-cases (reference_at (c ∷ s))) [
  | inl e ↦ keep-Done scopes c s e (replace_from-Done scopes fuel s (omega arith))
  | inr (r, e) ↦
      let found = reference_at-Continues (c ∷ s) r e in
      let shorter = length-Continues (c ∷ s) r found in
      reference-Done scopes (c ∷ s) r found e
        (replace_from-Done scopes fuel found.rest (omega arith))
]

-- without an opening there is no reference
no_opening : (s others : List ℕ) → s ≡ b'$' ∷ b'(' ∷ others → has_prefix s (codes "$(") ≢ false
unfolding has_prefix
no_opening s others e h = true≢false (sym (ap (λ t. has_prefix t (codes "$(")) e) ∙ h)

reference_at-none : (s : List ℕ) → has_prefix s (codes "$(") ≡ false → reference_at s ≡ none
reference_at-none s h = elim (Option-cases (reference_at s)) [
  | inl e ↦ e
  | inr (r, e) ↦
      let found = reference_at-Continues s r e in
      absurd (
        no_opening s (found.others ++ found.rest)
          (found.splits ∙ ap (λ t. t ++ found.rest) found.begins) h)
]

plain-Renders : (scopes : Scopes) (s : List ℕ) → has_opening s ≡ false → Renders scopes s s
unfolding has_opening
plain-Renders scopes [] h = ends
plain-Renders scopes (c ∷ s) h =
    let here : has_prefix (c ∷ s) (codes "$(") ≡ false = ground arith in
    let later : has_opening s ≡ false = ground arith in
    keeps (reference_at-none (c ∷ s) here) (plain-Renders scopes s later)

outcome_of-ok :
    (r : Rendering) (out : List ℕ)
    → outcome_of r ≡ ok out
    → (r.unresolved ≡ []) × (r.rendered ≡ out)
unfolding outcome_of
outcome_of-ok r out h = ground arith

-- A substitution that succeeds has replaced every reference to a parameter by its value, has resolved
-- all of them, and has left the rest of the text as it was.
pub substitute-Renders :
    (scopes : Scopes) (s out : List ℕ) → substitute scopes s ≡ ok out → Renders scopes s out
unfolding substitute
substitute-Renders scopes s out h = elim (Bool-cases (has_opening s)) [
  | inl e ↦
      let (none_left, written) = outcome_of-ok (replace_from scopes 0 s) out (rw e at h) in
      subst (Renders scopes s) written
        (replace_from-Done scopes (length s) s (omega arith) none_left)
  | inr e ↦
      let same : s ≡ out = ok_inj (rw e at h) in
      subst (Renders scopes s) same (plain-Renders scopes s e)
]
