-- ===== src/Params/Substitution.antt =====
-- `substitute` of internal/controller/params.go: references to parameters in a text are replaced by
-- their values, in one pass from left to right.
pub mod Rendered
use agentic_controller.Prelude.{
  ℕ, zero, suc, ◌+◌, ◌-◌, String, Bool, true, false, not, ◌&&◌, ◌||◌, Option, none, some, List, [],
  ◌∷◌, ◌++◌, Result, ok, err, eqb, leb, ltb, length, if◌then◌else◌,
}
use agentic_controller.Text.Split.{is_nil}
use agentic_controller.Text.{codes, equal_texts, has_prefix}

pub data Scope : Type 0 where
  agent_scope workflow_scope : Scope

-- The variables of each scope; a caller may give one scope alone.
pub record Scopes : Type 0 where
  pub agent : Option (List (String × List ℕ))
  pub workflow : Option (List (String × List ℕ))

-- a match of `substitutionRef`: the scope, the name, and the text of the match
pub record Reference : Type 0 where
  pub scope : Scope
  pub name : List ℕ
  pub source : List ℕ

abbrev is_name_start : ℕ → Bool
is_name_start c = leb 65 c && leb c 90 || leb 97 c && leb c 122 || eqb c 95

abbrev is_name_char : ℕ → Bool
is_name_char c = is_name_start c || leb 48 c && leb c 57

abbrev longer : ℕ → Option (List ℕ) → Option (List ℕ)
longer c none = none
longer c (some name) = some (c ∷ name)

-- the name before a closing parenthesis
name_rest : List ℕ → Option (List ℕ)
name_rest [] = none
name_rest (c ∷ s) =
    let rest = name_rest s in
    if eqb c b')' then some [] else if is_name_char c then longer c rest else none

name_of : List ℕ → Option (List ℕ)
unfolding name_rest
name_of [] = none
name_of (c ∷ s) = if is_name_start c then name_rest (c ∷ s) else none

abbrev after : List ℕ → List ℕ → List ℕ
after [] s = s
after (b ∷ t) [] = []
after (b ∷ t) (a ∷ s) = after t s

abbrev opening : Scope → List ℕ
opening agent_scope = codes "$(agent."
opening workflow_scope = codes "$(workflow."

reference_in : Scope → Option (List ℕ) → Option Reference
reference_in scope none = none
reference_in scope (some name) =
    some (record { scope = scope; name = name; source = opening scope ++ name ++ codes ")" })

-- a match of `substitutionRef` at the start of the text
unfoldable pub reference_at : List ℕ → Option Reference
unfolding name_of reference_in has_prefix
reference_at s =
    if has_prefix s (opening agent_scope)
    then reference_in agent_scope (name_of (after (opening agent_scope) s))
    else if has_prefix s (opening workflow_scope)
    then reference_in workflow_scope (name_of (after (opening workflow_scope) s))
    else none

variables : Scopes → Scope → Option (List (String × List ℕ))
variables scopes agent_scope = scopes.agent
variables scopes workflow_scope = scopes.workflow

unfoldable pub find_variable : List ℕ → List (String × List ℕ) → Option (List ℕ)
unfolding equal_texts
find_variable name [] = none
find_variable name ((key, value) ∷ rest) =
    let later = find_variable name rest in
    if equal_texts (codes key) name then some value else later

-- the value of a reference, `none` where no scope provides it
unfoldable pub resolve : Scopes → Reference → Option (List ℕ)
unfolding variables find_variable
resolve scopes r = elim (variables scopes r.scope) [
  | none ↦ none
  | some vars ↦ find_variable r.name vars
]

-- the text as the pass writes it, and the references that it could not resolve
pub record Rendering : Type 0 where
  pub rendered : List ℕ
  pub unresolved : List (List ℕ)

replace : Reference → Option (List ℕ) → Rendering → Rendering
replace r (some value) rest = record {
  rendered = value ++ rest.rendered;
  unresolved = rest.unresolved;
}
replace r none rest = record {
  rendered = r.source ++ rest.rendered;
  unresolved = r.source ∷ rest.unresolved;
}

-- `ReplaceAllStringFunc`: `n` characters of a match are still to be passed over
unfoldable pub replace_from : Scopes → ℕ → List ℕ → Rendering
unfolding replace reference_at resolve
replace_from scopes n [] = record { rendered = []; unresolved = [] }
replace_from scopes (suc n) (c ∷ s) = replace_from scopes n s
replace_from scopes zero (c ∷ s) = elim (reference_at (c ∷ s)) [
  | none ↦
      let rest = replace_from scopes zero s in
      record { rendered = c ∷ rest.rendered; unresolved = rest.unresolved }
  | some r ↦ replace r (resolve scopes r) (replace_from scopes (length r.source - 1) s)
]

-- the order of the texts, by their code points
less_text : List ℕ → List ℕ → Bool
less_text s [] = false
less_text [] (b ∷ t) = true
less_text (a ∷ s) (b ∷ t) = ltb a b || eqb a b && less_text s t

insert_text : List ℕ → List (List ℕ) → List (List ℕ)
unfolding less_text equal_texts
insert_text s [] = s ∷ []
insert_text s (t ∷ rest) =
    let later = insert_text s rest in
    if less_text s t then s ∷ t ∷ rest else if equal_texts s t then t ∷ rest else t ∷ later

-- `slices.Sort` and `slices.Compact`
unfoldable pub sorted_texts : List (List ℕ) → List (List ℕ)
unfolding insert_text
sorted_texts [] = []
sorted_texts (s ∷ rest) = insert_text s (sorted_texts rest)

has_opening : List ℕ → Bool
has_opening [] = false
has_opening (c ∷ s) = has_prefix (c ∷ s) (codes "$(") || has_opening s

outcome_of : Rendering → Result (List (List ℕ)) (List ℕ)
unfolding sorted_texts
outcome_of r = if is_nil r.unresolved then ok r.rendered else err (sorted_texts r.unresolved)

-- `substitute`; the error stands as the references that its message names
unfoldable pub substitute : Scopes → List ℕ → Result (List (List ℕ)) (List ℕ)
unfolding outcome_of replace_from has_opening has_prefix
substitute scopes s = if has_opening s then outcome_of (replace_from scopes 0 s) else ok s
