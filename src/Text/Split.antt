-- ===== src/Text/Split.antt =====
-- Go's `strings.Fields`, `strings.Split`, `strings.Trim` and their like, over lists of code points.
use agentic_controller.Prelude.{
  ℕ, Bool, true, false, ◌&&◌, List, [], ◌∷◌, ◌++◌, ◌+◌, eqb, String, Option, none, some, map, leb,
  any, if◌then◌else◌,
}
use agentic_controller.Text.{codes, equal_texts, is_space, trim_left, trim_right, has_prefix}
use mathlib.Core.List.{reverse}

abbrev pub is_nil {ℓ} : {A : Type ℓ} → List A → Bool
is_nil [] = true
is_nil (x ∷ xs) = false

abbrev pub one_of : List ℕ → ℕ → Bool
one_of set c = any (eqb c) set

-- `strings.Trim`
unfoldable pub trim : List ℕ → List ℕ → List ℕ
unfolding trim_right
trim cutset s = trim_right (one_of cutset) (trim_left (one_of cutset) s)

unfoldable pub has_suffix : List ℕ → List ℕ → Bool
unfolding has_prefix
has_suffix s t = has_prefix (reverse s) (reverse t)

abbrev drop_common : List ℕ → List ℕ → List ℕ
drop_common s [] = s
drop_common [] (b ∷ t) = []
drop_common (a ∷ s) (b ∷ t) = drop_common s t

unfoldable pub trim_prefix : List ℕ → List ℕ → List ℕ
unfolding has_prefix
trim_prefix s t = if has_prefix s t then drop_common s t else s

-- the piece that a text begins with, and the pieces after it
abbrev Pieces : Type 0
Pieces = List ℕ × List (List ℕ)

abbrev add_word : Pieces → List (List ℕ)
add_word ([], ws) = ws
add_word (c ∷ w, ws) = (c ∷ w) ∷ ws

abbrev fields_from : List ℕ → Pieces
fields_from [] = ([], [])
fields_from (c ∷ s) =
    let rest = fields_from s in if is_space c then ([], add_word rest) else (c ∷ rest.0, rest.1)

-- `strings.Fields`
unfoldable pub fields : List ℕ → List (List ℕ)
unfolding is_space
fields s = add_word (fields_from s)

abbrev pub first_word : List (List ℕ) → List ℕ
first_word [] = []
first_word (w ∷ ws) = w

-- `strings.Split` at one code point
abbrev pub split_from : ℕ → List ℕ → Pieces
split_from sep [] = ([], [])
split_from sep (c ∷ s) =
    let rest = split_from sep s in if eqb c sep then ([], rest.0 ∷ rest.1) else (c ∷ rest.0, rest.1)

unfoldable pub split : ℕ → List ℕ → List (List ℕ)
split sep s = let pieces = split_from sep s in pieces.0 ∷ pieces.1

-- `strings.Join`
unfoldable pub join_texts : List ℕ → List (List ℕ) → List ℕ
join_texts sep [] = []
join_texts sep (s ∷ []) = s
join_texts sep (s ∷ t ∷ rest) = s ++ sep ++ join_texts sep (t ∷ rest)

abbrev begins_with : ℕ → List ℕ → Bool
begins_with c [] = false
begins_with c (d ∷ s) = eqb c d

-- `strings.ReplaceAll(s, "\r\n", "\n")`
unfoldable pub unix_newlines : List ℕ → List ℕ
unix_newlines [] = []
unix_newlines (c ∷ s) =
    let rest = unix_newlines s in if eqb c 13 && begins_with 10 s then rest else c ∷ rest

-- `unicode.ToLower` where the lower-case form is ASCII; other letters are left as they are
unfoldable pub to_lower : ℕ → ℕ
to_lower c =
    if leb 65 c && leb c 90
    then c + 32
    else if eqb c 0x130
    then 105
    else if eqb c 0x212a
    then 107
    else c

-- The letter that a case-insensitive match takes for `c`, where it is ASCII.
unfoldable pub fold_case : ℕ → ℕ
fold_case c =
    if leb 65 c && leb c 90
    then c + 32
    else if eqb c 0x17f
    then 115
    else if eqb c 0x212a
    then 107
    else c

unfoldable pub lower : List ℕ → List ℕ
unfolding to_lower
lower s = map to_lower s

unfoldable pub is_among : List ℕ → List String → Bool
unfolding equal_texts
is_among s words = any (λ w. equal_texts s (codes w)) words

unfoldable pub drop_prefix : List ℕ → List ℕ → Option (List ℕ)
unfolding fold_case
drop_prefix [] s = some s
drop_prefix (a ∷ w) [] = none
drop_prefix (a ∷ w) (b ∷ s) = if eqb a (fold_case b) then drop_prefix w s else none

-- `prefix` without regard to case, and what follows it
unfoldable pub after_word : String → List ℕ → Option (List ℕ)
unfolding drop_prefix
after_word w s = drop_prefix (codes w) s
