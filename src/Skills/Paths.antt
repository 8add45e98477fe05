-- ===== src/Skills/Paths.antt =====
-- What the loader uses of Go's path/filepath, over paths as lists of names.
use agentic_controller.Prelude.{
  ℕ, ◌≡◌, refl, sym, Bool, true, false, not, ◌||◌, List, [], ◌∷◌, ◌++◌, map, eqb, arith, Bool-cases,
  inl, inr, if◌then◌else◌,
}
use agentic_controller.Text.{equal_texts}
use agentic_controller.Text.Split.{is_nil, split}
use mathlib.Core.List.{reverse, append-nil, append_assoc}
use mathlib.Core.Path.{subst}
use mathlib.Core.Bool.{true≢false}

abbrev Segments : Type 0
Segments = List (List ℕ)

abbrev pub dot : List ℕ
dot = b'.' ∷ []

abbrev pub dot_dot : List ℕ
dot_dot = b'.' ∷ b'.' ∷ []

pub equal_texts_sound : (s t : List ℕ) → equal_texts s t ≡ true → s ≡ t
unfolding equal_texts
equal_texts_sound [] [] h = refl
equal_texts_sound [] (b ∷ t) h = cc
equal_texts_sound (a ∷ s) [] h = cc
equal_texts_sound (a ∷ s) (b ∷ t) h = ground (arith, equal_texts_sound s t)

pub equal_texts_self : (s : List ℕ) → equal_texts s s ≡ true
unfolding equal_texts
equal_texts_self [] = refl
equal_texts_self (a ∷ s) = ground (arith, equal_texts_self s)

-- the names that a text has between its slashes, without `.` and empty ones; `..` drops the name before
-- it, and nothing at the root
abbrev pop : Segments → Segments
pop [] = []
pop (x ∷ xs) = xs

unfoldable pub clean_onto : Segments → Segments → Segments
unfolding equal_texts
clean_onto stack [] = stack
clean_onto stack (s ∷ rest) =
    clean_onto
      (if is_nil s || equal_texts s dot
        then stack
        else if equal_texts s dot_dot
        then pop stack
        else s ∷ stack)
      rest

-- `filepath.Clean("/" + s)`, below the root
unfoldable pub clean_rooted : List ℕ → Segments
unfolding clean_onto split
clean_rooted s = reverse (clean_onto [] (split b'/' s))

abbrev has_slash : List ℕ → Bool
has_slash [] = false
has_slash (c ∷ s) = eqb c b'/' || has_slash s

-- a name that `filepath.Base` leaves as it is: one without a slash, or the root
unfoldable pub is_base : List ℕ → Bool
unfolding equal_texts
is_base s = not (has_slash s) || equal_texts s (b'/' ∷ [])

-- `filepath.Rel`, of two clean absolute paths
unfoldable pub rel : Segments → Segments → Segments
unfolding equal_texts
rel [] target = target
rel (b ∷ base) [] = dot_dot ∷ map (λ s. dot_dot) base
rel (b ∷ base) (t ∷ target) =
    let below = rel base target in
    if equal_texts b t then below else dot_dot ∷ map (λ s. dot_dot) base ++ t ∷ target

abbrev begins_with_up : Segments → Bool
begins_with_up [] = false
begins_with_up (s ∷ rest) = equal_texts s dot_dot

-- `rel == ".."`, or it begins with `../`
unfoldable pub leaves : Segments → Segments → Bool
unfolding rel
leaves base target = begins_with_up (rel base target)

-- `target` is `base`, or lies below it
pub data Within (base : Segments) : Segments → Type 0 where
  below : (rest : Segments) → Within base (base ++ rest)

pub Within-append :
    {base target : Segments} (rest : Segments) → Within base target → Within base (target ++ rest)
Within-append {base} rest (below s) =
    subst (Within base) (sym (append_assoc base s rest)) (below (s ++ rest))

Within-cons :
    {base target : Segments} (s : List ℕ) → Within base target → Within (s ∷ base) (s ∷ target)
Within-cons s (below rest) = below rest

pub Within-self : (base : Segments) → Within base base
Within-self base = subst (Within base) (append-nil base) (below [])

-- A path that the relative path does not lead out to lies within.
pub leaves-Within : (base target : Segments) → leaves base target ≡ false → Within base target
unfolding leaves
leaves-Within [] target h = below target
leaves-Within (b ∷ base) [] h = cc
leaves-Within (b ∷ base) (t ∷ target) h = elim (Bool-cases (equal_texts b t)) [
  | inl e ↦
      rw (equal_texts_sound b t e) (Within-cons t (leaves-Within base target (rw (e, rel) at h)))
  | inr e ↦ absurd (true≢false (rw (e, rel) at h))
]
