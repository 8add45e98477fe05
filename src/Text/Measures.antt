-- ===== src/Text/Measures.antt =====
-- How long the results of trimming and cutting are.
use agentic_controller.Prelude.{
  ℕ, zero, suc, ◌+◌, ◌≤◌, ◌≡◌, List, [], ◌∷◌, Bool, true, false, leb, ltb, length, take, arith,
}
use agentic_controller.Text.{is_space, trim_left, trim_right, trim_space}
use mathlib.Core.List.{reverse, reverse_aux}

pub le_of_not_ltb : (a b : ℕ) → ltb a b ≡ false → b ≤ a
le_of_not_ltb a b e = ground arith

pub le_of_leb : (a b : ℕ) → leb a b ≡ true → a ≤ b
le_of_leb a b e = ground arith

pub length-take-le {ℓ} : {A : Type ℓ} (n : ℕ) (xs : List A) → length (take n xs) ≤ n
length-take-le zero xs = omega arith
length-take-le (suc n) [] = omega arith
length-take-le (suc n) (x ∷ xs) = omega (arith, length-take-le n xs)

length-reverse_aux : (xs ys : List ℕ) → length (reverse_aux xs ys) ≡ length xs + length ys
length-reverse_aux [] ys = omega arith
length-reverse_aux (x ∷ xs) ys = omega (arith, length-reverse_aux xs (x ∷ ys))

length-reverse : (xs : List ℕ) → length (reverse xs) ≡ length xs
length-reverse xs = omega (arith, length-reverse_aux xs [])

length-trim_left : (p : ℕ → Bool) (s : List ℕ) → length (trim_left p s) ≤ length s
unfolding trim_left
length-trim_left p [] = omega arith
length-trim_left p (c ∷ s) = ground (arith, length-trim_left p s)

pub length-trim_right : (p : ℕ → Bool) (s : List ℕ) → length (trim_right p s) ≤ length s
unfolding trim_right
length-trim_right p s = omega (
  arith,
  length-reverse (trim_left p (reverse s)),
  length-reverse s,
  length-trim_left p (reverse s),
)

pub length-trim_space : (s : List ℕ) → length (trim_space s) ≤ length s
unfolding trim_space
length-trim_space s =
    omega (arith, length-trim_right is_space (trim_left is_space s), length-trim_left is_space s)
