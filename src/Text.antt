-- ===== src/Text.antt =====
-- What the program uses of Go's `strings`, `unicode` and `path` packages, over texts as lists of
-- code points (bytes, for paths).
pub mod Split
pub mod Measures
use Prim.Native.Char.{code}
use agentic_controller.Prelude.{
  ℕ, String, Bool, true, false, ◌&&◌, ◌||◌, List, [], ◌∷◌, eqb, leb, if◌then◌else◌,
}
use mathlib.Core.List.{reverse}

-- the code points of a text
abbrev pub codes : String → List ℕ
codes String.[] = []
codes (String.◌∷◌ c s) = code c ∷ codes s

-- `unicode.IsSpace`
unfoldable pub is_space : ℕ → Bool
is_space c =
    leb 9 c && leb c 13
    || eqb c 32
    || eqb c 0x85
    || eqb c 0xa0
    || eqb c 0x1680
    || leb 0x2000 c && leb c 0x200a
    || eqb c 0x2028
    || eqb c 0x2029
    || eqb c 0x202f
    || eqb c 0x205f
    || eqb c 0x3000

unfoldable pub trim_left : (ℕ → Bool) → List ℕ → List ℕ
trim_left p [] = []
trim_left p (c ∷ s) = let rest = trim_left p s in if p c then rest else c ∷ s

unfoldable pub trim_right : (ℕ → Bool) → List ℕ → List ℕ
unfolding trim_left
trim_right p s = reverse (trim_left p (reverse s))

unfoldable pub trim_space : List ℕ → List ℕ
unfolding trim_right is_space
trim_space s = trim_right is_space (trim_left is_space s)

unfoldable pub equal_texts : List ℕ → List ℕ → Bool
equal_texts [] [] = true
equal_texts (a ∷ s) (b ∷ t) = eqb a b && equal_texts s t
equal_texts _ _ = false

unfoldable pub has_prefix : List ℕ → List ℕ → Bool
has_prefix s [] = true
has_prefix [] (b ∷ t) = false
has_prefix (a ∷ s) (b ∷ t) = eqb a b && has_prefix s t
