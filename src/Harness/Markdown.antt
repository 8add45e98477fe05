-- ===== src/Harness/Markdown.antt =====
-- harness/cmd/migration-harness/handoff.go and verify.go: a document read as prose, with its fenced
-- blocks dropped, and the line patterns of the two files. A line is the list of its code points and
-- holds no newline; a regular expression is written out as the matching that it stands for.
pub mod Fences
use agentic_controller.Prelude.{
  ℕ, zero, suc, Bool, true, false, not, ◌&&◌, ◌||◌, Option, none, some, List, [], ◌∷◌, ◌++◌, eqb,
  leb, length, map, if◌then◌else◌,
}
use agentic_controller.Text.Split.{is_nil, one_of, split, unix_newlines, fold_case}
use agentic_controller.Text.{codes, trim_left, trim_right, trim_space, equal_texts, has_prefix}

abbrev pub Line : Type 0
Line = List ℕ

-- `\s` of a regular expression
abbrev pub is_re_space : ℕ → Bool
is_re_space c = one_of (9 ∷ 10 ∷ 12 ∷ 13 ∷ 32 ∷ []) c

abbrev pub skip_space : Line → Line
skip_space s = trim_left is_re_space s

abbrev pub skip_stars : Line → Line
skip_stars s = trim_left (eqb b'*') s

-- the length of the run of `c` that a line begins with, and what follows it
abbrev pub run_of : ℕ → Line → ℕ × Line
run_of c [] = (0, [])
run_of c (d ∷ s) = let rest = run_of c s in if eqb c d then (suc rest.0, rest.1) else (0, d ∷ s)

-- ` {0,3}` before a character other than a space
abbrev pub after_indent : Line → Option Line
after_indent s = let (n, rest) = run_of 32 s in if leb n 3 then some rest else none

-- a run of backticks or tildes
pub record Marker : Type 0 where
  pub char : ℕ
  pub size : ℕ

marker_of : ℕ → Line → Option Marker
marker_of c s =
    let (n, rest) = run_of c s in if leb 3 n then some (record { char = c; size = n }) else none

abbrev pub or_else {ℓ} : {A : Type ℓ} → Option A → Option A → Option A
or_else (some a) o = some a
or_else none o = o

marker_at : Option Line → Option Marker
unfolding marker_of
marker_at none = none
marker_at (some s) = or_else (marker_of b'`' s) (marker_of b'~' s)

-- `handoffFence`
unfoldable pub fence_marker : Line → Option Marker
unfolding marker_at
fence_marker line = marker_at (after_indent line)

repeat : ℕ → ℕ → Line
repeat c zero = []
repeat c (suc n) = c ∷ repeat c n

closes_with : Marker → Line → Option Marker → Bool
unfolding repeat
closes_with opened line none = false
closes_with opened line (some m) =
    eqb m.char opened.char
    && leb opened.size m.size
    && equal_texts (trim_space line) (repeat m.char m.size)

-- whether a line ends the block that `opened` began
unfoldable pub closes : Marker → Line → Bool
unfolding closes_with
closes opened line = closes_with opened line (fence_marker line)

-- `proseLine`
pub record ProseLine : Type 0 where
  pub content : Line
  pub fence : Bool

-- the loop over the lines, with the marker of the block that is open
unfoldable pub prose_from : Option Marker → List Line → List ProseLine
prose_from m [] = []
prose_from none (line ∷ rest) = elim (fence_marker line) [
  | none ↦ record { content = line; fence = false } ∷ prose_from none rest
  | some m ↦ record { content = line; fence = true } ∷ prose_from (some m) rest
]
prose_from (some m) (line ∷ rest) = elim (closes m line) [
  | true ↦ prose_from none rest
  | false ↦ prose_from (some m) rest
]

-- the lines of a document
unfoldable pub lines_of : List ℕ → List Line
lines_of content = split 10 (unix_newlines content)

-- `handoffProseLines`
unfoldable pub handoff_prose_lines : List ℕ → List ProseLine
handoff_prose_lines content = prose_from none (lines_of content)

-- `handoffProse`
prose_texts : List ProseLine → List Line
prose_texts [] = []
prose_texts (e ∷ es) = let rest = prose_texts es in if e.fence then rest else e.content ∷ rest

unfoldable pub handoff_prose : List ℕ → List Line
unfolding prose_texts
handoff_prose content = prose_texts (handoff_prose_lines content)
