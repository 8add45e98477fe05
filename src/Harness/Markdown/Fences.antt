-- ===== src/Harness/Markdown/Fences.antt =====
-- What stands in a fenced block of a document is not read.
use agentic_controller.Prelude.{
  ◌≡◌, refl, ap, ◌∙◌, true, false, Option, none, some, List, [], ◌∷◌, ◌++◌, All, ℕ, arith,
  Option-cases, inl, inr,
}
use agentic_controller.Harness.Markdown.{
  Line, Marker, fence_marker, closes, prose_from, lines_of, handoff_prose_lines,
}

-- the block that is open behind the lines
abbrev pub open_after : Option Marker → List Line → Option Marker
open_after m [] = m
open_after none (line ∷ rest) = open_after (fence_marker line) rest
open_after (some m) (line ∷ rest) = elim (closes m line) [
  | true ↦ open_after none rest
  | false ↦ open_after (some m) rest
]

-- No line of the body closes the block that `m` opened.
abbrev pub StaysOpen : Marker → List Line → Type 0
StaysOpen m body = All (λ line. closes m line ≡ false) body

-- A document with a fenced block: `opening` opens it, `closing` closes it, `body` stands between.
pub record Fenced (content : List ℕ) (before : List Line) (opening : Line) (body : List Line)
    (closing : Line) (rest : List Line) : Type 0 where
  pub marker : Marker
  pub splits : lines_of content ≡ before ++ (opening ∷ (body ++ (closing ∷ rest)))
  pub outside : open_after none before ≡ none
  pub opens : fence_marker opening ≡ some marker
  pub stays : StaysOpen marker body
  pub ends : closes marker closing ≡ true

prose_from-append :
    (m : Option Marker) (xs ys : List Line)
    → prose_from m (xs ++ ys) ≡ prose_from m xs ++ prose_from (open_after m xs) ys
unfolding prose_from
prose_from-append m [] ys = refl
prose_from-append none (line ∷ rest) ys = elim (Option-cases (fence_marker line)) [
  | inl e ↦ ground (arith, prose_from-append none rest ys)
  | inr (m, e) ↦ ground (arith, prose_from-append (some m) rest ys)
]
prose_from-append (some m) (line ∷ rest) ys =
    ground (arith, prose_from-append none rest ys, prose_from-append (some m) rest ys)

prose_from-StaysOpen :
    (m : Marker) (body : List Line) (closing : Line) (rest : List Line)
    → StaysOpen m body
    → closes m closing ≡ true
    → prose_from (some m) (body ++ (closing ∷ rest)) ≡ prose_from none rest
unfolding prose_from
prose_from-StaysOpen m [] closing rest h e = rw (e, prose_from) refl
prose_from-StaysOpen m (line ∷ body) closing rest h e =
    rw (h.0, prose_from) (prose_from-StaysOpen m body closing rest h.1 e)

prose_from-opening :
    (m : Marker) (opening : Line) (rest : List Line)
    → fence_marker opening ≡ some m
    → prose_from none (opening ∷ rest)
      ≡ record { content = opening; fence = true } ∷ prose_from (some m) rest
unfolding prose_from
prose_from-opening m opening rest e = rw (e, prose_from) refl

module _ {before : List Line} {opening : Line} {body : List Line} {closing : Line}
    {rest : List Line} where
  -- Of a fenced block only the place is left.
  pub handoff_prose_lines-Fenced :
      (content : List ℕ)
      → Fenced content before opening body closing rest
      → handoff_prose_lines content
        ≡ prose_from none before
          ++ (record { content = opening; fence = true } ∷ prose_from none rest)
  unfolding handoff_prose_lines
  handoff_prose_lines-Fenced content f =
      ap (prose_from none) f.splits
      ∙ prose_from-append none before (opening ∷ (body ++ (closing ∷ rest)))
      ∙ ap (λ tail. prose_from none before ++ tail)
          (rw (f.outside) (
            prose_from-opening f.marker opening (body ++ (closing ∷ rest)) f.opens
            ∙ ap (◌∷◌ (record { content = opening; fence = true }))
                (prose_from-StaysOpen f.marker body closing rest f.stays f.ends)))
