-- ===== src/Harness/Output/Tail.antt =====
-- The buffer holds the end of what was written, and the cuts keep to their bounds.
use agentic_controller.Prelude.{
  ℕ, ◌+◌, ◌-◌, ◌≤◌, ◌≡◌, refl, sym, ap, ◌∙◌, Bool, true, List, [], ◌∷◌, ◌++◌, length, length-append,
  length-drop, drop-append, drop-drop, drop-length, last-drop, take, drop, last, ltb, arith,
  if◌then◌else◌, if_cases, Bool-cases, inl, inr,
}
use agentic_controller.Text.Measures.{le_of_not_ltb, length-take-le, length-trim_space}
use agentic_controller.Text.{codes, trim_space}
use agentic_controller.Harness.Output.{
  TailBuffer, cut_head, append_tail, write, write_all, empty_buffer, clip_verify, clip_verify_tail,
  last_excerpt, joined_lines, last_lines, verify_output_blob,
}
use mathlib.Core.List.{append_assoc, append-nil}

-- what was written, one write after the other
abbrev pub concat : List (List ℕ) → List ℕ
concat [] = []
concat (p ∷ ps) = p ++ concat ps

-- The buffer stands for `written`: it holds the end of it, and knows whether there was more.
pub record Shows (t : TailBuffer) (written : List ℕ) : Type 0 where
  pub holds : t.buf ≡ last t.limit written
  pub knows : t.dropped ≡ ltb t.limit (length written)

-- a cut at the head keeps the end
cut_head-last : (limit : ℕ) (s : List ℕ) (d : Bool) → (cut_head limit s d).0 ≡ last limit s
cut_head-last limit s d =
    if_cases {A = List ℕ × Bool} (λ c. c.0 ≡ last limit s) (ltb limit (length s)) (λ _. refl)
      λ e. let zero_over : length s - limit ≡ 0 = ground arith in rw zero_over refl

cut_head-dropped :
    (limit : ℕ) (s : List ℕ) (d : Bool)
    → (cut_head limit s d).1 ≡ (if ltb limit (length s) then true else d)
cut_head-dropped limit s d = ground arith

last_whole : (n : ℕ) (xs : List ℕ) → length xs ≤ n → last n xs ≡ xs
last_whole n xs h = let zero_over : length xs - n ≡ 0 = omega arith in rw zero_over refl

-- only the end of what stands before counts
last-append_left : (n : ℕ) (xs ys : List ℕ) → last n (last n xs ++ ys) ≡ last n (xs ++ ys)
last-append_left n xs ys = elim (Bool-cases (ltb n (length xs))) [
  | inl more ↦
      let k = length xs - n in
      let room : k ≤ length xs = omega arith in
      let fits : k + n ≤ length (xs ++ ys) = ground (arith, length-append xs ys) in
      ap (last n) (sym (drop-append k xs ys room)) ∙ last-drop n k (xs ++ ys) fits
  | inr less ↦ ap (λ s. last n (s ++ ys)) (last_whole n xs (le_of_not_ltb n (length xs) less))
]

-- only the end of what stands behind counts
last-append_right : (n : ℕ) (xs ys : List ℕ) → last n (xs ++ last n ys) ≡ last n (xs ++ ys)
last-append_right n xs ys = elim (Bool-cases (ltb n (length ys))) [
  | inl more ↦
      let k = length ys - n in
      let kept : length (xs ++ drop k ys) - n ≡ length xs =
        ground (arith, length-append xs (drop k ys), length-drop k ys) in
      let all : length xs + k ≡ length (xs ++ ys) - n = ground (arith, length-append xs ys) in
      ap (λ m. drop m (xs ++ drop k ys)) kept
      ∙ drop-length xs (drop k ys)
      ∙ ap (drop k) (sym (drop-length xs ys))
      ∙ drop-drop k (length xs) (length (xs ++ ys) - n) (xs ++ ys) all
  | inr less ↦ ap (λ s. last n (xs ++ s)) (last_whole n ys (le_of_not_ltb n (length ys) less))
]

-- What was dropped is known from the lengths: `held` is the length of the buffer with the new text.
dropped_lem :
    (n w p held total : ℕ) (before after : Bool)
    → held ≡ (w - (w - n)) + (p - (p - n))
    → total ≡ w + p
    → before ≡ ltb n w
    → after ≡ (if ltb n p then true else before)
    → (if ltb n held then true else after) ≡ ltb n total
dropped_lem n w p held total before after e f g h = ground arith

length-held :
    (n : ℕ) (xs ys : List ℕ)
    → length (last n xs ++ last n ys)
      ≡ (length xs - (length xs - n)) + (length ys - (length ys - n))
length-held n xs ys = omega (
  arith,
  length-append (last n xs) (last n ys),
  length-drop (length xs - n) xs,
  length-drop (length ys - n) ys,
)

Shows-write :
    (t : TailBuffer) (written p : List ℕ) → Shows t written → Shows (write t p) (written ++ p)
unfolding write append_tail
Shows-write t written p h =
    let n = t.limit in
    let (q, d) = cut_head n p t.dropped in
    record {
      holds =
          cut_head-last n (t.buf ++ q) d
          ∙ ap (λ s. last n (t.buf ++ s)) (cut_head-last n p t.dropped)
          ∙ ap (λ s. last n (s ++ last n p)) h.holds
          ∙ last-append_left n written (last n p)
          ∙ last-append_right n written p;
      knows =
          cut_head-dropped n (t.buf ++ q) d
          ∙ dropped_lem n (length written) (length p) (length (t.buf ++ q)) (length (written ++ p))
              t.dropped d (rw (h.holds, cut_head-last n p t.dropped) (length-held n written p))
              (length-append written p) h.knows (cut_head-dropped n p t.dropped);
    }

Shows-write_all :
    (ps : List (List ℕ)) (t : TailBuffer) (written : List ℕ)
    → Shows t written
    → Shows (write_all t ps) (written ++ concat ps)
unfolding write_all
Shows-write_all [] t written h = rw append-nil h
Shows-write_all (p ∷ ps) t written h =
    rw (← append_assoc) (Shows-write_all ps (write t p) (written ++ p) (Shows-write t written p h))

-- Whatever the pieces in which a command's output is written, the buffer holds the last `limit` bytes
-- of it, the whole of it where it is no longer, and knows whether some of it was dropped.
pub write_all-Shows :
    (limit : ℕ) (ps : List (List ℕ)) → Shows (write_all (empty_buffer limit) ps) (concat ps)
write_all-Shows limit ps =
    Shows-write_all ps (empty_buffer limit) []
      (record { holds = sym (last_whole limit [] (omega arith)); knows = ground arith })

clip_verify-le : (n : ℕ) (s : List ℕ) → 1 ≤ n → length (clip_verify s n) ≤ n
unfolding clip_verify
clip_verify-le n s h =
    let t = trim_space s in
    let cut = take (n - 1) t in
    let short : length (trim_space cut ++ codes "…") ≤ n = omega (
      arith,
      length-append (trim_space cut) (codes "…"),
      length-trim_space cut,
      length-take-le (n - 1) t,
    ) in
    if_cases {A = List ℕ} (λ d. length d ≤ n) (ltb n (length t)) (λ _. short)
      λ e. le_of_not_ltb n (length t) e

clip_verify_tail-le : (n : ℕ) (s : List ℕ) → 1 ≤ n → length (clip_verify_tail s n) ≤ n
unfolding clip_verify_tail
clip_verify_tail-le n s h =
    let t = trim_space s in
    let cut = drop (length t - n + 1) t in
    if_cases {A = List ℕ} (λ d. length d ≤ n) (ltb n (length t))
      (λ more.
        let lt : n + 1 ≤ length t = ground arith in
        let short : length (codes "…" ++ trim_space cut) ≤ n =
          omega (arith, length-trim_space cut, length-drop (length t - n + 1) t) in
        short)
      λ e. le_of_not_ltb n (length t) e

last_excerpt-le : (s : List ℕ) → length (last_excerpt s) ≤ verify_output_blob
unfolding last_excerpt
last_excerpt-le s =
    if_cases {A = List ℕ} (λ d. length d ≤ verify_output_blob) (ltb verify_output_blob (length s))
      (λ more.
        let short : length (codes "…" ++ drop (length s - verify_output_blob + 1) s) ≤ 200 =
          ground (arith, length-drop (length s - verify_output_blob + 1) s) in
        short)
      λ e. le_of_not_ltb verify_output_blob (length s) e

last_lines-le : (s : List ℕ) → length (last_lines s) ≤ verify_output_blob
unfolding last_lines
last_lines-le s = last_excerpt-le (joined_lines s)

-- A text cut to `n` code points, at its head or at its tail, has at most `n`, the mark of the cut
-- included, and the excerpt of a command's output at most 200.
pub clip_verify_bounds :
    (n : ℕ) (s : List ℕ)
    → 1 ≤ n
    → (length (clip_verify s n) ≤ n)
      × (length (clip_verify_tail s n) ≤ n)
      × (length (last_lines s) ≤ verify_output_blob)
clip_verify_bounds n s h = (clip_verify-le n s h, clip_verify_tail-le n s h, last_lines-le s)
