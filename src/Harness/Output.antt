-- ===== src/Harness/Output.antt =====
-- harness/cmd/migration-harness/verify.go: `tailBuffer`, which holds the output of a command, and the
-- cuts of it that are recorded. The buffer holds bytes, the cuts count code points.
use agentic_controller.Prelude.{
  ℕ, ◌-◌, ◌+◌, eqb, Bool, true, false, not, ◌||◌, List, [], ◌∷◌, ◌++◌, length, take, drop, last,
  ltb, map, if◌then◌else◌,
}
use agentic_controller.Text.Split.{is_nil, split, join_texts}
use agentic_controller.Text.{codes, trim_right, trim_space, is_space}
pub mod Tail

pub record TailBuffer : Type 0 where
  pub limit : ℕ
  pub buf : List ℕ
  pub dropped : Bool

-- the head of `s` is cut off where it is longer than the limit
abbrev cut_head : ℕ → List ℕ → Bool → List ℕ × Bool
cut_head limit s dropped =
    if ltb limit (length s) then (drop (length s - limit) s, true) else (s, dropped)

append_tail : TailBuffer → List ℕ × Bool → TailBuffer
append_tail t (p, dropped) =
    let (buf, cut) = cut_head t.limit (t.buf ++ p) dropped in
    record { limit = t.limit; buf = buf; dropped = cut }

-- `Write`
unfoldable pub write : TailBuffer → List ℕ → TailBuffer
unfolding append_tail
write t p = append_tail t (cut_head t.limit p t.dropped)

unfoldable pub write_all : TailBuffer → List (List ℕ) → TailBuffer
write_all t [] = t
write_all t (p ∷ ps) = write_all (write t p) ps

abbrev pub empty_buffer : ℕ → TailBuffer
empty_buffer limit = record { limit = limit; buf = []; dropped = false }

-- `clipVerify`
unfoldable pub clip_verify : List ℕ → ℕ → List ℕ
unfolding trim_space
clip_verify s n =
    let t = trim_space s in if ltb n (length t) then trim_space (take (n - 1) t) ++ codes "…" else t

-- `clipVerifyTail`
unfoldable pub clip_verify_tail : List ℕ → ℕ → List ℕ
unfolding trim_space
clip_verify_tail s n =
    let t = trim_space s in
    if ltb n (length t) then codes "…" ++ trim_space (drop (length t - n + 1) t) else t

-- the lines that are not blank
kept_lines : List (List ℕ) → List (List ℕ)
unfolding trim_space trim_right
kept_lines [] = []
kept_lines (line ∷ rest) =
    let kept = kept_lines rest in
    if is_nil (trim_space line) then kept else trim_right (eqb 13) line ∷ kept

abbrev pub verify_output_blob : ℕ
verify_output_blob = 200

-- the end of a text, marked where it was cut
unfoldable pub last_excerpt : List ℕ → List ℕ
last_excerpt joined =
    if ltb verify_output_blob (length joined)
    then codes "…" ++ drop (length joined - verify_output_blob + 1) joined
    else joined

joined_lines : List ℕ → List ℕ
unfolding kept_lines trim_right split join_texts
joined_lines output = join_texts (codes " | ") (kept_lines (split 10 (trim_right (eqb 10) output)))

-- `lastLines`
unfoldable pub last_lines : List ℕ → List ℕ
unfolding last_excerpt joined_lines
last_lines output = last_excerpt (joined_lines output)
