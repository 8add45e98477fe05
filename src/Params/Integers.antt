-- ===== src/Params/Integers.antt =====
-- `strconv.ParseInt(s, 10, 64)` and `strconv.FormatInt(i, 10)`, which internal/controller/params.go
-- calls: decimal prints of 64-bit integers.
use agentic_controller.Prelude.{
  ℕ, zero, suc, ◌+◌, ◌-◌, ◌*◌, ◌/◌, ◌%◌, ◌≤◌, ◌<◌, ◌≡◌, refl, ap, ◌∙◌, ℤ, pos, negsuc, neg, Bool,
  true, false, ◌&&◌, Option, none, some, List, [], ◌∷◌, ◌++◌, eqb, leb, ltb, arith, Bool-cases, inl,
  inr, if◌then◌else◌,
}
use mathlib.Core.List.{append_assoc, append-nil, nil≢cons}

abbrev max_int64 : ℕ
max_int64 = 9_223_372_036_854_775_807

-- the number that digits read, after those that make `n`
unfoldable pub scan : ℕ → List ℕ → Option ℕ
scan n [] = some n
scan n (c ∷ s) =
    let rest = scan (n * 10 + (c - 48)) s in if leb 48 c && leb c 57 then rest else none

digits_of : List ℕ → Option ℕ
unfolding scan
digits_of [] = none
digits_of (c ∷ s) = scan 0 (c ∷ s)

-- the sign and the magnitude, where they fit 64 bits
within : Bool → Option ℕ → Option ℤ
within minus none = none
within true (some n) = if leb n (max_int64 + 1) then some (neg n) else none
within false (some n) = if leb n max_int64 then some (pos n) else none

unfoldable pub parse_int : List ℕ → Option ℤ
unfolding digits_of within
parse_int [] = none
parse_int (c ∷ s) =
    if eqb c b'-'
    then within true (digits_of s)
    else if eqb c b'+'
    then within false (digits_of s)
    else within false (digits_of (c ∷ s))

-- the digits of `n`; the fuel `n + 1` is enough, since every round divides by ten
unfoldable pub digits : ℕ → ℕ → List ℕ
digits zero n = []
digits (suc fuel) n = elim (ltb n 10) [
  | true ↦ (48 + n) ∷ []
  | false ↦ digits fuel (n / 10) ++ (48 + n % 10) ∷ []
]

unfoldable pub format_int : ℤ → List ℕ
unfolding digits
format_int (pos n) = digits (suc n) n
format_int (negsuc n) = b'-' ∷ digits (n + 2) (n + 1)

-- the values of an `int64`
abbrev pub IsInt64 : ℤ → Type 0
IsInt64 (pos n) = n ≤ max_int64
IsInt64 (negsuc n) = n ≤ max_int64

scan_step :
    (n c : ℕ) (rest : List ℕ) → 48 ≤ c → c ≤ 57 → scan n (c ∷ rest) ≡ scan (n * 10 + (c - 48)) rest
unfolding scan
scan_step n c rest h k = ground arith

scan-digits : (fuel n : ℕ) (rest : List ℕ) → n < fuel → scan 0 (digits fuel n ++ rest) ≡ scan n rest
unfolding digits
scan-digits zero n rest h = absurd (omega arith)
scan-digits (suc fuel) n rest h = elim (Bool-cases (ltb n 10)) [
  | inl small ↦
      let fits : n < 10 = ground arith in
      let same : 0 * 10 + (48 + n - 48) ≡ n = omega arith in
      rw (small, digits)
        (scan_step 0 (48 + n) rest (omega arith) (omega arith) ∙ ap (λ m. scan m rest) same)
  | inr large ↦
      let many : 10 ≤ n = ground arith in
      let same : n / 10 * 10 + (48 + n % 10 - 48) ≡ n = omega arith in
      rw (large, digits)
        (ap (scan 0) (append_assoc (digits fuel (n / 10)) ((48 + n % 10) ∷ []) rest)
          ∙ scan-digits fuel (n / 10) ((48 + n % 10) ∷ rest) (omega arith)
          ∙ scan_step (n / 10) (48 + n % 10) rest (omega arith) (omega arith)
          ∙ ap (λ m. scan m rest) same)
]

-- a print of digits, which begins with one
record BeginsWithDigit (s : List ℕ) : Type 0 where
  first : ℕ
  rest : List ℕ
  splits : s ≡ first ∷ rest
  digit : 48 ≤ first

digits-BeginsWithDigit :
    (fuel n : ℕ) (rest : List ℕ) → n < fuel → BeginsWithDigit (digits fuel n ++ rest)
unfolding digits
digits-BeginsWithDigit zero n rest h = absurd (omega arith)
digits-BeginsWithDigit (suc fuel) n rest h = elim (Bool-cases (ltb n 10)) [
  | inl small ↦
      rw (small, digits)
        (record { first = 48 + n; rest = rest; splits = refl; digit = omega arith })
  | inr large ↦
      let many : 10 ≤ n = ground arith in
      rw (large, digits)
        (rw (append_assoc (digits fuel (n / 10)) ((48 + n % 10) ∷ []) rest)
          (digits-BeginsWithDigit fuel (n / 10) ((48 + n % 10) ∷ rest) (omega arith)))
]

digits_of-BeginsWithDigit : (s : List ℕ) → BeginsWithDigit s → digits_of s ≡ scan 0 s
unfolding digits_of
digits_of-BeginsWithDigit [] d = absurd (nil≢cons d.splits)
digits_of-BeginsWithDigit (c ∷ s) d = refl

parse_int-BeginsWithDigit :
    (s : List ℕ) → BeginsWithDigit s → parse_int s ≡ within false (digits_of s)
unfolding parse_int
parse_int-BeginsWithDigit [] d = absurd (nil≢cons d.splits)
parse_int-BeginsWithDigit (c ∷ s) d =
    let same : c ≡ d.first = cc in let high : 48 ≤ d.first = d.digit in ground arith

digits-IsPrint : (fuel n : ℕ) → n < fuel → BeginsWithDigit (digits fuel n)
digits-IsPrint fuel n h = rw append-nil at (digits-BeginsWithDigit fuel n [] h)

digits_of-digits : (fuel n : ℕ) → n < fuel → digits_of (digits fuel n) ≡ some n
unfolding scan
digits_of-digits fuel n h =
    digits_of-BeginsWithDigit (digits fuel n) (digits-IsPrint fuel n h)
    ∙ rw append-nil at (scan-digits fuel n [] h)

within_pos : (n : ℕ) → n ≤ max_int64 → within false (some n) ≡ some (pos n)
unfolding within
within_pos n h = ground arith

within_negsuc : (n : ℕ) → n ≤ max_int64 → within true (some (n + 1)) ≡ some (negsuc n)
unfolding within
within_negsuc n h = ground arith

-- Every 64-bit integer is read back from its print.
pub parse_int-format_int : (i : ℤ) → IsInt64 i → parse_int (format_int i) ≡ some i
unfolding format_int
parse_int-format_int (pos n) h =
    parse_int-BeginsWithDigit (digits (suc n) n) (digits-IsPrint (suc n) n (omega arith))
    ∙ ap (within false) (digits_of-digits (suc n) n (omega arith))
    ∙ within_pos n h
parse_int-format_int (negsuc n) h =
    unfold parse_int in
    (ap (within true) (digits_of-digits (n + 2) (n + 1) (omega arith)) ∙ within_negsuc n h)
