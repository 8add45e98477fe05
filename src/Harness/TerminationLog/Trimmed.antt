-- ===== src/Harness/TerminationLog/Trimmed.antt =====
-- What the written termination log keeps of the blob.
use agentic_controller.Prelude.{
  zero, suc, ◌+◌, ◌*◌, ◌<◌, [], leb, arith, ℕ, ◌≤◌, ◌≡◌, refl, sym, ap, ◌∙◌, true, false, Option,
  none, some, List, length, ltb, inl, inr, if_cases, Bool-cases, Option-cases, none_some, some_inj,
}
use mathlib.Core.Path.{subst}
use mathlib.Core.Bool.{true≢false}
use agentic_controller.Text.Measures.{length-take-le, le_of_leb, le_of_not_ltb}
use agentic_controller.Message.{text, bytes}
use agentic_controller.Harness.Outcome.{Outcome, outcome_name}
use agentic_controller.Harness.Verification.{
  VerificationStatus, Verification, without_output, verdict_only,
}
use agentic_controller.Harness.Stage.{TerminationBlob}
use agentic_controller.Harness.TerminationLog.{
  cut_back, truncate_rune_safe, Encoding, max_termination_log_bytes, map_verification, trimmed,
  minimal, bare, or_nothing, fits, write_minimal, write_trimmed, write_encoded,
  write_termination_log,
}

abbrev pub status_of : Option Verification → Option VerificationStatus
status_of none = none
status_of (some v) = some v.status

-- the same outcome of the stage, and the same verdict on its work
pub record Agrees (a b : TerminationBlob) : Type 0 where
  pub exit_code : a.exit_code ≡ b.exit_code
  pub outcome : a.outcome ≡ b.outcome
  pub limit_reached : a.limit_reached ≡ b.limit_reached
  pub verdict : status_of a.verification ≡ status_of b.verification

pub record SameOutcome (a b : TerminationBlob) : Type 0 where
  pub exit_code : a.exit_code ≡ b.exit_code
  pub outcome : a.outcome ≡ b.outcome
  pub limit_reached : a.limit_reached ≡ b.limit_reached

-- The JSON of a blob with no more than an exit code, an outcome, a limit and a warning: at most six bytes
-- for a byte of the warning, beside the names and the words.
pub record IsCompact (encoding : Encoding) : Type 0 where
  pub no_bytes : encoding.bytes_of (text "") ≡ []
  pub bytes_of-bytes : (s : List ℕ) → encoding.bytes_of (bytes s) ≡ s
  pub encoded : TerminationBlob → List ℕ
  pub marshal-small :
      (a : TerminationBlob) (o : Outcome)
      → a.outcome ≡ outcome_name o
      → a.exit_code < 256
      → encoding.bytes_of a.handoff_status ≡ []
      → encoding.bytes_of a.stop_reason ≡ []
      → a.usage ≡ none
      → a.verification ≡ none
      → (encoding.marshal a ≡ some (encoded a))
        × (length (encoded a) ≤ 300 + 6 * length (encoding.bytes_of a.maven_proxy_warning))

cut_back_le : (s : List ℕ) (n : ℕ) → cut_back s n ≤ n
unfolding cut_back
cut_back_le s zero = omega arith
cut_back_le s (suc n) = ground (arith, cut_back_le s n)

length-truncate_rune_safe : (s : List ℕ) (n : ℕ) → length (truncate_rune_safe s n) ≤ n
unfolding truncate_rune_safe
length-truncate_rune_safe s n = elim (Bool-cases (leb (length s) n)) [
  | inl e ↦ rw e (le_of_leb (length s) n e)
  | inr e ↦ rw e (omega (arith, length-take-le (cut_back s n) s, cut_back_le s n))
]

module _ (encoding : Encoding) where
  -- What is written is the whole JSON of a blob that agrees with `b`, or, where the JSON of the smallest
  -- one with a verdict does not fit, of one with the outcome alone; within the limit.
  pub data Written (b : TerminationBlob) (s : List ℕ) : Type 0 where
    whole :
        (a : TerminationBlob)
        → Agrees a b
        → encoding.marshal a ≡ some s
        → length s ≤ max_termination_log_bytes
        → Written b s
    without_verdict :
        (a : TerminationBlob)
        → SameOutcome a b
        → a.verification ≡ none
        → fits encoding (encoding.marshal (minimal encoding (trimmed encoding b))) ≡ false
        → encoding.marshal a ≡ some s
        → length s ≤ max_termination_log_bytes
        → Written b s

  fitting :
      (a b : TerminationBlob) (o : Option (List ℕ))
      → Agrees a b
      → encoding.marshal a ≡ o
      → fits encoding o ≡ true
      → Written b (or_nothing encoding o)
  unfolding fits or_nothing
  fitting a b none h e f = absurd (true≢false (sym f))
  fitting a b (some s) h e f = whole a h e (le_of_leb (length s) max_termination_log_bytes f)

  status_of-map_verification :
      (f : Verification → Verification) (o : Option Verification)
      → ((v : Verification) → (f v).status ≡ v.status)
      → status_of (map_verification f o) ≡ status_of o
  unfolding map_verification
  status_of-map_verification f none h = refl
  status_of-map_verification f (some v) h = ap some (h v)

  minimal-Agrees : (a b : TerminationBlob) → Agrees a b → Agrees (minimal encoding a) b
  unfolding minimal verdict_only
  minimal-Agrees a b h = record {
    exit_code = h.exit_code;
    outcome = h.outcome;
    limit_reached = h.limit_reached;
    verdict = status_of-map_verification verdict_only a.verification (λ v. refl) ∙ h.verdict;
  }

  trimmed-Agrees : (b : TerminationBlob) → Agrees (trimmed encoding b) b
  unfolding trimmed without_output
  trimmed-Agrees b = record {
    exit_code = refl;
    outcome = refl;
    limit_reached = refl;
    verdict = status_of-map_verification without_output b.verification (λ v. refl);
  }

  module _ (law : IsCompact encoding) (b : TerminationBlob) (o : Outcome)
      (known : b.outcome ≡ outcome_name o) (small : b.exit_code < 256) where
    -- the smallest blob, without its verdict, is always written whole
    bare-Written :
        (a : TerminationBlob)
        → a ≡ bare encoding (minimal encoding (trimmed encoding b))
        → fits encoding (encoding.marshal (minimal encoding (trimmed encoding b))) ≡ false
        → Written b (or_nothing encoding (encoding.marshal a))
    unfolding or_nothing minimal trimmed
    bare-Written a same e =
        let least = bare encoding (minimal encoding (trimmed encoding b)) in
        let json = law.marshal-small least o known small law.no_bytes law.no_bytes refl refl in
        let cut =
          ap length (
            law.bytes_of-bytes
              (truncate_rune_safe (encoding.bytes_of b.maven_proxy_warning) 200)) in
        let short = length-truncate_rune_safe (encoding.bytes_of b.maven_proxy_warning) 200 in
        let within : length (law.encoded least) ≤ max_termination_log_bytes =
          omega (arith, json.1, cut, short) in
        rw (same, json.0)
          (without_verdict least (record { exit_code = refl; outcome = refl; limit_reached = refl })
            refl e json.0 within)

    write_minimal-Written :
        Written b (write_minimal encoding (minimal encoding (trimmed encoding b)))
    unfolding write_minimal
    write_minimal-Written =
        let a = minimal encoding (trimmed encoding b) in
        if_cases (Written b) (fits encoding (encoding.marshal a))
          (fitting a b (encoding.marshal a)
            (minimal-Agrees (trimmed encoding b) b (trimmed-Agrees b)) refl)
          λ e. bare-Written (bare encoding a) refl e

    write_trimmed-Written : Written b (write_trimmed encoding (trimmed encoding b))
    unfolding write_trimmed
    write_trimmed-Written =
        let a = trimmed encoding b in
        if_cases (Written b) (fits encoding (encoding.marshal a))
          (fitting a b (encoding.marshal a) (trimmed-Agrees b) refl) λ e. write_minimal-Written

    Agrees-self : Agrees b b
    Agrees-self = record { exit_code = refl; outcome = refl; limit_reached = refl; verdict = refl }

    write_encoded-Written :
        (s t : List ℕ)
        → encoding.marshal b ≡ some t
        → write_encoded encoding b (some t) ≡ some s
        → Written b s
    unfolding write_encoded
    write_encoded-Written s t e h = elim (Bool-cases (ltb max_termination_log_bytes (length t))) [
      | inl long ↦ subst (Written b) (some_inj (rw long at h)) write_trimmed-Written
      | inr short ↦
          subst (Written b) (some_inj (rw short at h))
            (whole b Agrees-self e (le_of_not_ltb max_termination_log_bytes (length t) short))
    ]

    -- The termination log is the whole JSON of one blob, never one that is cut, and within 4096 bytes:
    -- of a blob with the exit code, the outcome, the limit and the verdict of the given one, or, only
    -- where the smallest such blob does not fit, of one without the verdict. The blob's outcome is one
    -- that there is and its exit code is below 256, and the JSON of a blob with neither verdict nor
    -- usage nor texts but a warning has at most 300 bytes and six for each byte of the warning.
    pub write_termination_log-Written :
        (s : List ℕ) → write_termination_log encoding b ≡ some s → Written b s
    unfolding write_termination_log
    write_termination_log-Written s h = elim (Option-cases (encoding.marshal b)) [
      | inl e ↦ none_some (rw e at h)
      | inr (t, e) ↦ write_encoded-Written s t e (rw e at h)
    ]
