-- ===== src/Harness/Redaction.antt =====
-- harness/cmd/migration-harness/redact.go: the secrets that the harness holds are masked in the texts
-- that leave it. A text is the list of its bytes, or of its code points where the secrets are too.
use agentic_controller.Prelude.{
  ℕ, zero, suc, ◌-◌, List, [], ◌∷◌, ◌++◌, Option, none, some, length, if◌then◌else◌,
}
use agentic_controller.Text.{codes, has_prefix}

-- the length of the first secret that the text begins with; a secret is not empty
first_match : List (List ℕ) → List ℕ → Option ℕ
unfolding has_prefix
first_match [] s = none
first_match (secret ∷ secrets) s =
    let rest = first_match secrets s in if has_prefix s secret then some (length secret) else rest

-- One pass over the text, as `strings.NewReplacer` makes it: `n` bytes of a masked secret are still
-- to be passed over.
unfoldable pub redact_from : List (List ℕ) → ℕ → List ℕ → List ℕ
unfolding first_match
redact_from secrets n [] = []
redact_from secrets (suc n) (c ∷ s) = redact_from secrets n s
redact_from secrets zero (c ∷ s) = elim (first_match secrets (c ∷ s)) [
  | none ↦ c ∷ redact_from secrets zero s
  | some n ↦ codes "[redacted]" ++ redact_from secrets (n - 1) s
]

-- `redact`, with the secrets in the order that the redactor keeps
unfoldable pub redact : List (List ℕ) → List ℕ → List ℕ
unfolding redact_from
redact secrets s = redact_from secrets 0 s
