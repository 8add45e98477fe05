-- ===== src/Harness/TerminationLog.antt =====
-- `writeTerminationLog` of harness/cmd/migration-harness/outcome.go: the termination blob is trimmed,
-- step by step, until its JSON fits the kubelet's limit. encoding/json and the rendering of texts are
-- arguments; texts are cut by bytes.
pub mod Trimmed
use agentic_controller.Prelude.{
  ℕ, zero, suc, Bool, true, false, not, ◌&&◌, Option, none, some, List, [], ◌∷◌, ◌++◌, length, take,
  get_elem?, leb, ltb, if◌then◌else◌,
}
use agentic_controller.Message.{Message, text, bytes}
use agentic_controller.Harness.Outcome.{LimitKind}
use agentic_controller.Harness.Verification.{Verification, without_output, verdict_only}
use agentic_controller.Harness.Stage.{TerminationBlob}

abbrev pub max_termination_log_bytes : ℕ
max_termination_log_bytes = 4096

-- `json.Marshal`, which may fail, and the bytes of a text
pub record Encoding : Type 0 where
  pub marshal : TerminationBlob → Option (List ℕ)
  pub bytes_of : Message → List ℕ

-- `utf8.RuneStart`
abbrev pub is_rune_start : ℕ → Bool
is_rune_start b = not (leb 128 b && leb b 191)

abbrev pub starts_rune : Option ℕ → Bool
starts_rune none = false
starts_rune (some b) = is_rune_start b

-- the loop that moves the cut back to the start of a rune
unfoldable pub cut_back : List ℕ → ℕ → ℕ
cut_back s zero = zero
cut_back s (suc n) =
    let less = cut_back s n in if starts_rune (get_elem? s (suc n)) then suc n else less

-- `truncateRuneSafe`
unfoldable pub truncate_rune_safe : List ℕ → ℕ → List ℕ
unfolding cut_back
truncate_rune_safe s max_bytes =
    if leb (length s) max_bytes then s else take (cut_back s max_bytes) s

map_verification : (Verification → Verification) → Option Verification → Option Verification
map_verification f none = none
map_verification f (some v) = some (f v)

-- the bytes of `…`
abbrev ellipsis : List ℕ
ellipsis = 0xe2 ∷ 0x80 ∷ 0xa6 ∷ []

module _ (encoding : Encoding) where
  shortened : Message → Message
  unfolding truncate_rune_safe
  shortened m =
      let s = encoding.bytes_of m in
      if ltb 200 (length s) then bytes (truncate_rune_safe s 200 ++ ellipsis) else m

  -- without the excerpts of the outputs, and with a short stop reason
  unfoldable pub trimmed : TerminationBlob → TerminationBlob
  unfolding shortened map_verification without_output
  trimmed b = record b {
    stop_reason = shortened b.stop_reason;
    verification = map_verification without_output b.verification;
  }

  -- the outcome and the verdict alone
  unfoldable pub minimal : TerminationBlob → TerminationBlob
  unfolding truncate_rune_safe map_verification verdict_only
  minimal b = record {
    exit_code = b.exit_code;
    outcome = b.outcome;
    limit_reached = b.limit_reached;
    handoff_status = text "";
    stop_reason = text "";
    maven_proxy_warning = bytes (truncate_rune_safe (encoding.bytes_of b.maven_proxy_warning) 200);
    usage = none;
    verification = map_verification verdict_only b.verification;
  }

  abbrev pub bare : TerminationBlob → TerminationBlob
  bare b = record b { verification = none }

  unfoldable pub or_nothing : Option (List ℕ) → List ℕ
  or_nothing none = []
  or_nothing (some s) = s

  unfoldable pub fits : Option (List ℕ) → Bool
  fits none = false
  fits (some s) = leb (length s) max_termination_log_bytes

  write_minimal : TerminationBlob → List ℕ
  unfolding fits or_nothing
  write_minimal b =
      if fits (encoding.marshal b)
      then or_nothing (encoding.marshal b)
      else or_nothing (encoding.marshal (bare b))

  write_trimmed : TerminationBlob → List ℕ
  unfolding fits or_nothing write_minimal minimal
  write_trimmed b =
      if fits (encoding.marshal b)
      then or_nothing (encoding.marshal b)
      else write_minimal (minimal b)

  -- what is written of a blob with its JSON
  write_encoded : TerminationBlob → Option (List ℕ) → Option (List ℕ)
  unfolding write_trimmed trimmed
  write_encoded b none = none
  write_encoded b (some s) =
      if ltb max_termination_log_bytes (length s) then some (write_trimmed (trimmed b)) else some s

  -- `writeTerminationLog`: what it writes, `none` where the first encoding fails
  unfoldable pub write_termination_log : TerminationBlob → Option (List ℕ)
  unfolding write_encoded
  write_termination_log b = write_encoded b (encoding.marshal b)
