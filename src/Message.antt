-- ===== src/Message.antt =====
-- Texts that the program builds with `fmt.Sprintf`, `+` and its own cutting and redaction.
use agentic_controller.Prelude.{ℕ, String, Bool, true, false, List, [], ◌∷◌, ◌==◌}

-- A text is kept as it is built, not rendered: a format stands with its arguments, and a text from
-- outside is a `text`, or `runes` or `bytes` where the program cuts it by code
-- points or by bytes.
pub data Message : Type 0 where
  text : String → Message
  count : ℕ → Message
  runes : List ℕ → Message
  bytes : List ℕ → Message
  format1 : String → Message → Message
  format2 : String → Message → Message → Message
  format3 : String → Message → Message → Message → Message
  redacted : Message → Message
  clipped : ℕ → Message → Message

-- `message == ""`: every format of the source holds some literal text
unfoldable pub is_empty : Message → Bool
is_empty (text s) = s == ""
is_empty (runes []) = true
is_empty (bytes []) = true
is_empty (redacted m) = is_empty m
is_empty (clipped n m) = is_empty m
is_empty _ = false

-- `strings.Join`, for a list that is not empty
unfoldable pub join : String → Message → List Message → Message
join sep m [] = m
join sep m (n ∷ rest) = join sep (format3 "%s%s%s" m (text sep) n) rest
