-- ===== src/SkillCollection/Errors.antt =====
-- The errors of the enumeration of a collection's image.
use agentic_controller.Prelude.{Bool, true, false}
use agentic_controller.Api.{Message, format2}
use agentic_controller.SkillCollection.{CallError, forbidden, call_message}

-- An error of the enumeration: of a call, with what it was for; one that the next reconcile would
-- only reproduce; or cards that are not visible yet.
pub data EnumerationError : Type 0 where
  bare : CallError → EnumerationError
  call : Message → CallError → EnumerationError
  terminal : Message → EnumerationError
  unseen : Message → EnumerationError

unfoldable pub error_message : EnumerationError → Message
unfolding call_message
error_message (bare e) = call_message e
error_message (call m e) = format2 "%s: %w" m (call_message e)
error_message (terminal m) = m
error_message (unseen m) = m

-- `errors.IsForbidden`
unfoldable pub is_forbidden : EnumerationError → Bool
is_forbidden (call m (forbidden f)) = true
is_forbidden (bare (forbidden f)) = true
is_forbidden _ = false

-- `isTerminal`
unfoldable pub is_terminal : EnumerationError → Bool
is_terminal (terminal m) = true
is_terminal _ = false
