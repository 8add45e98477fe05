-- ===== src/Harness/Session/Words.antt =====
-- What the agent has said in a prompt, without the state that SendPrompt keeps.
use agentic_controller.Prelude.{
  ℕ, String, Bool, true, false, ◌||◌, Option, none, some, List, [], ◌∷◌, ◌++◌, ◌==◌, any,
  if◌then◌else◌,
}
use agentic_controller.Harness.Session.{
  Frame, Turn, Content, PromptUpdate, session_update_method, goose_update_method, append_closing,
  is_break,
}

-- what a frame says: a piece of a message of the agent, a break, or nothing
pub data Word : Type 0 where
  said : List ℕ → String → Word
  broken_off : Word
  silent : Word

abbrev pub word_of_content : String → Option Content → Word
word_of_content id none = silent
word_of_content id (some c) = if c.content_type == "text" then said c.text id else silent

abbrev pub word_of_update : Option PromptUpdate → Word
word_of_update none = silent
word_of_update (some u) =
    if u.session_update == "agent_message_chunk"
    then word_of_content u.message_id u.content
    else if is_break u.session_update
    then broken_off
    else silent

abbrev pub word_of : Frame → Word
word_of f =
    if f.method == goose_update_method
    then silent
    else if f.method == session_update_method
    then word_of_update f.prompt
    else silent

abbrev is_broken_off : Word → Bool
is_broken_off broken_off = true
is_broken_off _ = false

abbrev pub has_break : List Word → Bool
has_break ws = any is_broken_off ws

abbrev add_said : Word → List (List ℕ × String) → List (List ℕ × String)
add_said (said s id) rest = (s, id) ∷ rest
add_said _ rest = rest

-- the pieces after the last break
unfoldable pub last_words : List Word → List (List ℕ × String)
last_words [] = []
last_words (w ∷ ws) = let rest = last_words ws in if has_break ws then rest else add_said w rest

-- The messages that pieces make: a piece without an id, or with the id of the piece before it,
-- goes on with its message.
unfoldable pub message_from : List ℕ → String → List (List ℕ × String) → List (List ℕ)
message_from s id [] = s ∷ []
message_from s id ((u, next) ∷ rest) =
    let go_on = message_from (s ++ u) next rest in
    let begin = s ∷ message_from u next rest in if next == "" || next == id then go_on else begin

unfoldable pub messages : List (List ℕ × String) → List (List ℕ)
unfolding message_from
messages [] = []
messages ((s, id) ∷ rest) = message_from s id rest

-- the closing and the id of its last piece, after one more word
abbrev pub hear : Word → Turn → Turn
hear (said s id) t = append_closing s id t
hear broken_off t = record t { closing = [] }
hear silent t = t
