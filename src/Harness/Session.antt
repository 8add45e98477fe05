-- ===== src/Harness/Session.antt =====
-- SendPrompt of harness/internal/acp/session.go: one prompt of the agent's session, as the events that
-- reach it. The decoding of JSON is given; texts are lists of code points.
pub mod Words
pub mod Closing
pub mod Agreement
pub mod Limits
pub mod Answers
use agentic_controller.Prelude.{
  ℕ, suc, ◌+◌, String, Bool, true, false, not, ◌&&◌, ◌||◌, Option, none, some, List, [], ◌∷◌, ◌++◌,
  ◌==◌, eqb, ltb, leb, if◌then◌else◌,
}
use agentic_controller.Text.{trim_space}
use agentic_controller.Text.Split.{is_nil}
use agentic_controller.Harness.Outcome.{
  PromptResult, PromptError, connection_lost, other_error, PromptCall, answered, broken,
}

-- what trackUsage reads of a frame
pub record UsageUpdate : Type 0 where
  pub session_update : String
  pub used : ℕ
  pub size : ℕ
  pub context_limit : ℕ
  pub cost : Option ℕ

pub record Content : Type 0 where
  pub content_type : String
  pub text : List ℕ

-- what handlePromptNotification reads of a frame; `content` is `none` where it does not decode
pub record PromptUpdate : Type 0 where
  pub session_update : String
  pub content : Option Content
  pub message_id : String

-- what handleGooseNotice reads of a frame
pub record NoticeUpdate : Type 0 where
  pub session_update : String
  pub status_type : String
  pub message : List ℕ

-- A notification with what `json.Unmarshal` makes of its params, for each of its readers.
pub record Frame : Type 0 where
  pub method : String
  pub kind : Option String
  pub usage : Option UsageUpdate
  pub prompt : Option PromptUpdate
  pub notice : Option NoticeUpdate

-- The response to the prompt: an RPC error, or a result with its stop reason where it decodes.
pub data Response : Type 0 where
  rpc_error : Response
  result : Option String → Response

-- What the session does to its surroundings: the calls of the turn handler, and session/cancel.
pub data Effect : Type 0 where
  turn_advanced : ℕ → Effect
  cancel : Effect

-- The variables of SendPrompt, with the fields of its result that only the harness reads.
pub record Turn : Type 0 where
  pub result : PromptResult
  pub chunks : List (List ℕ)
  pub closing : List (List ℕ)
  pub closing_message_id : String
  pub notices : List (List ℕ)
  pub saw_cost : Bool
  pub cancel_sent : Bool
  pub effects : List Effect

abbrev pub fresh : Turn
fresh = record {
  result = record {
    stop_reason = "";
    turns_used = 0;
    cost_limit_reached = false;
    context_used = 0;
    context_size = 0;
    cost = 0;
  };
  chunks = [];
  closing = [];
  closing_message_id = "";
  notices = [];
  saw_cost = false;
  cancel_sent = false;
  effects = [];
}

abbrev pub session_update_method : String
session_update_method = "session/update"

abbrev pub goose_update_method : String
goose_update_method = "_goose/unstable/session/update"

abbrev is_kind : Option String → Bool
is_kind none = false
is_kind (some k) = k == "tool_call"

-- `isToolCall`
unfoldable pub is_tool_call : Frame → Bool
is_tool_call f = f.method == session_update_method && is_kind f.kind

unfoldable pub count_tool_call : Frame → Turn → Turn
unfolding is_tool_call
count_tool_call f t =
    if is_tool_call f
    then record t {
      result = record t.result { turns_used = t.result.turns_used + 1 };
      effects = t.effects ++ turn_advanced (t.result.turns_used + 1) ∷ [];
    }
    else t

-- the entries with the last one continued
unfoldable pub continue_last : List (List ℕ) → List ℕ → List (List ℕ)
continue_last [] s = s ∷ []
continue_last (e ∷ []) s = (e ++ s) ∷ []
continue_last (e ∷ f ∷ rest) s = e ∷ continue_last (f ∷ rest) s

-- `appendClosing`
unfoldable pub append_closing : List ℕ → String → Turn → Turn
unfolding continue_last
append_closing s id t = record t {
  closing =
      if not (is_nil t.closing) && (id == "" || id == t.closing_message_id)
      then continue_last t.closing s
      else t.closing ++ s ∷ [];
  closing_message_id = id;
}

unfoldable pub add_content : String → Option Content → Turn → Turn
unfolding append_closing
add_content id none t = t
add_content id (some c) t =
    if c.content_type == "text"
    then append_closing c.text id (record t { chunks = t.chunks ++ c.text ∷ [] })
    else t

-- the agent goes on after a tool call, or a human has spoken
abbrev pub is_break : String → Bool
is_break kind = kind == "user_message_chunk" || kind == "tool_call"

unfoldable pub handle_prompt_update : Option PromptUpdate → Turn → Turn
unfolding add_content
handle_prompt_update none t = t
handle_prompt_update (some u) t =
    if u.session_update == "agent_message_chunk"
    then add_content u.message_id u.content t
    else if is_break u.session_update
    then record t { closing = [] }
    else t

unfoldable pub add_notice : List ℕ → Turn → Turn
add_notice [] t = t
add_notice (c ∷ s) t = record t { notices = t.notices ++ (c ∷ s) ∷ [] }

-- `handleGooseNotice`
unfoldable pub handle_goose_notice : Option NoticeUpdate → Turn → Turn
unfolding add_notice trim_space
handle_goose_notice none t = t
handle_goose_notice (some n) t =
    if n.session_update == "status_message" && n.status_type == "notice"
    then add_notice (trim_space n.message) t
    else t

-- `handlePromptNotification`
unfoldable pub handle_prompt_notification : Frame → Turn → Turn
unfolding handle_goose_notice handle_prompt_update
handle_prompt_notification f t =
    if f.method == goose_update_method
    then handle_goose_notice f.notice t
    else if f.method == session_update_method
    then handle_prompt_update f.prompt t
    else t

unfoldable pub set_cost : Option ℕ → Turn → Turn
set_cost none t = t
set_cost (some c) t = record t { result = record t.result { cost = c }; saw_cost = true }

unfoldable pub set_context : UsageUpdate → Turn → Turn
set_context u t =
    let size = if eqb u.size 0 then u.context_limit else u.size in
    if ltb 0 size
    then record t { result = record t.result { context_used = u.used; context_size = size } }
    else t

unfoldable pub add_usage : Option UsageUpdate → Turn → Turn
unfolding set_cost set_context
add_usage none t = t
add_usage (some u) t =
    if u.session_update == "usage_update" then set_context u (set_cost u.cost t) else t

-- `trackUsage`
unfoldable pub track_usage : Frame → Turn → Turn
unfolding add_usage
track_usage f t = if f.method == goose_update_method then add_usage f.usage t else t

-- `process`, of one notification
unfoldable pub process : Turn → Frame → Turn
unfolding track_usage handle_prompt_notification count_tool_call
process t f = track_usage f (handle_prompt_notification f (count_tool_call f t))

unfoldable pub process_all : Turn → List Frame → Turn
unfolding process
process_all t [] = t
process_all t (f ∷ fs) = process_all (process t f) fs

-- What a round of the loop receives. A response, and the end of the connection, come with the
-- notifications that are still buffered.
pub data Event : Type 0 where
  notified : Frame → Event
  responded : List Frame → Response → Event
  disconnected : List Frame → Option Response → Event
  expired : Event

pub data Progress : Type 0 where
  waiting : Turn → Progress
  returned : PromptCall → Turn → Progress

respond : Response → Turn → Progress
respond rpc_error t = returned (broken other_error (some t.result)) t
respond (result none) t = returned (broken other_error none) t
respond (result (some reason)) t =
    let done = record t { result = record t.result { stop_reason = reason } } in
    returned (answered done.result) done

disconnect : Option Response → Turn → Progress
unfolding respond
disconnect none t = returned (broken connection_lost (some t.result)) t
disconnect (some r) t = respond r t

module _ (cost_limit : ℕ) where
  -- `maybeCancelForCost`
  unfoldable pub maybe_cancel_for_cost : Turn → Turn
  maybe_cancel_for_cost t =
      if ltb 0 cost_limit && not t.cancel_sent && leb cost_limit t.result.cost
      then record t {
        result = record t.result { cost_limit_reached = true };
        cancel_sent = true;
        effects = t.effects ++ cancel ∷ [];
      }
      else t

  unfoldable pub receive : Turn → Event → Progress
  unfolding maybe_cancel_for_cost process_all respond disconnect
  receive t (notified f) = waiting (maybe_cancel_for_cost (process t f))
  receive t (responded fs r) = respond r (process_all t fs)
  receive t (disconnected fs r) = disconnect r (process_all t fs)
  receive t expired = returned (broken other_error none) t

  -- the loop, over the events of the prompt; what comes after it has returned is not read
  unfoldable pub await : Progress → List Event → Progress
  unfolding receive
  await p [] = p
  await (returned call t) (e ∷ es) = returned call t
  await (waiting t) (e ∷ es) = await (receive t e) es

  -- `SendPrompt`, whose request may fail to be sent
  unfoldable pub send_prompt : Bool → List Event → Progress
  unfolding await
  send_prompt true es = await (waiting fresh) es
  send_prompt false es = returned (broken other_error none) fresh
