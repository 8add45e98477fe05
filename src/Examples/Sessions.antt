-- ===== src/Examples/Sessions.antt =====
-- A turn of the agent: it says what it will do, calls a tool, concludes, and costs too much.
use agentic_controller.Prelude.{
  ℕ, ◌<◌, ◌≡◌, refl, String, true, false, Option, none, some, List, [], ◌∷◌, map,
}
use agentic_controller.Text.{codes}
use agentic_controller.Harness.Outcome.{answered, classify_outcome}
use agentic_controller.Harness.Session.{
  Frame, Turn, fresh, goose_update_method, session_update_method, process_all, Event, turn_advanced,
  cancel, notified, responded, result, returned, send_prompt,
}
use agentic_controller.Harness.Session.Closing.{closing-messages}
use agentic_controller.Harness.Session.Words.{messages, last_words, word_of}
use agentic_controller.Harness.Session.Limits.{
  Guarded, cancels, send_prompt-Guarded, classify_outcome-send_prompt,
}
use agentic_controller.Harness.Session.Answers.{
  Request, no_viewers, answered_by_viewer, timed_out, RepliesOnce, answer_agent_request, answer_all,
  hitl_gate_unanswered, Forwarded,
}
use agentic_controller.Harness.Session.Answers.Due.{answer_agent_request-RepliesOnce}

abbrev chunk : String → String → Frame
chunk s id = record {
  method = session_update_method;
  kind = some "agent_message_chunk";
  usage = none;
  prompt = some (record {
    session_update = "agent_message_chunk";
    content = some (record { content_type = "text"; text = codes s });
    message_id = id;
  });
  notice = none;
}

abbrev tool_call : Frame
tool_call = record {
  method = session_update_method;
  kind = some "tool_call";
  usage = none;
  prompt = some (record { session_update = "tool_call"; content = none; message_id = "" });
  notice = none;
}

abbrev cost_of : ℕ → Frame
cost_of n = record {
  method = goose_update_method;
  kind = none;
  usage = some (record {
    session_update = "usage_update";
    used = 10;
    size = 0;
    context_limit = 100;
    cost = some n;
  });
  prompt = none;
  notice = none;
}

abbrev frames : List Frame
frames = chunk "I read." "a" ∷ tool_call ∷ chunk "Do" "b" ∷ chunk "ne." "" ∷ chunk "Bye." "c" ∷ []

said : (process_all fresh frames).closing ≡ codes "Done." ∷ codes "Bye." ∷ []
unfolding process_all
said = refl

closing-messages_example :
    (process_all fresh frames).closing ≡ messages (last_words (map word_of frames))
closing-messages_example = closing-messages frames

abbrev events : List Event
events =
    notified tool_call
    ∷ notified (cost_of 7)
    ∷ notified (cost_of 9)
    ∷ responded [] (result (some "cancelled"))
    ∷ []

send_prompt-Guarded_example : Guarded 5 (send_prompt 5 true events)
send_prompt-Guarded_example = send_prompt-Guarded 5 true events

abbrev ended : Turn
ended = record {
  result = record {
    stop_reason = "cancelled";
    turns_used = 1;
    cost_limit_reached = true;
    context_used = 10;
    context_size = 100;
    cost = 9;
  };
  chunks = [];
  closing = [];
  closing_message_id = "";
  notices = [];
  saw_cost = true;
  cancel_sent = true;
  effects = turn_advanced 1 ∷ cancel ∷ [];
}

events-returned : send_prompt 5 true events ≡ returned (answered ended.result) ended
unfolding send_prompt
events-returned = refl

classify_outcome-send_prompt_example : (cancels ended.effects ≡ 1) × (0 < 5)
unfolding classify_outcome
classify_outcome-send_prompt_example =
    classify_outcome-send_prompt 5 true events (answered ended.result) ended 0 false events-returned
      refl

abbrev permission : Request
permission = record {
  method = "session/request_permission";
  options = some (record { option_id = "no"; kind = "reject_once" } ∷ []);
}

abbrev question : Request
question = record { method = "elicitation/create"; options = none }

answer_agent_request-RepliesOnce_example :
    RepliesOnce permission (some timed_out) (answer_agent_request "s" permission (some timed_out))
answer_agent_request-RepliesOnce_example =
    answer_agent_request-RepliesOnce "s" permission (some timed_out)

abbrev requests : List (Request × Option Forwarded)
requests =
    (permission, none)
    ∷ (question, some (answered_by_viewer "yes"))
    ∷ (question, some no_viewers)
    ∷ []

requests-unanswered : hitl_gate_unanswered (answer_all "s" requests) ≡ true
unfolding answer_all hitl_gate_unanswered
requests-unanswered = refl
