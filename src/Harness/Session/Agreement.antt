-- ===== src/Harness/Session/Agreement.antt =====
-- What of a turn the notifications of a prompt leave as it is.
use agentic_controller.Prelude.{ℕ, ◌≡◌, refl, String, Option, none, some, List, arith}
use agentic_controller.Text.{trim_space}
use agentic_controller.Harness.Session.{
  Frame, Turn, UsageUpdate, count_tool_call, handle_prompt_notification, handle_prompt_update,
  handle_goose_notice, add_content, add_notice, append_closing, set_cost, set_context, add_usage,
  track_usage, process, PromptUpdate, NoticeUpdate, Content,
}

-- Two turns that differ in what notifications add, but for the turns.
pub record Agree (t u : Turn) : Type 0 where
  pub turns : t.result.turns_used ≡ u.result.turns_used
  pub reached : t.result.cost_limit_reached ≡ u.result.cost_limit_reached
  pub sent : t.cancel_sent ≡ u.cancel_sent
  pub effects : t.effects ≡ u.effects

Agree-self : (t : Turn) → Agree t t
Agree-self t = record { turns = refl; reached = refl; sent = refl; effects = refl }

set_cost-Agree : (c : Option ℕ) (t : Turn) → Agree (set_cost c t) t
unfolding set_cost
set_cost-Agree c t = ground arith

set_context-Agree : (u : UsageUpdate) (t : Turn) → Agree (set_context u t) t
unfolding set_context
set_context-Agree u t = ground arith

add_usage-Agree : (u : Option UsageUpdate) (t : Turn) → Agree (add_usage u t) t
unfolding add_usage
add_usage-Agree none t = Agree-self t
add_usage-Agree (some u) t =
    ground (arith, set_context-Agree u (set_cost u.cost t), set_cost-Agree u.cost t)

track_usage-Agree : (f : Frame) (t : Turn) → Agree (track_usage f t) t
unfolding track_usage
track_usage-Agree f t = ground (arith, add_usage-Agree f.usage t)

add_content-Agree : (id : String) (c : Option Content) (t : Turn) → Agree (add_content id c t) t
unfolding add_content append_closing
add_content-Agree id c t = ground arith

add_notice-Agree : (s : List ℕ) (t : Turn) → Agree (add_notice s t) t
unfolding add_notice
add_notice-Agree s t = ground arith

handle_prompt_update-Agree :
    (u : Option PromptUpdate) (t : Turn) → Agree (handle_prompt_update u t) t
unfolding handle_prompt_update
handle_prompt_update-Agree none t = Agree-self t
handle_prompt_update-Agree (some u) t = ground (arith, add_content-Agree u.message_id u.content t)

handle_goose_notice-Agree : (n : Option NoticeUpdate) (t : Turn) → Agree (handle_goose_notice n t) t
unfolding handle_goose_notice
handle_goose_notice-Agree none t = Agree-self t
handle_goose_notice-Agree (some n) t = ground (arith, add_notice-Agree (trim_space n.message) t)

handle_prompt_notification-Agree : (f : Frame) (t : Turn) → Agree (handle_prompt_notification f t) t
unfolding handle_prompt_notification
handle_prompt_notification-Agree f t =
    ground (arith, handle_goose_notice-Agree f.notice t, handle_prompt_update-Agree f.prompt t)

pub process-Agree : (t : Turn) (f : Frame) → Agree (process t f) (count_tool_call f t)
unfolding process
process-Agree t f =
    let u = count_tool_call f t in
    ground (
      arith,
      track_usage-Agree f (handle_prompt_notification f u),
      handle_prompt_notification-Agree f u,
    )
