-- ===== src/Readiness.antt =====
-- internal/controller/agent_controller.go: an Agent is ready when everything that it refers to is.
pub mod Ready
use agentic_controller.Prelude.{
  ℕ, String, Bool, true, false, Option, none, some, List, [], ◌∷◌, ◌++◌, Result, ok, err,
  if◌then◌else◌,
}
use agentic_controller.Api.{
  Message, text, format2, format3, join, ConditionStatus, condition_true, condition_false,
  Condition, StatusConditions, ApiError, not_found, already_exists, unavailable, Reply, done,
  fail_with,
}
use agentic_controller.Api.Conditions.{is_condition_true}

pub record AgentStatus : Type 0 where
  pub observed_generation : ℕ
  pub conditions : List Condition

-- The names that an Agent refers to, and its status.
pub record AgentRefs : Type 0 where
  pub generation : ℕ
  pub gateways : List String
  pub skill_cards : List String
  pub skill_collections : List String
  pub status : AgentStatus

-- What a reconcile is given: the conditions of the object of a kind and a name, and whether the patch
-- succeeds.
pub record AgentCluster : Type 0 where
  pub library : StatusConditions
  pub conditions_of : String → String → Result ApiError (List Condition)
  pub patch_error : Option ApiError

error_text : ApiError → Message
error_text not_found = text "not found"
error_text already_exists = text "already exists"
error_text (unavailable m) = m

module _ (c : AgentCluster) where
  ready_or : String → String → Option Condition → Option Message
  ready_or kind name none = some (format2 "%s %q is not Ready" (text kind) (text name))
  ready_or kind name (some ready) =
      if is_condition_true ready.status
      then none
      else some (format2 "%s %q is not Ready" (text kind) (text name))

  problem_of : String → String → Result ApiError (List Condition) → Option Message
  unfolding ready_or error_text
  problem_of kind name (err not_found) = some (format2 "%s %q not found" (text kind) (text name))
  problem_of kind name (err e) =
      some (format3 "error fetching %s %q: %v" (text kind) (text name) (error_text e))
  problem_of kind name (ok conditions) = ready_or kind name (c.library.find conditions "Ready")

  -- `checkRef`: why the object is not ready, `none` where it is
  unfoldable pub check_ref : String → String → Option Message
  unfolding problem_of
  check_ref kind name = problem_of kind name (c.conditions_of kind name)

  unfoldable pub add_problem : Option Message → List Message → List Message
  add_problem none rest = rest
  add_problem (some m) rest = m ∷ rest

  -- the loop over the references of one kind
  unfoldable pub problems : String → List String → List Message
  unfolding add_problem
  problems kind [] = []
  problems kind (name ∷ names) = add_problem (check_ref kind name) (problems kind names)

  unfoldable pub all_problems : AgentRefs → List Message
  unfolding problems
  all_problems a =
      problems "Gateway" a.gateways
      ++ problems "SkillCard" a.skill_cards
      ++ problems "SkillCollection" a.skill_collections

  condition : AgentRefs → String → ConditionStatus → String → Message → Condition
  condition a kind status reason message = record {
    condition_type = kind;
    status = status;
    observed_generation = a.generation;
    reason = reason;
    message = message;
  }

  unfoldable pub ready_condition : AgentRefs → List Message → Condition
  unfolding condition
  ready_condition a [] =
      condition a "Ready" condition_true "AllDependenciesReady"
        (text "All referenced gateways, skills, and collections are ready")
  ready_condition a (m ∷ ms) =
      condition a "Ready" condition_false "DependenciesNotReady" (join "; " m ms)

  unfoldable pub gateway_condition : AgentRefs → List String → List Message → Condition
  unfolding condition
  gateway_condition a [] ms =
      condition a "GatewayConfigured" condition_false "NoGatewaysDeclared"
        (text "Agent declares no gateways; an AgentRun must name one to run")
  gateway_condition a (g ∷ gs) (m ∷ ms) =
      condition a "GatewayConfigured" condition_false "GatewaysNotReady" (join "; " m ms)
  gateway_condition a (g ∷ gs) [] =
      condition a "GatewayConfigured" condition_true "GatewaysReady"
        (text "All declared gateways are ready")

  reply_of : Option ApiError → Reply
  reply_of none = done
  reply_of (some e) = fail_with e

  -- `Reconcile`, of an Agent that exists: the Agent whose status it patches, and its reply
  unfoldable pub reconcile_agent : AgentRefs → AgentRefs × Reply
  unfolding reply_of ready_condition gateway_condition all_problems problems
  reconcile_agent a = (
    record a {
      status = record {
        observed_generation = a.generation;
        conditions =
            c.library.set (c.library.set a.status.conditions (ready_condition a (all_problems a)))
              (gateway_condition a a.gateways (problems "Gateway" a.gateways));
      };
    },
    reply_of c.patch_error,
  )
