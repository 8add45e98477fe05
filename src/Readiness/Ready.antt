-- ===== src/Readiness/Ready.antt =====
-- When an Agent is reported as ready, and its gateways as configured.
use agentic_controller.Prelude.{
  ◌≡◌, ◌≢◌, refl, sym, ap, ◌∙◌, String, Bool, true, false, not, ◌&&◌, Option, none, some, List, [],
  ◌∷◌, ◌++◌, Result, ok, err, arith, ◌==◌,
}
use mathlib.Core.Path.{subst}
use mathlib.Core.Bool.{true≢false}
use agentic_controller.Text.Split.{is_nil}
use agentic_controller.Api.{Message, Condition, ApiError, not_found, already_exists, unavailable}
use agentic_controller.Api.Conditions.{is_condition_true}
use agentic_controller.Readiness.{
  AgentRefs, AgentCluster, ready_or, problem_of, check_ref, add_problem, problems, all_problems,
  ready_condition, gateway_condition, reconcile_agent,
}

abbrev pub holds_true : Option Condition → Bool
holds_true none = false
holds_true (some c) = is_condition_true c.status

module _ (c : AgentCluster) where
  -- the object can be read, and its Ready condition is True
  abbrev pub is_ready : Result ApiError (List Condition) → Bool
  is_ready (err e) = false
  is_ready (ok conditions) = holds_true (c.library.find conditions "Ready")

  abbrev pub are_ready : String → List String → Bool
  are_ready kind [] = true
  are_ready kind (name ∷ names) = is_ready (c.conditions_of kind name) && are_ready kind names

  is_nil-problem_of :
      (kind name : String) (r : Result ApiError (List Condition)) (rest : List Message)
      → is_nil (add_problem c (problem_of c kind name r) rest) ≡ (is_ready r && is_nil rest)
  unfolding add_problem problem_of ready_or
  is_nil-problem_of kind name (err not_found) rest = refl
  is_nil-problem_of kind name (err already_exists) rest = refl
  is_nil-problem_of kind name (err (unavailable m)) rest = refl
  is_nil-problem_of kind name (ok conditions) rest = ground arith

  is_nil-problems :
      (kind : String) (names : List String) → is_nil (problems c kind names) ≡ are_ready kind names
  unfolding problems check_ref
  is_nil-problems kind [] = refl
  is_nil-problems kind (name ∷ names) =
      is_nil-problem_of kind name (c.conditions_of kind name) (problems c kind names)
      ∙ ap (λ b. is_ready (c.conditions_of kind name) && b) (is_nil-problems kind names)

  is_nil-append : (xs ys : List Message) → is_nil (xs ++ ys) ≡ (is_nil xs && is_nil ys)
  is_nil-append [] ys = refl
  is_nil-append (x ∷ xs) ys = refl

  -- everything that the Agent refers to is ready
  abbrev pub depends_on_ready : AgentRefs → Bool
  depends_on_ready a =
      are_ready "Gateway" a.gateways
      && are_ready "SkillCard" a.skill_cards
      && are_ready "SkillCollection" a.skill_collections

  is_nil-all_problems : (a : AgentRefs) → is_nil (all_problems c a) ≡ depends_on_ready a
  unfolding all_problems
  is_nil-all_problems a =
      let cards = problems c "SkillCard" a.skill_cards in
      let collections = problems c "SkillCollection" a.skill_collections in
      ground (
        arith,
        is_nil-append (problems c "Gateway" a.gateways) (cards ++ collections),
        is_nil-append cards collections,
        is_nil-problems "Gateway" a.gateways,
        is_nil-problems "SkillCard" a.skill_cards,
        is_nil-problems "SkillCollection" a.skill_collections,
      )

  ready_condition-type :
      (a : AgentRefs) (ms : List Message) → (ready_condition c a ms).condition_type ≡ "Ready"
  unfolding ready_condition
  ready_condition-type a [] = refl
  ready_condition-type a (m ∷ ms) = refl

  gateway_condition-type :
      (a : AgentRefs) (gs : List String) (ms : List Message)
      → (gateway_condition c a gs ms).condition_type ≡ "GatewayConfigured"
  unfolding gateway_condition
  gateway_condition-type a [] ms = refl
  gateway_condition-type a (g ∷ gs) [] = refl
  gateway_condition-type a (g ∷ gs) (m ∷ ms) = refl

  ready_condition-holds :
      (a : AgentRefs) (ms : List Message)
      → is_condition_true (ready_condition c a ms).status ≡ is_nil ms
  unfolding ready_condition is_condition_true
  ready_condition-holds a [] = refl
  ready_condition-holds a (m ∷ ms) = refl

  gateway_condition-holds :
      (a : AgentRefs) (gs : List String) (ms : List Message)
      → is_condition_true (gateway_condition c a gs ms).status ≡ (not (is_nil gs) && is_nil ms)
  unfolding gateway_condition is_condition_true
  gateway_condition-holds a [] ms = refl
  gateway_condition-holds a (g ∷ gs) [] = refl
  gateway_condition-holds a (g ∷ gs) (m ∷ ms) = refl

  -- a condition that is set is found under its type
  find-set_as :
      (l : List Condition) (x : Condition) (t : String)
      → x.condition_type ≡ t
      → c.library.find (c.library.set l x) t ≡ some x
  find-set_as l x t e =
      subst (λ u. c.library.find (c.library.set l x) u ≡ some x) e (c.library.find-set_self l x)

  types_differ : (t : String) → t ≡ "GatewayConfigured" → t ≢ "Ready"
  types_differ t e k = true≢false (sym (ap (λ s. s == "Ready") k) ∙ ap (λ s. s == "Ready") e)

  -- The Agent that a reconcile patches has the condition Ready exactly when every gateway, skill card
  -- and skill collection that it names exists and is ready itself, and the condition
  -- GatewayConfigured exactly when it names a gateway and all those that it names are.
  pub reconcile_agent-depends_on_ready :
      (a : AgentRefs)
      → (holds_true (c.library.find (reconcile_agent c a).0.status.conditions "Ready")
          ≡ depends_on_ready a)
        × (holds_true (c.library.find (reconcile_agent c a).0.status.conditions "GatewayConfigured")
            ≡ (not (is_nil a.gateways) && are_ready "Gateway" a.gateways))
  unfolding reconcile_agent
  reconcile_agent-depends_on_ready a =
      let ms = all_problems c a in
      let gs = problems c "Gateway" a.gateways in
      let r = ready_condition c a ms in
      let gc = gateway_condition c a a.gateways gs in
      let first = c.library.set a.status.conditions r in
      let other : gc.condition_type ≢ "Ready" =
        types_differ gc.condition_type (gateway_condition-type a a.gateways gs) in
      (
        ap holds_true (
              c.library.find-set_ne first gc "Ready" other
              ∙ find-set_as a.status.conditions r "Ready" (ready_condition-type a ms))
            ∙ ready_condition-holds a ms
            ∙ is_nil-all_problems a,
        ap holds_true
              (find-set_as first gc "GatewayConfigured" (gateway_condition-type a a.gateways gs))
            ∙ gateway_condition-holds a a.gateways gs
            ∙ ap (λ b. not (is_nil a.gateways) && b) (is_nil-problems "Gateway" a.gateways),
      )
