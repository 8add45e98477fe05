-- ===== src/Examples/Gateways.antt =====
-- A Gateway whose Job has ended well, and an Agent that refers to it.
use agentic_controller.Prelude.{
  ◌≡◌, refl, true, false, not, ◌&&◌, none, some, [], ◌∷◌, ok, err, ◌==◌, if◌then◌else◌,
}
use agentic_controller.Text.Split.{is_nil}
use agentic_controller.Text.{codes}
use agentic_controller.Api.{Condition, condition_true, text, runes, format2, not_found, done}
use agentic_controller.Api.Sample.{list_conditions}
use agentic_controller.Gateway.Names.{SecretData, credential_bytes}
use agentic_controller.Gateway.{Gateway, GatewayCluster, is_terminal_ready_reason}
use agentic_controller.Gateway.Reconcile.{nothing, reconcile_gateway}
use agentic_controller.Gateway.Reconcile.Honest.{Writes, reconcile_gateway-Writes}
use agentic_controller.Gateway.Reconcile.Settled.{reconcile_gateway-settled}
use agentic_controller.Readiness.{AgentRefs, AgentCluster, reconcile_agent}
use agentic_controller.Readiness.Ready.{
  holds_true, are_ready, depends_on_ready, reconcile_agent-depends_on_ready,
}

abbrev secret : SecretData
secret = ("token", codes "k3y") ∷ []

abbrev cluster : GatewayCluster
cluster = record {
  library = list_conditions;
  digest = λ s. codes "0a1b2c3d";
  sha256 = λ s. s;
  get_secret = λ name. ok secret;
  list_jobs = λ label. ok [];
  get_job = λ name. ok (record { name = name; conditions = ("Complete", "True") ∷ [] });
  set_owner = none;
  create_job = none;
  probe = λ name. ok (record { name = "verify"; terminated = some (codes "ok code=200") } ∷ []);
  patch_error = none;
}

abbrev gateway : Gateway
gateway = record {
  name = codes "llm";
  generation = 2;
  provider = codes "openai";
  endpoint = text "https://llm.example";
  secret_name = "llm-key";
  secret_key = "token";
  status = record {
    observed_generation = 1;
    connection_verified = false;
    verified_credential_hash = [];
    conditions = [];
  };
}

reconcile_gateway-Writes_example : Writes cluster gateway (reconcile_gateway cluster gateway)
reconcile_gateway-Writes_example = reconcile_gateway-Writes cluster gateway

abbrev verified : Condition
verified = record {
  condition_type = "Ready";
  status = condition_true;
  observed_generation = 2;
  reason = "ConnectionVerified";
  message =
      format2 "Endpoint %s is reachable (HTTP %s)" (text "https://llm.example")
        (runes (codes "200"));
}

abbrev settled : Gateway
settled = record gateway {
  status = record {
    observed_generation = 2;
    connection_verified = true;
    verified_credential_hash = credential_bytes "token" secret;
    conditions = verified ∷ [];
  };
}

gateway-patched : (reconcile_gateway cluster gateway).patched ≡ some settled
unfolding reconcile_gateway
gateway-patched = refl

reconcile_gateway-settled_example : reconcile_gateway cluster settled ≡ nothing done
unfolding is_terminal_ready_reason
reconcile_gateway-settled_example =
    reconcile_gateway-settled cluster gateway settled verified gateway-patched refl refl

abbrev agent_cluster : AgentCluster
agent_cluster = record {
  library = list_conditions;
  conditions_of = λ kind name. if kind == "Gateway" then ok (verified ∷ []) else err not_found;
  patch_error = none;
}

abbrev agent : AgentRefs
agent = record {
  generation = 1;
  gateways = "llm" ∷ [];
  skill_cards = "java" ∷ [];
  skill_collections = [];
  status = record { observed_generation = 0; conditions = [] };
}

reconcile_agent-depends_on_ready_example :
    (holds_true (
        agent_cluster.library.find
          (reconcile_agent agent_cluster agent).0.status.conditions
          "Ready")
      ≡ depends_on_ready agent_cluster agent)
    × (holds_true (
          agent_cluster.library.find
            (reconcile_agent agent_cluster agent).0.status.conditions
            "GatewayConfigured")
        ≡ (not (is_nil agent.gateways) && are_ready agent_cluster "Gateway" agent.gateways))
reconcile_agent-depends_on_ready_example = reconcile_agent-depends_on_ready agent_cluster agent
