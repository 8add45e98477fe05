-- ===== src/AgentRun/Reconcile/Consistent.antt =====
-- Every status that the AgentRun controller writes has a phase and a Succeeded condition that agree.
use mathlib.Core.Path.{subst}
use agentic_controller.Prelude.{
  ◌+◌, ltb, String, ◌≡◌, refl, sym, ◌≢◌, false, Option, none, some, Result, ok, err, arith, inl,
  inr, eq_iff, Bool-cases, if_elim, ◌==◌, List, [], ◌∷◌, Option-cases,
}
use agentic_controller.Api.{
  AgentRun, Agent, Phase, unset, pending, running, succeeded, failed, is_terminal_phase, Message,
  condition_unknown, ApiError, not_found, already_exists, unavailable, Reply, done,
}
use agentic_controller.AgentRun.Pod.{Pod, Sandbox}
use agentic_controller.AgentRun.Admission.{validate_gateway, choose_gateway, allow_gateway}
use agentic_controller.AgentRun.Lifecycle.{
  status_in, Agrees, IsConsistent, set_run_succeeded-IsConsistent,
  update_phase_from_sandbox-IsConsistent,
}
use agentic_controller.AgentRun.Reconcile.{
  RunCluster, RunEffects, SandboxError, gateway_not_found, creation_failed, SourceError,
  lookup_error, no_such_path, no_effect, observe_run, patch_then, expire_run, reconcile_run_ttl,
  fail_run, wait_run, after_sandbox, after_sources, after_mounts, after_gateway, after_params,
  follow_pod, watch_pod, confirm_gone, watch_sandbox, is_agent_ready, with_ready_agent, with_agent,
  shed_ready, reconcile_run, sandbox_gone, effective_ttl,
}

Agrees-condition_unknown :
    (p : Phase) → is_terminal_phase p ≡ false → Agrees p (some condition_unknown)
unfolding is_terminal_phase
Agrees-condition_unknown unset h = tt
Agrees-condition_unknown pending h = refl
Agrees-condition_unknown running h = refl
Agrees-condition_unknown succeeded h = cc
Agrees-condition_unknown failed h = cc

ready_not_succeeded : ◌≢◌ {A = String} "Ready" "Succeeded"
ready_not_succeeded = ground (arith, eq_iff "Ready" "Succeeded")

chosen_phase :
    (run chosen : AgentRun) (agent : Agent) (gs : List String)
    → choose_gateway run agent gs ≡ ok chosen
    → run.status.phase ≡ chosen.status.phase
unfolding choose_gateway
chosen_phase run chosen agent [] h = cc
chosen_phase run chosen agent (g ∷ []) h = ground arith
chosen_phase run chosen agent (g ∷ k ∷ gs) h = cc

allowed_phase :
    (run chosen : AgentRun) (agent : Agent) (gs : List String)
    → allow_gateway run agent gs ≡ ok chosen
    → run.status.phase ≡ chosen.status.phase
unfolding allow_gateway
allowed_phase run chosen agent [] h = ground arith
allowed_phase run chosen agent (g ∷ gs) h = ground arith

choose_gateway_keeps :
    (run chosen : AgentRun) (agent : Agent)
    → validate_gateway run agent ≡ ok chosen
    → run.status.phase ≡ chosen.status.phase
unfolding validate_gateway
choose_gateway_keeps run chosen agent h = elim (Bool-cases (run.spec.gateway == "")) [
  | inl e ↦ chosen_phase run chosen agent agent.gateways (rw e at h)
  | inr e ↦ allowed_phase run chosen agent agent.gateways (rw e at h)
]

module _ (c : RunCluster) where
  abbrev IsWritten : Option AgentRun → Type 0
  IsWritten none = Unit
  IsWritten (some run) = IsConsistent c.env.conditions run

  -- what is patched, if anything, is consistent
  record Patches (e : RunEffects) : Type 0 where
    written : IsWritten e.patched

  no_effect-Patches : (r : Reply) → Patches (no_effect r)
  no_effect-Patches r = record { written = tt }

  patch_then-Patches :
      (next : Reply) (run : AgentRun)
      → IsConsistent c.env.conditions run
      → Patches (patch_then c next run)
  unfolding patch_then
  patch_then-Patches next run h = record { written = h }

  fail_run-Patches : (run : AgentRun) (r : String) (m : Message) → Patches (fail_run c run r m)
  unfolding fail_run
  fail_run-Patches run r m =
      patch_then-Patches done _ (set_run_succeeded-IsConsistent c.env.conditions _ _ _ _ refl)

  wait_run-Patches :
      (run : AgentRun) (r : String) (m : Message) (next : Reply)
      → is_terminal_phase run.status.phase ≡ false
      → Patches (wait_run c run r m next)
  unfolding wait_run
  wait_run-Patches run r m next a = patch_then-Patches next _ (
      set_run_succeeded-IsConsistent c.env.conditions run _ _ _
        (Agrees-condition_unknown run.status.phase a))

  reconcile_run_ttl-Patches :
      (run : AgentRun) → IsConsistent c.env.conditions run → Patches (reconcile_run_ttl c run)
  unfolding reconcile_run_ttl expire_run patch_then
  reconcile_run_ttl-Patches run h = elim (Option-cases (effective_ttl c.default_ttl run)) [
    | inl e ↦ rw (e, reconcile_run_ttl) (no_effect-Patches done)
    | inr (ttl, e) ↦ elim (Option-cases run.status.completion_time) [
      | inl n ↦
          rw (e, n, reconcile_run_ttl) (patch_then-Patches done _ (record { agree = h.agree }))
      | inr (finished, f) ↦
          rw (e, f, reconcile_run_ttl)
            (if_elim Patches (ltb c.env.now (finished + ttl)) (no_effect-Patches _)
              (record { written = tt }))
    ]
  ]

  module _ (agent : Agent) where
    after_sandbox-Patches :
        (run : AgentRun) (r : Result SandboxError String)
        → is_terminal_phase run.status.phase ≡ false
        → Patches (after_sandbox c run agent r)
    unfolding after_sandbox
    after_sandbox-Patches run (err (gateway_not_found e)) a = wait_run-Patches run _ _ _ a
    after_sandbox-Patches run (err (creation_failed e)) a = wait_run-Patches run _ _ _ a
    after_sandbox-Patches run (ok name) a =
        patch_then-Patches done _ (set_run_succeeded-IsConsistent c.env.conditions _ _ _ _ refl)

    after_sources-Patches :
        (run : AgentRun) (params : c.Params) (o : Option SourceError)
        → is_terminal_phase run.status.phase ≡ false
        → Patches (after_sources c run agent params o)
    unfolding after_sources
    after_sources-Patches run params (some (lookup_error not_found m)) a =
        wait_run-Patches run _ _ _ a
    after_sources-Patches run params (some (lookup_error already_exists m)) a =
        wait_run-Patches run _ _ _ a
    after_sources-Patches run params (some (lookup_error (unavailable n) m)) a =
        wait_run-Patches run _ _ _ a
    after_sources-Patches run params (some (no_such_path m)) a = fail_run-Patches run _ _
    after_sources-Patches run params none a = after_sandbox-Patches run _ a

    after_mounts-Patches :
        (run : AgentRun) (params : c.Params) (o : Option Message)
        → is_terminal_phase run.status.phase ≡ false
        → Patches (after_mounts c run agent params o)
    unfolding after_mounts
    after_mounts-Patches run params (some m) a = fail_run-Patches run _ _
    after_mounts-Patches run params none a = after_sources-Patches run params _ a

    after_gateway-Patches :
        (run : AgentRun) (params : c.Params) (r : Result Message AgentRun)
        → is_terminal_phase run.status.phase ≡ false
        → validate_gateway run agent ≡ r
        → Patches (after_gateway c run agent params r)
    unfolding after_gateway
    after_gateway-Patches run params (err m) a h = fail_run-Patches run _ _
    after_gateway-Patches run params (ok chosen) a h =
        after_mounts-Patches chosen params _
          (subst (λ p. is_terminal_phase p ≡ false) (choose_gateway_keeps run chosen agent h) a)

    after_params-Patches :
        (run : AgentRun) (r : Result Message c.Params)
        → is_terminal_phase run.status.phase ≡ false
        → Patches (after_params c run agent r)
    unfolding after_params
    after_params-Patches run (err m) a = fail_run-Patches run _ _
    after_params-Patches run (ok params) a = after_gateway-Patches run params _ a refl

  module _ (run : AgentRun) (h : IsConsistent c.env.conditions run) where
    follow_pod-Patches :
        (sandbox : Sandbox) (pod : Option Pod) → Patches (follow_pod c run sandbox pod)
    unfolding follow_pod
    follow_pod-Patches sandbox pod =
        patch_then-Patches _ _ (update_phase_from_sandbox-IsConsistent c.env run sandbox pod h)

    watch_pod-Patches :
        (sandbox : Sandbox) (r : Result ApiError Pod) → Patches (watch_pod c run sandbox r)
    unfolding watch_pod
    watch_pod-Patches sandbox (ok pod) = follow_pod-Patches sandbox _
    watch_pod-Patches sandbox (err not_found) = follow_pod-Patches sandbox _
    watch_pod-Patches sandbox (err already_exists) = no_effect-Patches _
    watch_pod-Patches sandbox (err (unavailable m)) = no_effect-Patches _

    confirm_gone-Patches : (o : Option (Result ApiError Sandbox)) → Patches (confirm_gone c run o)
    unfolding confirm_gone sandbox_gone
    confirm_gone-Patches none = fail_run-Patches run _ _
    confirm_gone-Patches (some (ok sandbox)) = no_effect-Patches _
    confirm_gone-Patches (some (err not_found)) = fail_run-Patches run _ _
    confirm_gone-Patches (some (err already_exists)) = no_effect-Patches _
    confirm_gone-Patches (some (err (unavailable m))) = no_effect-Patches _

    watch_sandbox-Patches : (r : Result ApiError Sandbox) → Patches (watch_sandbox c run r)
    unfolding watch_sandbox
    watch_sandbox-Patches (ok sandbox) = watch_pod-Patches sandbox _
    watch_sandbox-Patches (err not_found) = confirm_gone-Patches _
    watch_sandbox-Patches (err already_exists) = no_effect-Patches _
    watch_sandbox-Patches (err (unavailable m)) = no_effect-Patches _

    with_agent-Patches :
        (r : Result ApiError Agent)
        → is_terminal_phase run.status.phase ≡ false
        → Patches (with_agent c run r)
    unfolding with_agent with_ready_agent
    with_agent-Patches (err not_found) a = fail_run-Patches run _ _
    with_agent-Patches (err already_exists) a = no_effect-Patches _
    with_agent-Patches (err (unavailable m)) a = no_effect-Patches _
    with_agent-Patches (ok agent) a =
        if_elim Patches (is_agent_ready c agent)
          (if_elim Patches (run.status.sandbox_name == "") (after_params-Patches agent run _ a)
            (watch_sandbox-Patches _))
          (wait_run-Patches run _ _ _ a)

  shed_ready-IsConsistent :
      (run : AgentRun)
      → IsConsistent c.env.conditions run
      → IsConsistent c.env.conditions (shed_ready c run)
  shed_ready-IsConsistent run h = record {
    agree =
        subst (λ f. Agrees run.status.phase (status_in f))
          (sym (
            c.env.conditions.find-remove_ne run.status.conditions "Ready" "Succeeded"
              ready_not_succeeded))
          h.agree;
  }

  observe_run-IsConsistent :
      (run : AgentRun)
      → IsConsistent c.env.conditions run
      → IsConsistent c.env.conditions (observe_run run)
  observe_run-IsConsistent run h = record { agree = h.agree }

  reconcile_run-Patches :
      (run : AgentRun) → IsConsistent c.env.conditions run → Patches (reconcile_run c run)
  unfolding reconcile_run
  reconcile_run-Patches run h = elim (Bool-cases (is_terminal_phase run.status.phase)) [
    | inl e ↦ rw e (reconcile_run_ttl-Patches (observe_run run) (observe_run-IsConsistent run h))
    | inr e ↦ rw e (
        with_agent-Patches (shed_ready c (observe_run run))
          (shed_ready-IsConsistent (observe_run run) (observe_run-IsConsistent run h)) _ e)
  ]

  -- Whatever the API server and the checks answer: where a run's phase and Succeeded condition agree,
  -- they agree in every status that a reconcile writes for it, True in Succeeded, False in Failed,
  -- Unknown in Pending and Running.
  pub reconcile_run-IsConsistent :
      (run written : AgentRun)
      → (reconcile_run c run).patched ≡ some written
      → IsConsistent c.env.conditions run
      → IsConsistent c.env.conditions written
  reconcile_run-IsConsistent run written q h =
      subst IsWritten q (reconcile_run-Patches run h).written
