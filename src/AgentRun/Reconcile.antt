-- ===== src/AgentRun/Reconcile.antt =====
-- `Reconcile` and `reconcileTTL` of internal/controller/agentrun_controller.go, for a run that is
-- there. The making of the Sandbox, the look at the mounts' sources and the building of the
-- parameters are asked of `RunCluster`.
pub mod Consistent
pub mod Expiry
use agentic_controller.Prelude.{
  ℕ, ◌+◌, ◌-◌, String, Bool, true, false, not, Option, none, some, List, Result, ok, err, ◌==◌, ltb,
  if◌then◌else◌,
}
use agentic_controller.Api.{
  AgentRun, AgentRunStatus, Agent, FileMount, Phase, pending, failed, is_terminal_phase, Condition,
  condition_true, condition_false, condition_unknown, is_condition_true, ApiError, not_found,
  already_exists, unavailable, Message, text, format1, format2, is_empty, Reply, done, fail_with,
}
use agentic_controller.AgentRun.Pod.{Pod, Sandbox}
use agentic_controller.AgentRun.Status.{set_phase, set_run_succeeded}
use agentic_controller.AgentRun.Phase.{Env, seconds, update_phase_from_sandbox}
use agentic_controller.AgentRun.FileMounts.{validate_file_mounts}
use agentic_controller.AgentRun.Admission.{validate_params, validate_gateway}

-- Why `createSandbox` fails: the named Gateway is not there, or otherwise.
pub data SandboxError : Type 0 where
  gateway_not_found : Message → SandboxError
  creation_failed : Message → SandboxError

-- Why the look at the mounts' sources fails: an error that is retried, with its wrapped text, or a path
-- that no source has.
pub data SourceError : Type 0 where
  lookup_error : ApiError → Message → SourceError
  no_such_path : Message → SourceError

-- What a reconcile is given besides `Env`. `Params` is the params.json content with the substitution
-- scopes, which is passed on unread; `direct_sandbox` is the answer of the uncached reader, `none`
-- where there is none.
pub record RunCluster : Type 1 where
  pub env : Env
  pub Params : Type 0
  pub default_ttl : Option ℕ
  pub get_agent : String → Result ApiError Agent
  pub build_params : AgentRun → Agent → Result Message Params
  pub file_mount_sources : AgentRun → Option SourceError
  pub create_sandbox : AgentRun → Agent → Params → Result SandboxError String
  pub get_sandbox : String → Result ApiError Sandbox
  pub direct_sandbox : Option (String → Result ApiError Sandbox)
  pub get_pod : String → Result ApiError Pod
  pub patch_error : Option ApiError
  pub delete_error : Option ApiError

-- What one reconcile does: the run whose status it patches, whether it asks for the run's deletion,
-- and its reply.
pub record RunEffects : Type 0 where
  pub patched : Option AgentRun
  pub deleted : Bool
  pub reply : Reply

abbrev pub no_effect : Reply → RunEffects
no_effect r = record { patched = none; deleted = false; reply = r }

unfoldable pub effective_ttl : Option ℕ → AgentRun → Option ℕ
effective_ttl default_ttl run = elim run.spec.ttl_seconds_after_finished [
  | some s ↦ some (seconds s)
  | none ↦ default_ttl
]

abbrev pub observe_run : AgentRun → AgentRun
observe_run run = record run {
  status = record run.status { observed_generation = run.meta.generation };
}

module _ (c : RunCluster) where
  -- the reply of a patch that is followed by `next`
  reply_after : Reply → Reply
  reply_after next = elim c.patch_error [ none ↦ next | some e ↦ fail_with e ]

  unfoldable pub patch_then : Reply → AgentRun → RunEffects
  unfolding reply_after
  patch_then next run = record { patched = some run; deleted = false; reply = reply_after next }

  -- a run that is gone already counts as deleted
  ignore_not_found : Option ApiError → Reply
  ignore_not_found none = done
  ignore_not_found (some not_found) = done
  ignore_not_found (some e) = fail_with e

  unfoldable pub expire_run : AgentRun → ℕ → ℕ → RunEffects
  unfolding ignore_not_found
  expire_run run ttl finished =
      if ltb c.env.now (finished + ttl)
      then no_effect
          (record { requeue = false; requeue_after = finished + ttl - c.env.now; error = none })
      else record { patched = none; deleted = true; reply = ignore_not_found c.delete_error }

  unfoldable pub reconcile_run_ttl : AgentRun → RunEffects
  unfolding expire_run patch_then
  reconcile_run_ttl run = elim (effective_ttl c.default_ttl run) [
    | none ↦ no_effect done
    | some ttl ↦ elim run.status.completion_time [
      | none ↦
          patch_then done
            (record run { status = record run.status { completion_time = some c.env.now } })
      | some finished ↦ expire_run run ttl finished
    ]
  ]

  -- a permanent configuration error
  unfoldable pub fail_run : AgentRun → String → Message → RunEffects
  unfolding patch_then
  fail_run run reason message =
      patch_then done
        (set_run_succeeded c.env.conditions (set_phase run failed) condition_false reason message)

  -- an error that is retried: the condition says why the run waits, then the error is returned
  unfoldable pub wait_run : AgentRun → String → Message → Reply → RunEffects
  unfolding patch_then
  wait_run run reason message next =
      patch_then next (set_run_succeeded c.env.conditions run condition_unknown reason message)

  unfoldable pub after_sandbox : AgentRun → Agent → Result SandboxError String → RunEffects
  unfolding wait_run patch_then
  after_sandbox run agent (err (gateway_not_found e)) =
      wait_run run "GatewayNotFound"
        (format1 "Gateway %q not found; waiting for it to be created" (text run.spec.gateway))
        (fail_with (unavailable e))
  after_sandbox run agent (err (creation_failed e)) =
      wait_run run "SandboxCreationFailed"
        (format2 "Failed to create Sandbox for Agent %q: %v" (text agent.name) e)
        (fail_with (unavailable e))
  after_sandbox run agent (ok name) = patch_then done (
      set_run_succeeded c.env.conditions
        (record run { status = record run.status { sandbox_name = name; phase = pending } })
        condition_unknown "SandboxCreated" (format1 "Sandbox %q created" (text name)))

  unfoldable pub after_sources : AgentRun → Agent → c.Params → Option SourceError → RunEffects
  unfolding wait_run fail_run after_sandbox
  after_sources run agent params (some (lookup_error not_found m)) =
      wait_run run "FileMountSourceNotFound" m (fail_with not_found)
  after_sources run agent params (some (lookup_error e m)) =
      wait_run run "FileMountSourceUnavailable" m (fail_with e)
  after_sources run agent params (some (no_such_path m)) = fail_run run "InvalidFileMounts" m
  after_sources run agent params none = after_sandbox run agent (c.create_sandbox run agent params)

  unfoldable pub after_mounts : AgentRun → Agent → c.Params → Option Message → RunEffects
  unfolding fail_run after_sources
  after_mounts run agent params (some m) = fail_run run "InvalidFileMounts" m
  after_mounts run agent params none = after_sources run agent params (c.file_mount_sources run)

  unfoldable pub after_gateway : AgentRun → Agent → c.Params → Result Message AgentRun → RunEffects
  unfolding fail_run after_mounts
  after_gateway run agent params (err m) = fail_run run "InvalidGateway" m
  after_gateway run agent params (ok chosen) =
      after_mounts chosen agent params (validate_file_mounts chosen.spec.file_mounts)

  unfoldable pub after_params : AgentRun → Agent → Result Message c.Params → RunEffects
  unfolding fail_run after_gateway
  after_params run agent (err m) = fail_run run "InvalidParams" m
  after_params run agent (ok params) = after_gateway run agent params (validate_gateway run agent)

  unfoldable pub follow_pod : AgentRun → Sandbox → Option Pod → RunEffects
  unfolding patch_then
  follow_pod run sandbox pod =
      let (updated, requeue_after) = update_phase_from_sandbox c.env run sandbox pod in
      patch_then (record { requeue = false; requeue_after = requeue_after; error = none }) updated

  unfoldable pub watch_pod : AgentRun → Sandbox → Result ApiError Pod → RunEffects
  unfolding follow_pod
  watch_pod run sandbox (ok pod) = follow_pod run sandbox (some pod)
  watch_pod run sandbox (err not_found) = follow_pod run sandbox none
  watch_pod run sandbox (err e) = no_effect (fail_with e)

  unfoldable pub sandbox_gone : AgentRun → RunEffects
  unfolding fail_run
  sandbox_gone run =
      fail_run run "SandboxNotFound"
        (format1 "Sandbox %q was deleted" (text run.status.sandbox_name))

  -- A cache miss is not enough: the uncached reader has to confirm it.
  unfoldable pub confirm_gone : AgentRun → Option (Result ApiError Sandbox) → RunEffects
  unfolding sandbox_gone
  confirm_gone run none = sandbox_gone run
  confirm_gone run (some (ok sandbox)) =
      no_effect (record { requeue = true; requeue_after = 0; error = none })
  confirm_gone run (some (err not_found)) = sandbox_gone run
  confirm_gone run (some (err e)) = no_effect (fail_with e)

  abbrev pub direct_answer : AgentRun → Option (Result ApiError Sandbox)
  direct_answer run = elim c.direct_sandbox [
    | none ↦ none
    | some read ↦ some (read run.status.sandbox_name)
  ]

  unfoldable pub watch_sandbox : AgentRun → Result ApiError Sandbox → RunEffects
  unfolding watch_pod confirm_gone
  watch_sandbox run (ok sandbox) = watch_pod run sandbox (c.get_pod run.status.sandbox_name)
  watch_sandbox run (err not_found) = confirm_gone run (direct_answer run)
  watch_sandbox run (err e) = no_effect (fail_with e)

  unfoldable pub is_agent_ready : Agent → Bool
  is_agent_ready agent = elim (c.env.conditions.find agent.conditions "Ready") [
    | none ↦ false
    | some condition ↦ is_condition_true condition.status
  ]

  -- a run whose Agent is Ready: it is admitted once, then its Sandbox is followed
  unfoldable pub with_ready_agent : AgentRun → Agent → RunEffects
  unfolding after_params watch_sandbox
  with_ready_agent run agent =
      if run.status.sandbox_name == ""
      then after_params run agent (validate_params c.build_params run agent)
      else watch_sandbox run (c.get_sandbox run.status.sandbox_name)

  unfoldable pub with_agent : AgentRun → Result ApiError Agent → RunEffects
  unfolding fail_run wait_run with_ready_agent is_agent_ready
  with_agent run (err not_found) =
      fail_run run "AgentNotFound" (format1 "Agent %q not found" (text run.spec.agent_ref))
  with_agent run (err e) = no_effect (fail_with e)
  with_agent run (ok agent) =
      if is_agent_ready agent
      then with_ready_agent run agent
      else wait_run run "AgentNotReady" (format1 "Agent %q is not Ready" (text run.spec.agent_ref))
          done

  -- runs of an earlier version had a Ready condition
  abbrev pub shed_ready : AgentRun → AgentRun
  shed_ready run = record run {
    status = record run.status {
      conditions = c.env.conditions.remove run.status.conditions "Ready";
    };
  }

  unfoldable pub reconcile_run : AgentRun → RunEffects
  unfolding reconcile_run_ttl with_agent
  reconcile_run run =
      let observed = observe_run run in
      if is_terminal_phase run.status.phase
      then reconcile_run_ttl observed
      else with_agent (shed_ready observed) (c.get_agent run.spec.agent_ref)
