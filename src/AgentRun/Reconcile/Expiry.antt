-- ===== src/AgentRun/Reconcile/Expiry.antt =====
-- When the AgentRun controller deletes a run, and what it still writes to a run that has ended.
use agentic_controller.Prelude.{◌+◌, ◌≡◌, Bool, true, false, ◌&&◌, none, some, Result, arith, leb}
use agentic_controller.Api.{AgentRun, Agent, ApiError, is_terminal_phase}
use agentic_controller.AgentRun.Reconcile.{
  RunCluster, observe_run, effective_ttl, patch_then, expire_run, reconcile_run_ttl, fail_run,
  wait_run, after_sandbox, after_sources, after_mounts, after_gateway, after_params, follow_pod,
  watch_pod, confirm_gone, watch_sandbox, with_ready_agent, with_agent, shed_ready, sandbox_gone,
  reconcile_run,
}

module _ (c : RunCluster) where
  deleted-after_params :
      (run : AgentRun) (agent : Agent) (r : _) → (after_params c run agent r).deleted ≡ false
  unfolding after_params after_gateway after_mounts after_sources after_sandbox fail_run wait_run
      patch_then
  deleted-after_params run agent r = ground arith

  deleted-watch_sandbox : (run : AgentRun) (r : _) → (watch_sandbox c run r).deleted ≡ false
  unfolding watch_sandbox confirm_gone sandbox_gone watch_pod follow_pod fail_run patch_then
  deleted-watch_sandbox run r = ground arith

  deleted-with_agent :
      (run : AgentRun) (r : Result ApiError Agent) → (with_agent c run r).deleted ≡ false
  unfolding with_agent with_ready_agent fail_run wait_run patch_then
  deleted-with_agent run r = grind (arith, deleted-after_params, deleted-watch_sandbox)

  -- the run has finished and its time to live has passed
  abbrev pub is_expired : AgentRun → Bool
  is_expired run = elim (effective_ttl c.default_ttl run) [
    | none ↦ false
    | some ttl ↦ elim run.status.completion_time [
      | none ↦ false
      | some finished ↦ leb (finished + ttl) c.env.now
    ]
  ]

  deleted-reconcile_run_ttl : (run : AgentRun) → (reconcile_run_ttl c run).deleted ≡ is_expired run
  unfolding reconcile_run_ttl expire_run patch_then
  deleted-reconcile_run_ttl run = ground arith

  -- A reconcile asks for a run's deletion exactly when the run is in a terminal phase, has an
  -- effective time to live and a completion time, and that time to live has passed since.
  pub deleted-reconcile_run :
      (run : AgentRun)
      → (reconcile_run c run).deleted ≡ (is_terminal_phase run.status.phase && is_expired run)
  unfolding reconcile_run effective_ttl
  deleted-reconcile_run run = ground (
    arith,
    deleted-reconcile_run_ttl (observe_run run),
    deleted-with_agent (shed_ready c (observe_run run)) (c.get_agent run.spec.agent_ref),
  )

  -- To a run in a terminal phase a reconcile writes nothing but the generation that it has seen and,
  -- where the run has none, the completion time.
  pub reconcile_run-terminal :
      (run written : AgentRun)
      → is_terminal_phase run.status.phase ≡ true
      → (reconcile_run c run).patched ≡ some written
      → (run.status.completion_time ≡ none)
        × (written ≡ record run {
          status = record run.status {
            observed_generation = run.meta.generation;
            completion_time = some c.env.now;
          };
        })
  unfolding reconcile_run reconcile_run_ttl expire_run patch_then
  reconcile_run-terminal run written t h = ground arith
