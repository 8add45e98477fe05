-- ===== src/AgentRun/Histories.antt =====
-- Whole histories of an AgentRun: any number of reconciles, each with surroundings that answer as they
-- like.
use agentic_controller.Prelude.{◌≡◌, refl, ◌∙◌, ap, true, some}
use agentic_controller.Api.{AgentRun, StatusConditions, is_terminal_phase}
use agentic_controller.AgentRun.Reconcile.{RunCluster, reconcile_run}
use agentic_controller.AgentRun.Reconcile.Consistent.{reconcile_run-IsConsistent}
use agentic_controller.AgentRun.Reconcile.Expiry.{reconcile_run-terminal}
use agentic_controller.AgentRun.Lifecycle.{IsConsistent}

-- the surroundings whose functions on conditions are these
abbrev pub with_conditions : StatusConditions → RunCluster → RunCluster
with_conditions ops c = record c { env = record c.env { conditions = ops } }

-- the run once a patch of its status is stored; a patch does not touch the spec
abbrev pub store_run : AgentRun → AgentRun → AgentRun
store_run run written = record run { status = written.status }

-- `RunHistory ops run r`: some sequence of reconciles leads from `run` to `r`.
pub data RunHistory (ops : StatusConditions) (run : AgentRun) : AgentRun → Type 1 where
  created : RunHistory ops run run
  reconciled :
      {r : AgentRun} (c : RunCluster) (written : AgentRun)
      → RunHistory ops run r
      → (reconcile_run (with_conditions ops c) r).patched ≡ some written
      → RunHistory ops run (store_run r written)

-- From a run whose phase and Succeeded condition agree, as a new run's do, every sequence of
-- reconciles, whatever the surroundings of its steps answer, leads to a run whose phase and
-- Succeeded condition agree.
pub RunHistory-IsConsistent :
    (ops : StatusConditions) (run r : AgentRun)
    → RunHistory ops run r
    → IsConsistent ops run
    → IsConsistent ops r
RunHistory-IsConsistent ops run r created h = h
RunHistory-IsConsistent ops run r (reconciled {r = q} c written before e) h =
    let w =
      reconcile_run-IsConsistent (with_conditions ops c) q written e
        (RunHistory-IsConsistent ops run q before h) in
    record { agree = w.agree }

-- what a run that has ended keeps
pub record HasEnded (run r : AgentRun) : Type 0 where
  pub phase : r.status.phase ≡ run.status.phase
  pub conditions : r.status.conditions ≡ run.status.conditions
  pub termination_data : r.status.termination_data ≡ run.status.termination_data
  pub start_time : r.status.start_time ≡ run.status.start_time

-- Once a run is in a terminal phase, every sequence of reconciles leaves its phase, its conditions, its
-- termination data and its start time as they are.
pub RunHistory-HasEnded :
    (ops : StatusConditions) (run r : AgentRun)
    → RunHistory ops run r
    → is_terminal_phase run.status.phase ≡ true
    → HasEnded run r
RunHistory-HasEnded ops run r created t = record {
  phase = refl;
  conditions = refl;
  termination_data = refl;
  start_time = refl;
}
RunHistory-HasEnded ops run r (reconciled {r = q} c written before e) t =
    let k = RunHistory-HasEnded ops run q before t in
    let w =
      (reconcile_run-terminal (with_conditions ops c) q written (ap is_terminal_phase k.phase ∙ t)
        e).1 in
    record {
      phase = ap (λ (x : AgentRun). x.status.phase) w ∙ k.phase;
      conditions = ap (λ (x : AgentRun). x.status.conditions) w ∙ k.conditions;
      termination_data = ap (λ (x : AgentRun). x.status.termination_data) w ∙ k.termination_data;
      start_time = ap (λ (x : AgentRun). x.status.start_time) w ∙ k.start_time;
    }
