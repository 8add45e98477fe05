-- ===== src/AgentRun/Lifecycle.antt =====
-- The phase of a run and its Succeeded condition agree, and the phase only moves forward.
use agentic_controller.Prelude.{
  ℕ, String, ◌≡◌, refl, sym, ◌≢◌, inl, inr, Bool, Option, none, some, arith, eq_iff, Option-cases,
  if_elim,
}
use mathlib.Core.Path.{subst}
use agentic_controller.Api.{
  AgentRun, Phase, unset, pending, running, succeeded, failed, Message, Condition, ConditionStatus,
  condition_true, condition_false, condition_unknown, StatusConditions,
}
use agentic_controller.AgentRun.Pod.{Pod, Sandbox, pod_startup_problem}
use agentic_controller.AgentRun.Status.{
  set_condition, set_run_succeeded, set_terminal_outcome, outcome_of_exit, stamp_completion,
}
use agentic_controller.AgentRun.Phase.{
  Env, finished_reason, finish_run, follow_sandbox, update_phase_from_sandbox, start_run,
  start_running, await_pod, keep_pending, pod_overdue, set_acp_ready, unless_running,
}

abbrev pub status_in : Option Condition → Option ConditionStatus
status_in none = none
status_in (some c) = some c.status

-- what the Succeeded condition says in each phase
abbrev pub Agrees : Phase → Option ConditionStatus → Type 0
Agrees unset s = Unit
Agrees pending s = s ≡ some condition_unknown
Agrees running s = s ≡ some condition_unknown
Agrees succeeded s = s ≡ some condition_true
Agrees failed s = s ≡ some condition_false

module _ (ops : StatusConditions) where
  -- the status of the Succeeded condition of a run
  abbrev pub succeeded_status : AgentRun → Option ConditionStatus
  succeeded_status run = status_in (ops.find run.status.conditions "Succeeded")

  pub record IsConsistent (run : AgentRun) : Type 0 where
    pub agree : Agrees run.status.phase (succeeded_status run)

  pub set_run_succeeded-IsConsistent :
      (run : AgentRun) (s : ConditionStatus) (r : String) (m : Message)
      → Agrees run.status.phase (some s)
      → IsConsistent (set_run_succeeded ops run s r m)
  unfolding set_run_succeeded
  set_run_succeeded-IsConsistent run s r m h = record { agree = rw ops.find-set_self h }

  pub set_condition-IsConsistent :
      (run : AgentRun) (t : String) (s : ConditionStatus) (r : String) (m : Message)
      → t ≢ "Succeeded"
      → IsConsistent run
      → IsConsistent (set_condition ops run t s r m)
  set_condition-IsConsistent run t s r m h k = record {
    agree =
        subst (λ f. Agrees run.status.phase (status_in f))
          (sym (ops.find-set_ne run.status.conditions _ "Succeeded" h)) k.agree;
  }

  -- every exit of a finished run, with or without an exit code
  pub outcome_of_exit-IsConsistent :
      (run : AgentRun) (n : ℕ) (b : Bool) (r m : String)
      → IsConsistent (outcome_of_exit ops run n b r m)
  unfolding outcome_of_exit
  outcome_of_exit-IsConsistent run n b r m =
      search (if_elim IsConsistent, set_run_succeeded-IsConsistent)

pub acp_not_succeeded : ◌≢◌ {A = String} "ACPReady" "Succeeded"
acp_not_succeeded = ground (arith, eq_iff "ACPReady" "Succeeded")

module _ (env : Env) where
  finish_run-IsConsistent :
      (run : AgentRun) (sandbox : Sandbox) (pod : Option Pod) (r : String)
      → IsConsistent env.conditions (finish_run env run sandbox pod r)
  unfolding finish_run set_terminal_outcome
  finish_run-IsConsistent run sandbox pod r = outcome_of_exit-IsConsistent env.conditions _ _ _ _ _

  await_pod-IsConsistent :
      (run : AgentRun) (sandbox : Sandbox) (pod : Option Pod) (d : Option ℕ)
      → IsConsistent env.conditions (await_pod env run sandbox pod d).0
  unfolding await_pod keep_pending pod_overdue stamp_completion
  await_pod-IsConsistent run sandbox pod none =
      set_run_succeeded-IsConsistent env.conditions _ _ _ _ refl
  await_pod-IsConsistent run sandbox pod (some d) = search (
    if_elim (λ (r : AgentRun × ℕ). IsConsistent env.conditions r.0),
    set_run_succeeded-IsConsistent,
  )

  start_run-IsConsistent :
      (run : AgentRun) (sandbox : Sandbox) (pod : Option Pod)
      → IsConsistent env.conditions (start_run env run sandbox pod).0
  unfolding start_run start_running stamp_completion
  start_run-IsConsistent run sandbox pod = elim (Option-cases (pod_startup_problem pod)) [
    | inl e ↦
        rw (e, start_run)
          (search (
            if_elim (λ (r : AgentRun × ℕ). IsConsistent env.conditions r.0),
            set_run_succeeded-IsConsistent,
            await_pod-IsConsistent,
          ))
    | inr (p, e) ↦ rw (e, start_run) (set_run_succeeded-IsConsistent env.conditions _ _ _ _ refl)
  ]

  set_acp_ready-IsConsistent :
      (run : AgentRun) (sandbox : Sandbox) (ready : Option Condition)
      → IsConsistent env.conditions run
      → IsConsistent env.conditions (set_acp_ready env run sandbox ready)
  unfolding set_acp_ready
  set_acp_ready-IsConsistent run sandbox none h =
      set_condition-IsConsistent env.conditions run _ _ _ _ acp_not_succeeded h
  set_acp_ready-IsConsistent run sandbox (some c) h =
      let ready = λ (s : ConditionStatus) (r : String) (m : Message).
        set_condition-IsConsistent env.conditions run "ACPReady" s r m acp_not_succeeded h in
      search (if_elim (IsConsistent env.conditions), ready)

  unless_running-IsConsistent :
      (p : Phase) (run : AgentRun) (sandbox : Sandbox) (pod : Option Pod)
      → IsConsistent env.conditions run
      → IsConsistent env.conditions (unless_running env p run sandbox pod).0
  unfolding unless_running
  unless_running-IsConsistent running run sandbox pod h = h
  unless_running-IsConsistent _ run sandbox pod h = start_run-IsConsistent run sandbox pod

  follow_sandbox-IsConsistent :
      (r : Option String) (run : AgentRun) (sandbox : Sandbox) (pod : Option Pod)
      → IsConsistent env.conditions run
      → IsConsistent env.conditions (follow_sandbox env r run sandbox pod).0
  unfolding follow_sandbox
  follow_sandbox-IsConsistent (some r) run sandbox pod h = finish_run-IsConsistent run sandbox pod r
  follow_sandbox-IsConsistent none run sandbox pod h =
      unless_running-IsConsistent _ _ sandbox pod (set_acp_ready-IsConsistent run sandbox _ h)

  -- Whatever the Sandbox and its pod show, a run whose phase and Succeeded condition agree still has
  -- them agree after the update: True in Succeeded, False in Failed, Unknown in Pending and Running.
  pub update_phase_from_sandbox-IsConsistent :
      (run : AgentRun) (sandbox : Sandbox) (pod : Option Pod)
      → IsConsistent env.conditions run
      → IsConsistent env.conditions (update_phase_from_sandbox env run sandbox pod).0
  unfolding update_phase_from_sandbox
  update_phase_from_sandbox-IsConsistent run sandbox pod h =
      follow_sandbox-IsConsistent (finished_reason sandbox.conditions) run sandbox pod h
