-- ===== src/AgentRun/Deadline.antt =====
-- The startup deadline: a run that waits for its pod is looked at again, and then fails.
use agentic_controller.Prelude.{
  ℕ, suc, String, ◌+◌, ◌≡◌, refl, ap, ◌∙◌, Option, none, some, arith, Option-cases, Bool-cases, inl,
  inr,
}
use agentic_controller.Api.{AgentRun, Phase, unset, pending, running, succeeded, failed, Condition}
use agentic_controller.AgentRun.Pod.{Pod, Sandbox, pod_startup_problem}
use agentic_controller.AgentRun.Status.{set_run_succeeded, stamp_completion}
use agentic_controller.AgentRun.Phase.{
  Env, effective_startup_deadline, finished_reason, follow_sandbox, update_phase_from_sandbox,
  start_run, await_pod, keep_pending, pod_overdue, set_acp_ready, unless_running, start_running,
  is_running,
}

-- the same controller, some time later
abbrev pub later : Env → ℕ → Env
later env n = record env { now = env.now + n }

zero_suc : {n : ℕ} → 0 ≡ suc n → ⊥
zero_suc e = cc

module _ (env : Env) (r : ℕ) (sandbox : Sandbox) (pod : Option Pod) where
  await_pod-later :
      (run again : AgentRun) (d : Option ℕ)
      → (await_pod env run sandbox pod d).1 ≡ suc r
      → ((await_pod env run sandbox pod d).0.status.phase ≡ pending)
        × ((await_pod env run sandbox pod d).0.spec ≡ run.spec)
        × ((await_pod (later env (suc r)) again sandbox pod d).0.status.phase ≡ failed)
  unfolding await_pod keep_pending pod_overdue set_run_succeeded stamp_completion
  await_pod-later run again none h = cc
  await_pod-later run again (some d) h = ground arith

  deadline_kept :
      (run again : AgentRun)
      → again.spec ≡ run.spec
      → effective_startup_deadline env.default_startup_deadline again
        ≡ effective_startup_deadline env.default_startup_deadline run
  unfolding effective_startup_deadline
  deadline_kept run again e = rw e refl

  start_run-later :
      (run again : AgentRun)
      → (start_run env run sandbox pod).1 ≡ suc r
      → again.spec ≡ run.spec
      → ((start_run env run sandbox pod).0.status.phase ≡ pending)
        × ((start_run env run sandbox pod).0.spec ≡ run.spec)
        × ((start_run (later env (suc r)) again sandbox pod).0.status.phase ≡ failed)
  unfolding start_run start_running
  start_run-later run again h e =
      let d = effective_startup_deadline env.default_startup_deadline run in
      elim (Option-cases (pod_startup_problem pod)) [
        | inr (p, q) ↦ absurd (zero_suc (rw (q, start_run) at h))
        | inl q ↦ elim (Bool-cases (is_running env pod)) [
          | inl b ↦ absurd (zero_suc (rw (q, b, start_run) at h))
          | inr b ↦
              rw (q, b, deadline_kept run again e, start_run)
                (await_pod-later run again d (rw (q, b, start_run) at h))
        ]
      ]

  kept_by_acp :
      (env2 : Env) (run : AgentRun) (o : Option Condition)
      → ((set_acp_ready env2 run sandbox o).spec ≡ run.spec)
        × ((set_acp_ready env2 run sandbox o).status.phase ≡ run.status.phase)
  unfolding set_acp_ready
  kept_by_acp env2 run none = (refl, refl)
  kept_by_acp env2 run (some c) = ground arith

  unless_pending :
      (p : Phase) (env2 : Env) (run : AgentRun)
      → p ≡ pending
      → unless_running env2 p run sandbox pod ≡ start_run env2 run sandbox pod
  unfolding unless_running
  unless_pending unset env2 run e = cc
  unless_pending pending env2 run e = refl
  unless_pending running env2 run e = cc
  unless_pending succeeded env2 run e = cc
  unless_pending failed env2 run e = cc

  unless_running-later :
      (p : Phase) (run again : AgentRun)
      → (unless_running env p run sandbox pod).1 ≡ suc r
      → again.spec ≡ run.spec
      → ((unless_running env p run sandbox pod).0.status.phase ≡ pending)
        × ((unless_running env p run sandbox pod).0.spec ≡ run.spec)
        × ((start_run (later env (suc r)) again sandbox pod).0.status.phase ≡ failed)
  unfolding unless_running
  unless_running-later running run again h e = absurd (zero_suc h)
  unless_running-later unset run again h e = start_run-later run again h e
  unless_running-later pending run again h e = start_run-later run again h e
  unless_running-later succeeded run again h e = start_run-later run again h e
  unless_running-later failed run again h e = start_run-later run again h e

  follow_sandbox-later :
      (run : AgentRun) (f : Option String)
      → (follow_sandbox env f run sandbox pod).1 ≡ suc r
      → (follow_sandbox
          (later env (suc r))
          f
          (follow_sandbox env f run sandbox pod).0
          sandbox
          pod).0.status.phase
        ≡ failed
  unfolding follow_sandbox
  follow_sandbox-later run (some reason) h = absurd (zero_suc h)
  follow_sandbox-later run none h =
      let ready = env.conditions.find sandbox.conditions "Ready" in
      let reported = set_acp_ready env run sandbox ready in
      let waiting = unless_running-later reported.status.phase reported in
      let kept = (waiting reported h refl) in
      let first = (unless_running env reported.status.phase reported sandbox pod).0 in
      let second = kept_by_acp (later env (suc r)) first ready in
      let again = set_acp_ready (later env (suc r)) first sandbox ready in
      ap (λ (x : AgentRun × ℕ). x.0.status.phase)
        (unless_pending again.status.phase (later env (suc r)) again (second.1 ∙ kept.0))
      ∙ (waiting again h (second.0 ∙ kept.1)).2

-- The look that is asked for after a time is enough: if an update of a run asks to be repeated after
-- a time, then repeated after that time, with the Sandbox and the pod unchanged, it fails the run.
pub update_phase_from_sandbox-later :
    (env : Env) (r : ℕ) (run : AgentRun) (sandbox : Sandbox) (pod : Option Pod)
    → (update_phase_from_sandbox env run sandbox pod).1 ≡ suc r
    → (update_phase_from_sandbox
        (later env (suc r))
        (update_phase_from_sandbox env run sandbox pod).0
        sandbox
        pod).0.status.phase
      ≡ failed
unfolding update_phase_from_sandbox
update_phase_from_sandbox-later env r run sandbox pod h =
    follow_sandbox-later env r sandbox pod run (finished_reason sandbox.conditions) h
