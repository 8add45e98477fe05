-- ===== src/Examples/Controllers.antt =====
-- Whole reconciles of an AgentRun, and the clean-up after one.
use agentic_controller.Prelude.{String, suc, ◌≡◌, refl, true, none, some, [], ◌∷◌, ok, err, All}
use agentic_controller.Api.{
  AgentRun, FileMount, not_found, succeeded, failed, is_terminal_phase, ObjectMeta,
}
use agentic_controller.Api.Sample.{list_conditions}
use agentic_controller.AgentRun.Pod.{pod_startup_problem}
use agentic_controller.AgentRun.Phase.{
  update_phase_from_sandbox, finished_reason, unless_running, start_run, await_pod,
  effective_startup_deadline, set_acp_ready,
}
use agentic_controller.AgentRun.Lifecycle.{IsConsistent}
use agentic_controller.AgentRun.Deadline.{later, update_phase_from_sandbox-later}
use agentic_controller.AgentRun.Reconcile.{
  RunCluster, reconcile_run, reconcile_run_ttl, effective_ttl, patch_then, with_agent, fail_run,
}
use agentic_controller.AgentRun.Reconcile.Consistent.{reconcile_run-IsConsistent}
use agentic_controller.Text.{codes, has_prefix, equal_texts}
use agentic_controller.AgentRun.FileMounts.{
  validate_file_mounts, source_error, absolute_error, is_abs, collision_error, colliding,
  items_error, paths_collide, is_ancestor_or_equal, clean, split_path,
}
use agentic_controller.AgentRun.FileMounts.Safe.{IsSound, IsApart, validate_file_mounts-IsApart}
use agentic_controller.AgentRun.Histories.{
  created, reconciled, store_run, HasEnded, RunHistory-HasEnded,
}
use agentic_controller.Cleanup.{Store, cleanup_orphaned_run_resources, finalize}
use agentic_controller.Cleanup.Ownership.{is_deletable, deleted-finalize}
use agentic_controller.Examples.AgentRuns.{env, run, sandbox, starting}

-- an API server on which the Agent is gone
abbrev cluster : RunCluster
cluster = record {
  env = env;
  Params = Unit;
  default_ttl = some 20;
  get_agent = λ name. err not_found;
  build_params = λ r a. ok tt;
  file_mount_sources = λ r. none;
  create_sandbox = λ r a p. ok r.meta.name;
  get_sandbox = λ name. err not_found;
  direct_sandbox = none;
  get_pod = λ name. err not_found;
  patch_error = none;
  delete_error = none;
}

abbrev written_for : AgentRun → AgentRun
written_for r = elim (reconcile_run cluster r).patched [ some w ↦ w | none ↦ r ]

reconcile_run-patched : (reconcile_run cluster run).patched ≡ some (written_for run)
unfolding reconcile_run is_terminal_phase with_agent fail_run patch_then
reconcile_run-patched = refl

run-agrees : IsConsistent list_conditions run
run-agrees = record { agree = refl }

reconcile_run-IsConsistent_example : IsConsistent list_conditions (written_for run)
reconcile_run-IsConsistent_example =
    reconcile_run-IsConsistent cluster run (written_for run) reconcile_run-patched run-agrees

-- a run that failed before it had a Sandbox
abbrev failed_run : AgentRun
failed_run = record run { status = record run.status { phase = failed } }

reconcile_run-stamped : (reconcile_run cluster failed_run).patched ≡ some (written_for failed_run)
unfolding reconcile_run is_terminal_phase reconcile_run_ttl effective_ttl patch_then
reconcile_run-stamped = refl

failed_run-terminal : is_terminal_phase failed_run.status.phase ≡ true
unfolding is_terminal_phase
failed_run-terminal = refl

-- a run that finished long ago
abbrev old_run : AgentRun
old_run = record run { status = record run.status { phase = succeeded; completion_time = some 30 } }

-- the Sandbox was made at 50, the deadline is 60, and it is 100
starting-requeue : (update_phase_from_sandbox env run (sandbox []) (some starting)).1 ≡ suc 9
unfolding update_phase_from_sandbox finished_reason unless_running set_acp_ready start_run
    pod_startup_problem await_pod effective_startup_deadline
starting-requeue = refl

update_phase_from_sandbox-later_example :
    (update_phase_from_sandbox
      (later env 10)
      (update_phase_from_sandbox env run (sandbox []) (some starting)).0
      (sandbox [])
      (some starting)).0.status.phase
    ≡ failed
update_phase_from_sandbox-later_example =
    update_phase_from_sandbox-later env 9 run (sandbox []) (some starting) starting-requeue

-- a ConfigMap that another controller owns
abbrev foreign : ObjectMeta
foreign = record {
  name = "cm";
  namespace = "ns";
  uid = "u3";
  generation = 1;
  labels = [];
  owner_references =
      record { api_version = "v1"; kind = "Other"; name = "x"; uid = "u4"; controller = true } ∷ [];
}

abbrev orphan : ObjectMeta
orphan = record foreign { owner_references = [] }

abbrev store : Store
store = record {
  sandbox_api_version = "agents.x-k8s.io/v1beta1";
  list = λ kind. ok (foreign ∷ orphan ∷ []);
  get_sandbox = λ name. err not_found;
  delete = λ kind o. none;
}

deleted-finalize_example :
    All
      (λ d. is_deletable store "run" d ≡ true)
      (finalize (cleanup_orphaned_run_resources store) "run" (some (some not_found))).0.deleted
deleted-finalize_example = deleted-finalize store "run" (some (some not_found))

abbrev mount : String → FileMount
mount path = record {
  secret_name = "creds";
  config_map_name = "";
  mount_path = codes path;
  sub_path = [];
  items = [];
}

mounts-accepted : validate_file_mounts (mount "/etc/a" ∷ mount "/etc/b" ∷ []) ≡ none
unfolding validate_file_mounts source_error absolute_error is_abs has_prefix collision_error
    colliding items_error paths_collide is_ancestor_or_equal equal_texts clean split_path
mounts-accepted = refl

validate_file_mounts-IsApart_example :
    All IsSound (mount "/etc/a" ∷ mount "/etc/b" ∷ [])
    × IsApart (mount "/etc/a" ∷ mount "/etc/b" ∷ [])
validate_file_mounts-IsApart_example =
    validate_file_mounts-IsApart (mount "/etc/a" ∷ mount "/etc/b" ∷ []) mounts-accepted

-- `path.Clean` on some paths
clean-parent : clean (codes "/opt/x/../skills/.") ≡ codes "/opt/skills"
unfolding clean is_abs has_prefix split_path equal_texts
clean-parent = refl

clean-relative : clean (codes "../a//b/") ≡ codes "../a/b"
unfolding clean is_abs has_prefix split_path equal_texts
clean-relative = refl

clean-empty : clean [] ≡ codes "."
unfolding clean is_abs has_prefix split_path equal_texts
clean-empty = refl

RunHistory-HasEnded_example : HasEnded failed_run (store_run failed_run (written_for failed_run))
RunHistory-HasEnded_example =
    RunHistory-HasEnded list_conditions failed_run (store_run failed_run (written_for failed_run))
      (reconciled cluster (written_for failed_run) created reconcile_run-stamped)
      failed_run-terminal
