-- ===== src/Cleanup.antt =====
-- internal/controller/run_cleanup.go, and the head of the two run controllers' `Reconcile` for a run
-- that is gone. What the API server answers is given; an object is its metadata, and its kind is that of
-- the list it comes from. The label selectors are the server's. Log lines are left out.
pub mod Ownership
use agentic_controller.Prelude.{
  ℕ, String, Bool, true, false, not, ◌&&◌, ◌||◌, Option, none, some, List, [], ◌∷◌, ◌++◌, Result,
  ok, err, ◌==◌, if◌then◌else◌,
}
use agentic_controller.Api.{
  ObjectMeta, OwnerReference, ApiError, not_found, already_exists, unavailable, Message, text,
  format1, format2, format3, Reply, done, fail_with,
}

abbrev pub owner_api_version : String
owner_api_version = "konveyor.io/v1alpha1"

unfoldable pub label : String → List (String × String) → String
label k [] = ""
label k ((j, v) ∷ rest) = let next = label k rest in if j == k then v else next

unfoldable pub has_controller_owner : List OwnerReference → Bool
has_controller_owner [] = false
has_controller_owner (r ∷ refs) = r.controller || has_controller_owner refs

unfoldable pub is_ownerless_managed_run_resource : ObjectMeta → Bool
unfolding label has_controller_owner
is_ownerless_managed_run_resource o =
    label "app.kubernetes.io/managed-by" o.labels == "agentic-controller"
    && not (label "konveyor.io/agentrun" o.labels == "")
    && not (has_controller_owner o.owner_references)

-- The first controller reference decides.
unfoldable pub may_delete_for_missing_owner : List OwnerReference → String → String → String → Bool
may_delete_for_missing_owner [] version kind name = true
may_delete_for_missing_owner (r ∷ refs) version kind name =
    let rest = may_delete_for_missing_owner refs version kind name in
    if r.controller then r.api_version == version && r.kind == kind && r.name == name else rest

-- the deletions that were asked for, oldest first, and the error that stopped the sweep
pub record Sweep : Type 0 where
  pub deleted : List (String × ObjectMeta)
  pub failed : Option Message

abbrev pub swept : Sweep
swept = record { deleted = []; failed = none }

abbrev pub stopped : Message → Sweep
stopped m = record { deleted = []; failed = some m }

-- the sweep that goes on after a deletion
abbrev pub after_deletion : String → ObjectMeta → Sweep → Sweep
after_deletion kind o s = record s { deleted = (kind, o) ∷ s.deleted }

abbrev then_sweep : Sweep → Sweep → Sweep
then_sweep a b = elim a.failed [
  | some m ↦ a
  | none ↦ record { deleted = a.deleted ++ b.deleted; failed = b.failed }
]

-- What the API server answers to the sweep. `get_sandbox` is the uncached reader's answer where
-- there is one, the cached otherwise.
pub record Store : Type 0 where
  pub sandbox_api_version : String
  pub list : String → Result ApiError (List ObjectMeta)
  pub get_sandbox : String → Result ApiError ObjectMeta
  pub delete : String → ObjectMeta → Option ApiError

abbrev wrapped : ApiError → Message
wrapped not_found = text "not found"
wrapped already_exists = text "already exists"
wrapped (unavailable m) = m

module _ (store : Store) where
  -- an object that is gone already counts as deleted
  unfoldable pub delete_object : String → ObjectMeta → Option ApiError → Sweep → Sweep
  delete_object kind o none rest = after_deletion kind o rest
  delete_object kind o (some not_found) rest = after_deletion kind o rest
  delete_object kind o (some e) rest = after_deletion kind o (
      stopped (
        format3 "deleting orphaned %s %s: %w" (text kind)
          (format2 "%s/%s" (text o.namespace) (text o.name)) (wrapped e)))

  -- `decide` says whether an object may be deleted
  unfoldable pub sweep : (ObjectMeta → Result Message Bool) → String → List ObjectMeta → Sweep
  unfolding delete_object
  sweep decide kind [] = swept
  sweep decide kind (o ∷ os) =
      let rest = sweep decide kind os in
      elim (decide o) [
        | err m ↦ stopped m
        | ok may ↦ if may then delete_object kind o (store.delete kind o) rest else rest
      ]

  unfoldable pub sweep_listed :
      (ObjectMeta → Result Message Bool)
      → String
      → Message
      → Result ApiError (List ObjectMeta)
      → Sweep
  unfolding sweep
  sweep_listed decide kind what (err e) = stopped (format2 "listing %s: %w" what (wrapped e))
  sweep_listed decide kind what (ok os) = sweep decide kind os

  abbrev pub owned_by_missing : String → String → String → ObjectMeta → Result Message Bool
  owned_by_missing version kind name o =
      ok (may_delete_for_missing_owner o.owner_references version kind name)

  -- A Sandbox of the same name and another uid is not the Pod's owner.
  unfoldable pub sandbox_spares :
      ObjectMeta → OwnerReference → Result ApiError ObjectMeta → Result Message Bool
  sandbox_spares pod r (err not_found) = ok true
  sandbox_spares pod r (err e) = err (
      format3 "getting Sandbox owner for Pod %s/%s: %w" (text pod.namespace) (text pod.name)
        (wrapped e))
  sandbox_spares pod r (ok sandbox) =
      ok (not (r.uid == "") && not (sandbox.uid == "") && not (r.uid == sandbox.uid))

  unfoldable pub may_delete_pod_for_missing_run :
      ObjectMeta → List OwnerReference → String → Result Message Bool
  unfolding sandbox_spares
  may_delete_pod_for_missing_run pod [] run_name = ok true
  may_delete_pod_for_missing_run pod (r ∷ refs) run_name =
      let rest = may_delete_pod_for_missing_run pod refs run_name in
      if not r.controller
      then rest
      else if not (r.api_version == store.sandbox_api_version)
          || not (r.kind == "Sandbox")
          || not (r.name == run_name)
      then ok false
      else sandbox_spares pod r (store.get_sandbox r.name)

  -- the Pod's own check, then the one that every deletion goes through
  unfoldable pub decide_pod : String → ObjectMeta → Result Message Bool
  unfolding may_delete_pod_for_missing_run
  decide_pod run_name o = elim (may_delete_pod_for_missing_run o o.owner_references run_name) [
    | err m ↦ err m
    | ok false ↦ ok false
    | ok true ↦ owned_by_missing store.sandbox_api_version "Sandbox" run_name o
  ]

  unfoldable pub cleanup_orphaned_run_resources : String → Sweep
  unfolding sweep_listed decide_pod
  cleanup_orphaned_run_resources name =
      let of_run = λ (kind : String) (what : String).
        sweep_listed (owned_by_missing owner_api_version "AgentRun" name) kind
          (format1 what (text name)) (store.list kind) in
      then_sweep (of_run "Sandbox" "Sandboxes for missing AgentRun %s") (
        then_sweep (of_run "ConfigMap" "ConfigMaps for missing AgentRun %s") (
          then_sweep (of_run "Secret" "Secrets for missing AgentRun %s") (
            sweep_listed (decide_pod name) "Pod"
              (format1 "Pods for missing AgentRun %s" (text name)) (store.list "Pod"))))

  unfoldable pub cleanup_orphaned_workflow_run_resources : String → Sweep
  unfolding sweep_listed
  cleanup_orphaned_workflow_run_resources name =
      sweep_listed (owned_by_missing owner_api_version "AgentWorkflowRun" name) "AgentRun"
        (format1 "AgentRuns for missing AgentWorkflowRun %s" (text name)) (store.list "AgentRun")

abbrev pub sweep_reply : Sweep → Sweep × Reply
sweep_reply s = (s, elim s.failed [ none ↦ done | some m ↦ fail_with (unavailable m) ])

-- A run that the cache does not have: `direct` is the uncached reader's answer, `none` where there
-- is no such reader. A run that is there after all is looked at again.
unfoldable pub finalize : (String → Sweep) → String → Option (Option ApiError) → Sweep × Reply
finalize cleanup name none = sweep_reply (cleanup name)
finalize cleanup name (some (some not_found)) = sweep_reply (cleanup name)
finalize cleanup name (some none) =
    (swept, record { requeue = true; requeue_after = 0; error = none })
finalize cleanup name (some (some e)) = (swept, fail_with e)
