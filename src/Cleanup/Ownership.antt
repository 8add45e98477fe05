-- ===== src/Cleanup/Ownership.antt =====
-- The sweep never deletes what another controller owns.
use agentic_controller.Prelude.{
  String, ◌≡◌, refl, sym, ◌∙◌, Bool, true, false, ◌&&◌, Option, none, some, List, [], ◌∷◌, ◌++◌,
  Result, ok, err, ◌==◌, All, All-append, Bool-cases, inl, inr, if◌then◌else◌,
}
use agentic_controller.Api.{
  ObjectMeta, OwnerReference, ApiError, not_found, already_exists, unavailable, Message, text,
  format1,
}
use agentic_controller.Cleanup.{
  owner_api_version, may_delete_for_missing_owner, Sweep, stopped, then_sweep, Store, delete_object,
  sweep, sweep_listed, owned_by_missing, may_delete_pod_for_missing_run, decide_pod,
  cleanup_orphaned_run_resources, cleanup_orphaned_workflow_run_resources, finalize,
}

-- `metav1.GetControllerOf`: the first reference that is marked as the controller
abbrev pub controller_of : List OwnerReference → Option OwnerReference
controller_of [] = none
controller_of (r ∷ refs) = if r.controller then some r else controller_of refs

-- the object has no controller, or this one
abbrev pub has_no_other_controller : String → String → String → ObjectMeta → Bool
has_no_other_controller version kind name o = elim (controller_of o.owner_references) [
  | none ↦ true
  | some r ↦ r.api_version == version && r.kind == kind && r.name == name
]

controller-may_delete :
    (refs : List OwnerReference) (version kind name : String)
    → may_delete_for_missing_owner refs version kind name ≡ (elim (controller_of refs) [
      | none ↦ true
      | some r ↦ r.api_version == version && r.kind == kind && r.name == name
    ])
unfolding may_delete_for_missing_owner
controller-may_delete [] version kind name = refl
controller-may_delete (r ∷ refs) version kind name = elim (Bool-cases r.controller) [
  | inl e ↦ rw e refl
  | inr e ↦ rw e (controller-may_delete refs version kind name)
]

module _ (store : Store) (P : (String × ObjectMeta) → Type 0) where
  record Only (s : Sweep) : Type 0 where
    each : All P s.deleted

  joined-Only :
      (a b : Sweep) (o : Option Message)
      → Only a
      → Only b
      → Only (elim o [
        | some m ↦ a
        | none ↦ record { deleted = a.deleted ++ b.deleted; failed = b.failed }
      ])
  joined-Only a b none ha hb = record { each = All-append P a.deleted b.deleted ha.each hb.each }
  joined-Only a b (some m) ha hb = ha

  then_sweep-Only : (a b : Sweep) → Only a → Only b → Only (then_sweep a b)
  then_sweep-Only a b ha hb = joined-Only a b a.failed ha hb

  delete_object-Only :
      (kind : String) (o : ObjectMeta) (r : Option ApiError) (rest : Sweep)
      → P (kind, o)
      → Only rest
      → Only (delete_object store kind o r rest)
  unfolding delete_object
  delete_object-Only kind o none rest p h = record { each = (p, h.each) }
  delete_object-Only kind o (some not_found) rest p h = record { each = (p, h.each) }
  delete_object-Only kind o (some already_exists) rest p h = record { each = (p, tt) }
  delete_object-Only kind o (some (unavailable m)) rest p h = record { each = (p, tt) }

  module _ (decide : ObjectMeta → Result Message Bool) (kind : String)
      (allowed : (o : ObjectMeta) → decide o ≡ ok true → P (kind, o)) where
    decided-Only :
        (o : ObjectMeta) (rest : Sweep) (r : Result Message Bool)
        → decide o ≡ r
        → Only rest
        → Only (elim r [
          | err m ↦ stopped m
          | ok may ↦ if may then delete_object store kind o (store.delete kind o) rest else rest
        ])
    decided-Only o rest (err m) e h = record { each = tt }
    decided-Only o rest (ok false) e h = h
    decided-Only o rest (ok true) e h = delete_object-Only kind o _ rest (allowed o e) h

    sweep-Only : (os : List ObjectMeta) → Only (sweep store decide kind os)
    unfolding sweep
    sweep-Only [] = record { each = tt }
    sweep-Only (o ∷ os) = decided-Only o _ _ refl (sweep-Only os)

    sweep_listed-Only :
        (what : Message) (r : Result ApiError (List ObjectMeta))
        → Only (sweep_listed store decide kind what r)
    unfolding sweep_listed
    sweep_listed-Only what (err e) = record { each = tt }
    sweep_listed-Only what (ok os) = sweep-Only os

ok_inj : {a b : Bool} → ◌≡◌ {A = Result Message Bool} (ok a) (ok b) → a ≡ b
ok_inj e = cc

abbrev is_pod : String → Bool
is_pod kind = kind == "Pod"

module _ (store : Store) (name : String) where
  -- what the clean-up of a missing AgentRun may delete: a Pod whose controller is its Sandbox, any
  -- other object whose controller is the run, and what has no controller
  abbrev pub is_deletable : (String × ObjectMeta) → Bool
  is_deletable d =
      if is_pod d.0
      then has_no_other_controller store.sandbox_api_version "Sandbox" name d.1
      else has_no_other_controller owner_api_version "AgentRun" name d.1

  decided_pod :
      (o : ObjectMeta) (r : Result Message Bool)
      → (elim r [
        | err m ↦ err m
        | ok false ↦ ok false
        | ok true ↦ owned_by_missing store store.sandbox_api_version "Sandbox" name o
      ])
        ≡ ok true
      → has_no_other_controller store.sandbox_api_version "Sandbox" name o ≡ true
  decided_pod o (err m) h = cc
  decided_pod o (ok false) h = cc
  decided_pod o (ok true) h =
      sym (controller-may_delete o.owner_references store.sandbox_api_version "Sandbox" name)
      ∙ ok_inj h

  allowed_pod :
      (o : ObjectMeta) → decide_pod store name o ≡ ok true → is_deletable ("Pod", o) ≡ true
  unfolding decide_pod
  allowed_pod o h = decided_pod o (may_delete_pod_for_missing_run store o o.owner_references name) h

  allowed_object :
      (kind : String) (o : ObjectMeta)
      → is_pod kind ≡ false
      → owned_by_missing store owner_api_version "AgentRun" name o ≡ ok true
      → is_deletable (kind, o) ≡ true
  allowed_object kind o k h =
      rw k (
        sym (controller-may_delete o.owner_references owner_api_version "AgentRun" name) ∙ ok_inj h)

  swept_kind :
      (kind : String) (what : Message)
      → is_pod kind ≡ false
      → Only store
          (λ d. is_deletable d ≡ true)
          (sweep_listed store
            (owned_by_missing store owner_api_version "AgentRun" name)
            kind
            what
            (store.list kind))
  swept_kind kind what k =
      sweep_listed-Only store (λ d. is_deletable d ≡ true) _ kind (λ o h. allowed_object kind o k h)
        what _

  cleanup-Only : Only store (λ d. is_deletable d ≡ true) (cleanup_orphaned_run_resources store name)
  unfolding cleanup_orphaned_run_resources
  cleanup-Only = then_sweep-Only store _ _ _ (swept_kind "Sandbox" _ refl) (
      then_sweep-Only store _ _ _ (swept_kind "ConfigMap" _ refl) (
        then_sweep-Only store _ _ _ (swept_kind "Secret" _ refl) (
          sweep_listed-Only store _ _ "Pod" allowed_pod
            (format1 "Pods for missing AgentRun %s" (text name)) (store.list "Pod"))))

  finalize-Only :
      (direct : Option (Option ApiError))
      → Only store
          (λ d. is_deletable d ≡ true)
          (finalize (cleanup_orphaned_run_resources store) name direct).0
  unfolding finalize
  finalize-Only none = cleanup-Only
  finalize-Only (some none) = record { each = tt }
  finalize-Only (some (some not_found)) = cleanup-Only
  finalize-Only (some (some already_exists)) = record { each = tt }
  finalize-Only (some (some (unavailable m))) = record { each = tt }

  -- Whatever the lists hold and whichever calls fail, the clean-up after a missing AgentRun asks only
  -- for deletions of objects without a controller, of Sandboxes, ConfigMaps and Secrets whose
  -- controller is that AgentRun, and of Pods whose controller is its Sandbox.
  pub deleted-finalize :
      (direct : Option (Option ApiError))
      → All
          (λ d. is_deletable d ≡ true)
          (finalize (cleanup_orphaned_run_resources store) name direct).0.deleted
  deleted-finalize direct = (finalize-Only direct).each

  allowed_stage :
      (o : ObjectMeta)
      → owned_by_missing store owner_api_version "AgentWorkflowRun" name o ≡ ok true
      → has_no_other_controller owner_api_version "AgentWorkflowRun" name o ≡ true
  allowed_stage o h =
      sym (controller-may_delete o.owner_references owner_api_version "AgentWorkflowRun" name)
      ∙ ok_inj h

  -- Whatever the list holds and whichever calls fail, the clean-up after a missing AgentWorkflowRun
  -- asks only for deletions of AgentRuns without a controller or with that workflow run as theirs.
  pub deleted-cleanup_orphaned_workflow_run_resources :
      All
        (λ d. has_no_other_controller owner_api_version "AgentWorkflowRun" name d.1 ≡ true)
        (cleanup_orphaned_workflow_run_resources store name).deleted
  unfolding cleanup_orphaned_workflow_run_resources
  deleted-cleanup_orphaned_workflow_run_resources =
      (sweep_listed-Only store
        (λ d. has_no_other_controller owner_api_version "AgentWorkflowRun" name d.1 ≡ true) _
        "AgentRun" allowed_stage (format1 "AgentRuns for missing AgentWorkflowRun %s" (text name))
        (store.list "AgentRun")).each
