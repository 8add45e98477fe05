-- ===== src/SkillCollection/Enumerate/Alone.antt =====
-- When an enumeration Job is created.
use agentic_controller.Prelude.{
  map, ◌≡◌, refl, sym, ap, ◌∙◌, Bool, true, false, Option, none, some, List, [], ◌∷◌, ◌++◌, Result,
  ok, err, All, arith, Bool-cases, inl, inr, String,
}
use mathlib.Core.Bool.{true≢false}
use mathlib.Core.Path.{subst}
use mathlib.Core.List.{append-nil}
use agentic_controller.Text.{equal_texts}
use agentic_controller.Text.Split.{is_nil}
use agentic_controller.Api.{Message}
use agentic_controller.SkillCollection.{
  Name, SkillCollection, CallError, missing, exists, forbidden, failing,
}
use agentic_controller.SkillCollection.Identity.{
  Identity, IdentityWrite, Preparation, ensure_enumerator_rbac,
}
use agentic_controller.SkillCollection.Enumerate.{
  service_account, enumeration_job_name, delete_stale, stale_of, delete_stale_enumeration_jobs,
  job_of, created, owned_job, labelled_job, create_enumeration_job, identified, start_job,
  owned_cards, read_job, job_answer, enumerate_image,
}
use agentic_controller.SkillCollection.Jobs.{
  put_identity, create_job, EnumerationJob, Op, Jobs, Asked, return, then_ask,
}
use agentic_controller.SkillCollection.Enumerate.Creates.{creates-identity, creates}
use agentic_controller.SkillCollection.Enumerate.Clean.{IsClean, delete_stale-IsClean}

-- A Job that stands alone: nothing is asked before it but the writes of its identity, which has been
-- prepared, and nothing after it; there is none of its name, and no other Job of the collection.
pub record IsAlone (jobs : Jobs) (c : SkillCollection) (ops : List Op) : Type 0 where
  pub identity_writes : List IdentityWrite
  pub identity : Identity
  pub has_identity :
      ensure_enumerator_rbac jobs.identity c.namespace (service_account jobs)
      ≡ (identity_writes, ok identity)
  pub only :
      ops
      ≡ map put_identity identity_writes
        ++ create_job (job_of jobs c (enumeration_job_name jobs c)) ∷ []
  pub absent : jobs.get_job (enumeration_job_name jobs c) ≡ err missing
  pub others : List Name
  pub listed : jobs.list_jobs ≡ ok others
  pub none_stale : All (λ n. equal_texts n (enumeration_job_name jobs c) ≡ true) others

module _ (jobs : Jobs) where
  creates-created :
      (j : EnumerationJob) (o : Option CallError) → (created jobs j o).0 ≡ create_job j ∷ []
  unfolding created
  creates-created j none = refl
  creates-created j (some missing) = refl
  creates-created j (some exists) = refl
  creates-created j (some (forbidden m)) = refl
  creates-created j (some (failing m)) = refl

  -- nothing, or the Job alone
  data MayCreate (j : EnumerationJob) (ops : List Op) : Type 0 where
    idle : creates ops ≡ false → MayCreate j ops
    alone : ops ≡ create_job j ∷ [] → MayCreate j ops

  owned_job-MayCreate :
      (j : EnumerationJob) (o : Option Message) → MayCreate j (owned_job jobs j o).0
  unfolding owned_job
  owned_job-MayCreate j (some m) = idle refl
  owned_job-MayCreate j none = alone (creates-created j jobs.create_error)

  labelled_job-MayCreate :
      (c : SkillCollection) (name : Name) (o : Option Message)
      → MayCreate (job_of jobs c name) (labelled_job jobs c name o).0
  unfolding labelled_job
  labelled_job-MayCreate c name (some m) = idle refl
  labelled_job-MayCreate c name none = elim (Bool-cases (is_nil jobs.enumeration_image)) [
    | inl e ↦ rw e (idle refl)
    | inr e ↦ rw e (owned_job-MayCreate (job_of jobs c name) jobs.owner_error)
  ]

  -- the preparation of the identity
  abbrev identity_of : SkillCollection → Preparation
  identity_of c = ensure_enumerator_rbac jobs.identity c.namespace (service_account jobs)

  -- no Job, or the Job alone behind the writes of its identity
  data MayStart (r : Preparation) (j : EnumerationJob) (ops : List Op) : Type 0 where
    stopped : creates ops ≡ false → MayStart r j ops
    prepared :
        (writes : List IdentityWrite) (i : Identity) (rest : List Op)
        → r ≡ (writes, ok i)
        → ops ≡ map put_identity writes ++ rest
        → MayCreate j rest
        → MayStart r j ops

  identified-MayStart :
      (c : SkillCollection) (name : Name) (r : Preparation)
      → MayStart r
          (job_of jobs c name)
          (then_ask (identified jobs r) λ done. create_enumeration_job jobs c name).0
  unfolding identified create_enumeration_job
  identified-MayStart c name (writes, ok i) =
      prepared writes i _ refl refl (labelled_job-MayCreate c name (jobs.label_errors c.name))
  identified-MayStart c name (writes, err e) =
      stopped (ap creates (sym (append-nil (map put_identity writes))) ∙ creates-identity writes [])

  abbrev Waits : Type 0
  Waits = Asked (Option (List Name))

  -- the start of a Job, and the wait for it
  started : SkillCollection → Name → Bool → Waits
  started c name stale = then_ask (start_job jobs c name stale) λ done. return none

  then_wait : (a : Asked Bool) → (then_ask {B = Option (List Name)} a λ done. return none).0 ≡ a.0
  then_wait (ops, err e) = refl
  then_wait (ops, ok b) = append-nil ops

  started-MayStart :
      (c : SkillCollection) (name : Name)
      → MayStart (identity_of c) (job_of jobs c name) (started c name false).0
  unfolding started start_job
  started-MayStart c name =
      subst (MayStart (identity_of c) (job_of jobs c name))
        (sym (
          then_wait (
            then_ask (identified jobs (identity_of c)) λ done. create_enumeration_job jobs c name)))
        (identified-MayStart c name (identity_of c))

  not_created : {B : Type 0} (ops : List Op) → creates ops ≡ false → creates ops ≡ true → B
  not_created ops f t = absurd (true≢false (sym t ∙ f))

  may-IsAlone :
      (c : SkillCollection) (names : List Name)
      → jobs.get_job (enumeration_job_name jobs c) ≡ err missing
      → jobs.list_jobs ≡ ok names
      → All (λ n. equal_texts n (enumeration_job_name jobs c) ≡ true) names
      → (ops : List Op) → MayStart (identity_of c) (job_of jobs c (enumeration_job_name jobs c)) ops
      → creates ops ≡ true
      → IsAlone jobs c ops
  may-IsAlone c names g l all ops (stopped f) t = not_created ops f t
  may-IsAlone c names g l all ops (prepared writes i rest r e (idle f)) t =
      not_created ops (ap creates e ∙ creates-identity writes rest ∙ f) t
  may-IsAlone c names g l all ops (prepared writes i rest r e (alone k)) t = record {
    identity_writes = writes;
    identity = i;
    has_identity = r;
    only = e ∙ ap (λ o. map put_identity writes ++ o) k;
    absent = g;
    others = names;
    listed = l;
    none_stale = all;
  }

  cleared-IsAlone :
      (c : SkillCollection) (names : List Name)
      → jobs.get_job (enumeration_job_name jobs c) ≡ err missing
      → jobs.list_jobs ≡ ok names
      → (a : Asked Bool) → IsClean jobs (enumeration_job_name jobs c) names a
      → creates (then_ask a (started c (enumeration_job_name jobs c))).0 ≡ true
      → IsAlone jobs c (then_ask a (started c (enumeration_job_name jobs c))).0
  unfolding started start_job
  cleared-IsAlone c names g l (ops, err e) h t = not_created ops h.creates_none t
  cleared-IsAlone c names g l (ops, ok true) h t =
      not_created ops h.creates_none (sym (ap creates (append-nil ops)) ∙ t)
  cleared-IsAlone c names g l (ops, ok false) h t =
      let name = enumeration_job_name jobs c in
      let rest = (started c name false).0 in
      let only_rest = ap (λ o. o ++ rest) (h.nothing refl) in
      subst (IsAlone jobs c) (sym only_rest) (
        may-IsAlone c names g l (h.all_current refl) rest (started-MayStart c name)
          (sym (ap creates only_rest) ∙ t))

  stale-IsAlone :
      (c : SkillCollection) (r : Result CallError (List Name))
      → jobs.get_job (enumeration_job_name jobs c) ≡ err missing
      → jobs.list_jobs ≡ r
      → creates
          (then_ask
            (stale_of jobs (enumeration_job_name jobs c) r)
            (started c (enumeration_job_name jobs c))).0
        ≡ true
      → IsAlone jobs c
          (then_ask
            (stale_of jobs (enumeration_job_name jobs c) r)
            (started c (enumeration_job_name jobs c))).0
  unfolding stale_of
  stale-IsAlone c (err e) g l t = not_created [] refl t
  stale-IsAlone c (ok names) g l t =
      cleared-IsAlone c names g l (delete_stale jobs (enumeration_job_name jobs c) names)
        (delete_stale-IsClean jobs (enumeration_job_name jobs c) names) t

  creates-owned_cards :
      (name : Name) (r : Result CallError (List Name)) → creates (owned_cards jobs name r).0 ≡ false
  unfolding owned_cards
  creates-owned_cards name (err e) = refl
  creates-owned_cards name (ok []) = refl
  creates-owned_cards name (ok (n ∷ ns)) = refl

  creates-read_job :
      (name : Name) (conditions : List (String × String))
      → creates (read_job jobs name conditions).0 ≡ false
  unfolding read_job
  creates-read_job name conditions = ground (arith, creates-owned_cards name jobs.list_cards)

  answer-IsAlone :
      (c : SkillCollection) (r : Result CallError (List (String × String)))
      → jobs.get_job (enumeration_job_name jobs c) ≡ r
      → creates (job_answer jobs c (enumeration_job_name jobs c) r).0 ≡ true
      → IsAlone jobs c (job_answer jobs c (enumeration_job_name jobs c) r).0
  unfolding job_answer started delete_stale_enumeration_jobs
  answer-IsAlone c (ok conditions) g t =
      not_created (read_job jobs (enumeration_job_name jobs c) conditions).0
        (creates-read_job (enumeration_job_name jobs c) conditions) t
  answer-IsAlone c (err missing) g t = stale-IsAlone c jobs.list_jobs g refl t
  answer-IsAlone c (err exists) g t = not_created [] refl t
  answer-IsAlone c (err (forbidden m)) g t = not_created [] refl t
  answer-IsAlone c (err (failing m)) g t = not_created [] refl t

  -- A Job is created only where there is none of its name and no other Job of the collection, and then
  -- nothing is asked beside it but the writes of its identity.
  pub enumerate_image-IsAlone :
      (c : SkillCollection)
      → creates (enumerate_image jobs c).0 ≡ true
      → IsAlone jobs c (enumerate_image jobs c).0
  unfolding enumerate_image
  enumerate_image-IsAlone c t = answer-IsAlone c (jobs.get_job (enumeration_job_name jobs c)) refl t
