-- ===== src/Examples/Collections.antt =====
-- A collection that names an image for the first time, and one whose Job has succeeded.
use agentic_controller.Prelude.{
  ℕ, List, sym, ap, none_some, some_inj, ok_inj, ◌≡◌, refl, true, none, some, [], ◌∷◌, ok, err,
  if◌then◌else◌, not,
}
use agentic_controller.Gateway.{is_job_complete, is_job_succeeded}
use agentic_controller.Text.{codes, equal_texts}
use agentic_controller.Text.Split.{is_nil}
use agentic_controller.Api.Sample.{list_conditions}
use agentic_controller.SkillCollection.{SkillCollection, Cards, missing}
use agentic_controller.SkillCollection.Identity.{
  RoleBinding, IdentityStore, Identity, enumerator_subject, enumerator_rules, enumerator_labels,
  equal_subjects, ensure_enumerator_rbac,
}
use agentic_controller.SkillCollection.Identity.Granted.{
  IsKeyed, IsGranted, ensure_enumerator_rbac-IsGranted,
}
use agentic_controller.SkillCollection.Jobs.{Jobs}
use agentic_controller.SkillCollection.Reconcile.{reconcile_collection}
use agentic_controller.SkillCollection.Reconcile.Ready.{
  reported, is_enumerated, has_dropped, reported-reconcile_collection,
}
use agentic_controller.SkillCollection.Reconcile.Listed.{lists_resolved}

abbrev migration : SkillCollection
migration = record {
  name = codes "migration";
  namespace = codes "team";
  uid = codes "u1";
  generation = 2;
  spec = record { image = codes "quay.io/skills:1"; skill_type = []; skills = [] };
  status = record { observed_generation = 1; resolved_skills = []; conditions = [] };
}

abbrev cards : Cards
cards = record { library = list_conditions; conditions_of = λ n. err missing }

abbrev first : Jobs
first = record {
  digest = λ n. n;
  get_job = λ n. err missing;
  list_jobs = ok [];
  delete_job_error = λ n. none;
  list_cards = ok [];
  delete_card_error = λ n. none;
  identity = record {
    account = record { find = λ ns n. ok none; write = λ a. none };
    role = record { find = λ ns n. ok none; write = λ r. none };
    binding = record { find = λ ns n. ok none; write = λ b. none };
  };
  label_errors = λ n. none;
  owner_error = none;
  create_error = none;
  enumeration_image = codes "quay.io/controller:1";
  enumeration_service_account = [];
}

abbrev succeeded : Jobs
succeeded = record first {
  get_job = λ n. ok (("Complete", "True") ∷ []);
  list_cards = ok (codes "java-17" ∷ codes "java-11" ∷ []);
}

reported-reconcile_collection_example :
    reported cards (reconcile_collection cards succeeded none migration).patched ≡ (
      if not (is_nil migration.spec.image)
      then some (is_enumerated succeeded migration)
      else if has_dropped succeeded migration
      then some (lists_resolved cards migration)
      else none)
reported-reconcile_collection_example = reported-reconcile_collection cards succeeded none migration

-- which is ready
succeeded-is_enumerated : is_enumerated succeeded migration ≡ true
unfolding is_job_complete is_job_succeeded
succeeded-is_enumerated = refl

-- an operator has bound a role of that name to an account of another namespace
abbrev theirs : List ℕ → List ℕ → RoleBinding
theirs ns n = record {
  uid = codes "u2";
  name = n;
  namespace = ns;
  labels = [];
  role_ref = record { api_group = []; kind = codes "Role"; name = codes "skill-enumerator" };
  subjects = enumerator_subject (codes "ci") (codes "bot") ∷ [];
}

abbrev shared : IdentityStore
shared = record {
  account = record { find = λ ns n. ok none; write = λ a. none };
  role = record { find = λ ns n. ok none; write = λ r. none };
  binding = record { find = λ ns n. ok (some (theirs ns n)); write = λ b. none };
}

abbrev joined_identity : Identity
joined_identity = record {
  account = record {
    uid = [];
    name = codes "loader";
    namespace = codes "team";
    labels = enumerator_labels;
  };
  role = record {
    uid = [];
    name = codes "skill-enumerator";
    namespace = codes "team";
    labels = enumerator_labels;
    rules = enumerator_rules;
  };
  binding = record (theirs (codes "team") (codes "skill-enumerator")) {
    subjects =
        enumerator_subject (codes "ci") (codes "bot")
        ∷ enumerator_subject (codes "team") (codes "loader")
        ∷ [];
  };
}

joined : (ensure_enumerator_rbac shared (codes "team") (codes "loader")).1 ≡ ok joined_identity
unfolding ensure_enumerator_rbac equal_texts equal_subjects
joined = refl

shared-IsKeyed : IsKeyed shared
shared-IsKeyed = record {
  account = λ ns n a e. none_some (ok_inj e);
  role = λ ns n r e. none_some (ok_inj e);
  binding = λ ns n b e.
      let same = some_inj (ok_inj e) in
      (
        sym (ap (λ (x : RoleBinding). x.name) same),
        sym (ap (λ (x : RoleBinding). x.namespace) same),
      );
}

ensure_enumerator_rbac-IsGranted_example :
    IsGranted shared
      (codes "team")
      (codes "loader")
      (ensure_enumerator_rbac shared (codes "team") (codes "loader")).0
      joined_identity
ensure_enumerator_rbac-IsGranted_example =
    ensure_enumerator_rbac-IsGranted shared shared-IsKeyed (codes "team") (codes "loader")
      joined_identity joined
