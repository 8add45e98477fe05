-- ===== src/SkillCollection/Enumerate.antt =====
-- internal/controller/skillcollection_enumerate.go: a Job enumerates the skills of an image. The API
-- server's answers are given.
pub mod Creates
pub mod Clean
pub mod Deletions
pub mod Alone
use agentic_controller.Prelude.{
  map, ℕ, ◌*◌, pos, Bool, true, false, not, ◌&&◌, Option, none, some, List, [], ◌∷◌, ◌++◌, Result,
  ok, err, if◌then◌else◌, String,
}
use agentic_controller.Text.{codes, equal_texts}
use agentic_controller.Text.Split.{is_nil}
use agentic_controller.Api.{Message, text, runes, format2}
use agentic_controller.Message.{format1}
use agentic_controller.Params.Integers.{format_int}
use agentic_controller.Gateway.{is_job_complete, is_job_succeeded}
use agentic_controller.Gateway.Names.{sanitize_volume_name}
use agentic_controller.Skills.Discover.{le_text}
use agentic_controller.SkillCollection.{
  Name, SkillCollection, CallError, missing, exists, forbidden, failing, call_message,
}
use agentic_controller.SkillCollection.Errors.{EnumerationError, bare, call, terminal, unseen}
use agentic_controller.SkillCollection.Identity.{Preparation, ensure_enumerator_rbac}
use agentic_controller.SkillCollection.Jobs.{
  delete_job, delete_card, put_identity, create_job, EnumerationContainer, EnumerationJob,
  enumeration_src_dir, label_managed_by, label_skill_collection, Op, Jobs, Asked, fail, return,
  then_ask, sort_names,
}

module _ (jobs : Jobs) where
  -- `enumerationJobName`
  unfoldable pub enumeration_job_name : SkillCollection → Name
  unfolding sanitize_volume_name format_int
  enumeration_job_name c =
      sanitize_volume_name jobs.digest
        (codes "skill-enumerate-" ++ c.name ++ codes "-gen" ++ format_int (pos c.generation))

  -- the deletion of one Job, and what follows unless it has failed
  delete_one : Op → Message → Option CallError → Asked Bool → Asked Bool
  delete_one op what none rest = (op ∷ rest.0, rest.1)
  delete_one op what (some missing) rest = (op ∷ rest.0, rest.1)
  delete_one op what (some e) rest = (op ∷ [], err (call what e))

  -- a Job is on its way out
  remaining : Asked Bool → Asked Bool
  remaining (ops, err e) = (ops, err e)
  remaining (ops, ok b) = (ops, ok true)

  -- the loop over the collection's Jobs, but for the current one
  unfoldable pub delete_stale : Name → List Name → Asked Bool
  unfolding delete_one remaining equal_texts
  delete_stale current [] = return false
  delete_stale current (n ∷ ns) =
      let rest = delete_stale current ns in
      if equal_texts n current
      then rest
      else remaining (
          delete_one (delete_job n) (format1 "deleting stale enumeration job %q" (runes n))
            (jobs.delete_job_error n) rest)

  stale_of : Name → Result CallError (List Name) → Asked Bool
  unfolding delete_stale
  stale_of current (err e) = fail (call (text "listing enumeration jobs") e)
  stale_of current (ok names) = delete_stale current names

  -- `deleteStaleEnumerationJobs`
  unfoldable pub delete_stale_enumeration_jobs : Name → Asked Bool
  unfolding stale_of
  delete_stale_enumeration_jobs current = stale_of current jobs.list_jobs

  -- the loop over the cards of a previous image
  unfoldable pub delete_cards : List Name → Asked Bool
  unfolding delete_one
  delete_cards [] = return true
  delete_cards (n ∷ ns) =
      delete_one (delete_card n) (format1 "deleting generated SkillCard %q" (runes n))
        (jobs.delete_card_error n) (delete_cards ns)

  drop_listed : Result CallError (List Name) → Asked Bool
  unfolding delete_cards
  drop_listed (err e) = fail (call (text "listing generated SkillCards") e)
  drop_listed (ok names) = delete_cards names

  -- `dropEnumeratedSkillCards`, whether it has dropped what was resolved
  unfoldable pub drop_enumerated_skill_cards : SkillCollection → Asked Bool
  unfolding drop_listed delete_stale_enumeration_jobs
  drop_enumerated_skill_cards c =
      if is_nil c.status.resolved_skills
      then return false
      else then_ask (delete_stale_enumeration_jobs []) λ stale. drop_listed jobs.list_cards

  -- `enumerationServiceAccount`
  unfoldable pub service_account : Name
  service_account =
      if is_nil jobs.enumeration_service_account
      then codes "skill-enumerator"
      else jobs.enumeration_service_account

  container_of : SkillCollection → EnumerationContainer
  container_of c = record {
    name = "materialize";
    image = jobs.enumeration_image;
    allow_privilege_escalation = false;
    read_only_root_filesystem = true;
    drop_capabilities = "ALL" ∷ [];
    command = "/skill-loader" ∷ [];
    args = "materialize" ∷ enumeration_src_dir ∷ [];
    env =
        ("KONVEYOR_COLLECTION_NAME", c.name)
        ∷ ("KONVEYOR_COLLECTION_UID", c.uid)
        ∷ ("KONVEYOR_NAMESPACE", c.namespace)
        ∷ ("KONVEYOR_SKILL_IMAGE", c.spec.image)
        ∷ ("KONVEYOR_SKILL_TYPE", c.spec.skill_type)
        ∷ [];
    mount_name = "src";
    mount_path = enumeration_src_dir;
    mount_read_only = true;
  }

  unfoldable pub job_of : SkillCollection → Name → EnumerationJob
  unfolding service_account container_of
  job_of c name = record {
    name = name;
    namespace = c.namespace;
    labels = (label_managed_by, codes "agentic-controller") ∷ (label_skill_collection, c.name) ∷ [];
    backoff_limit = 0;
    active_deadline_seconds = 10 * 60;
    pod_labels = (label_skill_collection, c.name) ∷ [];
    restart_policy = "Never";
    service_account = service_account;
    run_as_non_root = true;
    seccomp_profile = "RuntimeDefault";
    container = container_of c;
    volume_name = "src";
    volume_image = c.spec.image;
  }

  created : EnumerationJob → Option CallError → Asked Bool
  created j none = (create_job j ∷ [], ok true)
  created j (some exists) = (create_job j ∷ [], ok true)
  created j (some e) = (create_job j ∷ [], err (call (text "creating enumeration job") e))

  owned_job : EnumerationJob → Option Message → Asked Bool
  unfolding created
  owned_job j (some m) = fail (call (text "setting owner reference on enumeration job") (failing m))
  owned_job j none = created j jobs.create_error

  labelled_job : SkillCollection → Name → Option Message → Asked Bool
  unfolding owned_job job_of
  labelled_job c name (some m) = fail (
      terminal (
        format1
          "cannot enumerate: the collection name is used as a label value on the cards it owns, and %s"
          m))
  labelled_job c name none =
      if is_nil jobs.enumeration_image
      then fail (
          terminal (
            text
              "no enumeration image configured: set SKILL_LOADER_IMAGE (or ENUMERATION_IMAGE) on the controller to an image carrying /skill-loader"))
      else owned_job (job_of c name) jobs.owner_error

  -- `createEnumerationJob`
  unfoldable pub create_enumeration_job : SkillCollection → Name → Asked Bool
  unfolding labelled_job
  create_enumeration_job c name = labelled_job c name (jobs.label_errors c.name)

  identified : Preparation → Asked Bool
  identified (writes, ok i) = (map put_identity writes, ok true)
  identified (writes, err e) = (map put_identity writes, err e)

  -- a Job that there is not is created, once those of earlier generations are gone
  unfoldable pub start_job : SkillCollection → Name → Bool → Asked Bool
  unfolding identified create_enumeration_job ensure_enumerator_rbac service_account
  start_job c name true = return true
  start_job c name false =
      then_ask (identified (ensure_enumerator_rbac jobs.identity c.namespace service_account))
        λ done. create_enumeration_job c name

  unfoldable pub owned_cards : Name → Result CallError (List Name) → Asked (Option (List Name))
  unfolding sort_names
  owned_cards name (err e) = fail (call (text "listing owned SkillCards") e)
  owned_cards name (ok []) = fail (
      unseen (
        format1 "enumeration job %s succeeded but none of the SkillCards it wrote are visible yet"
          (runes name)))
  owned_cards name (ok (n ∷ ns)) = return (some (sort_names (n ∷ ns)))

  -- a Job that there is, by its conditions
  unfoldable pub read_job : Name → List (String × String) → Asked (Option (List Name))
  unfolding owned_cards is_job_complete is_job_succeeded
  read_job name conditions =
      if not (is_job_complete conditions)
      then return none
      else if not (is_job_succeeded conditions)
      then fail (terminal (format1 "enumeration job %s failed; see its logs" (runes name)))
      else owned_cards name jobs.list_cards

  unfoldable pub job_answer :
      SkillCollection
      → Name
      → Result CallError (List (String × String))
      → Asked (Option (List Name))
  unfolding start_job read_job delete_stale_enumeration_jobs
  job_answer c name (ok conditions) = read_job name conditions
  job_answer c name (err missing) =
      then_ask (delete_stale_enumeration_jobs name)
        λ stale. then_ask (start_job c name stale) λ done. return none
  job_answer c name (err e) = fail (bare e)

  -- `enumerateImage`: the skills that were found, or `none` while it is to be waited for
  unfoldable pub enumerate_image : SkillCollection → Asked (Option (List Name))
  unfolding job_answer enumeration_job_name
  enumerate_image c = let name = enumeration_job_name c in job_answer c name (jobs.get_job name)
