-- ===== src/SkillCollection/Jobs.antt =====
-- internal/controller/skillcollection_enumerate.go: the Job that enumerates an image, and what a reconcile
-- asks of the API server.
use agentic_controller.Prelude.{
  ℕ, Bool, Option, List, [], ◌∷◌, ◌++◌, Result, ok, err, if◌then◌else◌, String,
}
use agentic_controller.Api.{Message}
use agentic_controller.Skills.Discover.{le_text}
use agentic_controller.SkillCollection.{Name, CallError}
use agentic_controller.SkillCollection.Errors.{EnumerationError}
use agentic_controller.SkillCollection.Identity.{IdentityStore, IdentityWrite}

-- The one container of the Job's pod.
pub record EnumerationContainer : Type 0 where
  pub name : String
  pub image : Name
  pub allow_privilege_escalation : Bool
  pub read_only_root_filesystem : Bool
  pub drop_capabilities : List String
  pub command : List String
  pub args : List String
  pub env : List (String × Name)
  pub mount_name : String
  pub mount_path : String
  pub mount_read_only : Bool

-- The Job that is created, with its pod.
pub record EnumerationJob : Type 0 where
  pub name : Name
  pub namespace : Name
  pub labels : List (String × Name)
  pub backoff_limit : ℕ
  pub active_deadline_seconds : ℕ
  pub pod_labels : List (String × Name)
  pub restart_policy : String
  pub service_account : Name
  pub run_as_non_root : Bool
  pub seccomp_profile : String
  pub container : EnumerationContainer
  pub volume_name : String
  pub volume_image : Name

abbrev pub enumeration_src_dir : String
enumeration_src_dir = "/src"

abbrev pub label_managed_by : String
label_managed_by = "app.kubernetes.io/managed-by"

abbrev pub label_skill_collection : String
label_skill_collection = "konveyor.io/skillcollection"

-- what a reconcile asks of the API server, but for the patch of its own status
pub data Op : Type 0 where
  delete_job : Name → Op
  delete_card : Name → Op
  put_identity : IdentityWrite → Op
  create_job : EnumerationJob → Op

pub record Jobs : Type 0 where
  pub digest : Name → Name
  pub get_job : Name → Result CallError (List (String × String))
  pub list_jobs : Result CallError (List Name)
  pub delete_job_error : Name → Option CallError
  pub list_cards : Result CallError (List Name)
  pub delete_card_error : Name → Option CallError
  pub identity : IdentityStore
  pub label_errors : Name → Option Message
  pub owner_error : Option Message
  pub create_error : Option CallError
  pub enumeration_image : Name
  pub enumeration_service_account : Name

-- what has been asked, and its result or the error that ended it
abbrev pub Asked : Type 0 → Type 0
Asked A = List Op × Result EnumerationError A

abbrev pub fail : {A : Type 0} → EnumerationError → Asked A
fail e = ([], err e)

abbrev pub return : {A : Type 0} → A → Asked A
return a = ([], ok a)

-- what comes next, where nothing has failed
abbrev pub then_ask : {A B : Type 0} → Asked A → (A → Asked B) → Asked B
then_ask (ops, err e) next = (ops, err e)
then_ask (ops, ok a) next = let rest = next a in (ops ++ rest.0, rest.1)

unfoldable pub insert_name : Name → List Name → List Name
unfolding le_text
insert_name n [] = n ∷ []
insert_name n (m ∷ ms) =
    let later = m ∷ insert_name n ms in if le_text n m then n ∷ m ∷ ms else later

-- `slices.Sort`
unfoldable pub sort_names : List Name → List Name
unfolding insert_name
sort_names [] = []
sort_names (n ∷ ns) = insert_name n (sort_names ns)
