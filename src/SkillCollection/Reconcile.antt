-- ===== src/SkillCollection/Reconcile.antt =====
-- Reconcile and reconcileImageSource of the SkillCollection controller.
pub mod Listed
pub mod Ready
pub mod Alone
use agentic_controller.Prelude.{
  ℕ, Bool, true, false, Option, none, some, List, [], ◌∷◌, ◌++◌, length, Result, ok, err,
  if◌then◌else◌, String,
}
use agentic_controller.Text.Split.{is_nil}
use agentic_controller.Api.{
  Message, runes, format2, ConditionStatus, condition_true, condition_false, Condition, ApiError,
  not_found, already_exists, unavailable, Reply, done, fail_with,
}
use agentic_controller.Message.{count, format1}
use agentic_controller.SkillCollection.{
  Name, SkillCollection, Cards, CallError, missing, exists, forbidden, failing, condition_of,
  listed_condition,
}
use agentic_controller.SkillCollection.Errors.{
  EnumerationError, error_message, is_forbidden, is_terminal,
}
use agentic_controller.SkillCollection.Enumerate.{enumerate_image, drop_enumerated_skill_cards}
use agentic_controller.SkillCollection.Jobs.{Op, Jobs, Asked}

-- five minutes
abbrev pub rbac_retry_interval : ℕ
rbac_retry_interval = 300_000_000_000

-- what a reconcile replies: an error to retry, or when to come again
pub data Outcome : Type 0 where
  settled : Outcome
  again_after : ℕ → Outcome
  patch_failed : CallError → Outcome
  enumeration_failed : EnumerationError → Outcome

-- What a reconcile does: it asks things of the API server, patches the status, and replies.
pub record Reconciled : Type 0 where
  pub ops : List Op
  pub patched : Option SkillCollection
  pub outcome : Outcome

module _ (cards : Cards) (jobs : Jobs) (patch_error : Option CallError) where
  with_condition : SkillCollection → Condition → SkillCollection
  with_condition c x = record c {
    status = record c.status { conditions = cards.library.set c.status.conditions x };
  }

  -- the patch of the status, and the reply where it succeeds
  patch_then : List Op → SkillCollection → Option CallError → Outcome → Reconciled
  patch_then ops c (some e) outcome = record {
    ops = ops;
    patched = some c;
    outcome = patch_failed e;
  }
  patch_then ops c none outcome = record { ops = ops; patched = some c; outcome = outcome }

  retry_of : EnumerationError → Outcome
  unfolding is_forbidden is_terminal
  retry_of e =
      if is_forbidden e
      then again_after rbac_retry_interval
      else if is_terminal e
      then settled
      else enumeration_failed e

  image_result : SkillCollection → Asked (Option (List Name)) → Reconciled
  unfolding with_condition patch_then retry_of condition_of error_message
  image_result c (ops, err e) =
      patch_then ops
        (with_condition c (condition_of c condition_false "EnumerationFailed" (error_message e)))
        patch_error (retry_of e)
  image_result c (ops, ok none) =
      patch_then ops
        (with_condition c (
          condition_of c condition_false "Enumerating"
            (format1 "Reading the skills in %s" (runes c.spec.image))))
        patch_error settled
  image_result c (ops, ok (some found)) =
      patch_then ops
        (with_condition (record c { status = record c.status { resolved_skills = found } })
          (condition_of c condition_true "AllSkillsResolved"
            (format2 "Enumerated %d skills from %s" (count (length found)) (runes c.spec.image))))
        patch_error settled

  -- `reconcileImageSource`
  unfoldable pub reconcile_image_source : SkillCollection → Reconciled
  unfolding image_result enumerate_image
  reconcile_image_source c = image_result c (enumerate_image jobs c)

  dropped : SkillCollection → Bool → SkillCollection
  dropped c true = record c { status = record c.status { resolved_skills = [] } }
  dropped c false = c

  listed_result : SkillCollection → Asked Bool → Reconciled
  unfolding with_condition patch_then listed_condition dropped
  listed_result c (ops, err e) = record {
    ops = ops;
    patched = none;
    outcome = enumeration_failed e;
  }
  listed_result c (ops, ok drop) =
      patch_then ops (with_condition (dropped c drop) (listed_condition cards c)) patch_error
        settled

  observed : SkillCollection → SkillCollection
  observed c = record c { status = record c.status { observed_generation = c.generation } }

  -- `Reconcile`, of a collection that exists
  unfoldable pub reconcile_collection : SkillCollection → Reconciled
  unfolding reconcile_image_source listed_result drop_enumerated_skill_cards observed
  reconcile_collection c =
      if is_nil c.spec.image
      then listed_result (observed c) (drop_enumerated_skill_cards jobs (observed c))
      else reconcile_image_source (observed c)
