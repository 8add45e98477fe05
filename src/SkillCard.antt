-- ===== src/SkillCard.antt =====
-- internal/controller/skillcard_controller.go: how the content of a SkillCard is delivered, and whether it
-- is accepted. The registry's answer and the check of inline content are given.
pub mod Reported
use agentic_controller.Prelude.{
  ℕ, String, Bool, true, false, Option, none, some, List, ◌==◌, if◌then◌else◌,
}
use agentic_controller.Api.{
  Message, text, format1, ConditionStatus, condition_true, condition_false, condition_unknown,
  Condition, StatusConditions, ApiError, Reply, done, fail_with,
}

pub record CardSpec : Type 0 where
  pub image : String
  pub source : String
  pub inline : String

pub record CardStatus : Type 0 where
  pub observed_generation : ℕ
  pub resolved_image : String
  pub delivery_mode : String
  pub conditions : List Condition

pub record SkillCard : Type 0 where
  pub generation : ℕ
  pub spec : CardSpec
  pub status : CardStatus

-- `imageResolution`
pub data Resolution : Type 0 where
  present missing unknown : Resolution

-- What a reconcile is given: `Resolver`, which may be absent, `validateInlineSkill`, whose error is
-- its message, and whether the patch succeeds.
pub record CardCluster : Type 0 where
  pub library : StatusConditions
  pub resolver : Option (String → Resolution × Message)
  pub validate_inline : String → Option Message
  pub patch_error : Option ApiError

-- ten minutes
abbrev pub resolvable_recheck_interval : ℕ
resolvable_recheck_interval = 600_000_000_000

module _ (c : CardCluster) where
  -- a condition of the card's generation
  condition_of : SkillCard → String → ConditionStatus → String → Message → Condition
  condition_of card kind status reason message = record {
    condition_type = kind;
    status = status;
    observed_generation = card.generation;
    reason = reason;
    message = message;
  }

  unfoldable pub set_card_condition :
      SkillCard → String → ConditionStatus → String → Message → SkillCard
  unfolding condition_of
  set_card_condition card kind status reason message = record card {
    status = record card.status {
      conditions =
          c.library.set card.status.conditions (condition_of card kind status reason message);
    };
  }

  unfoldable pub drop_resolvable : SkillCard → SkillCard
  drop_resolvable card = record card {
    status = record card.status {
      conditions = c.library.remove card.status.conditions "Resolvable";
    };
  }

  unfoldable pub delivered : String → String → SkillCard → SkillCard
  delivered image mode card = record card {
    status = record card.status { resolved_image = image; delivery_mode = mode };
  }

  resolution_condition : SkillCard → Resolution × Message → SkillCard
  unfolding set_card_condition
  resolution_condition card (present, m) =
      set_card_condition card "Resolvable" condition_true "ArtifactPresent" m
  resolution_condition card (missing, m) =
      set_card_condition card "Resolvable" condition_false "ArtifactMissing" m
  resolution_condition card (unknown, m) =
      set_card_condition card "Resolvable" condition_unknown "ResolveInconclusive" m

  -- `setResolvable`, of the resolver that there is, with the time to the next check
  set_resolvable : SkillCard → Option (String → Resolution × Message) → SkillCard × ℕ
  unfolding resolution_condition drop_resolvable
  set_resolvable card none = (drop_resolvable card, 0)
  set_resolvable card (some resolve) =
      (resolution_condition card (resolve card.spec.image), resolvable_recheck_interval)

  -- `reconcileImage`
  unfoldable pub reconcile_image : SkillCard → SkillCard × ℕ
  unfolding set_resolvable set_card_condition delivered
  reconcile_image card =
      set_resolvable
        (set_card_condition (delivered card.spec.image "image" card) "Ready" condition_true
          "ImageResolved" (format1 "OCI image ref accepted: %s" (text card.spec.image)))
        c.resolver

  -- `reconcileSource`
  unfoldable pub reconcile_source : SkillCard → SkillCard
  unfolding drop_resolvable set_card_condition delivered
  reconcile_source card =
      set_card_condition (drop_resolvable (delivered "" "source" card)) "Ready" condition_true
        "SourceAccepted"
        (format1 "git source accepted, cloned at pod start: %s" (text card.spec.source))

  judge_inline : SkillCard → Option Message → SkillCard
  unfolding set_card_condition
  judge_inline card (some m) =
      set_card_condition card "Ready" condition_false "InvalidSkillContent" m
  judge_inline card none =
      set_card_condition card "Ready" condition_true "InlineAccepted"
        (text "inline skill content is valid")

  -- `reconcileInline`
  unfoldable pub reconcile_inline : SkillCard → SkillCard
  unfolding judge_inline drop_resolvable delivered
  reconcile_inline card =
      judge_inline (drop_resolvable (delivered "" "inline" card))
        (c.validate_inline card.spec.inline)

  unfoldable pub reconcile_empty : SkillCard → SkillCard
  unfolding drop_resolvable set_card_condition delivered
  reconcile_empty card =
      set_card_condition (drop_resolvable (delivered "" "" card)) "Ready" condition_false
        "NoSourceConfigured" (text "No image, source, or inline content is set")

  abbrev observed : SkillCard → SkillCard
  observed card = record card {
    status = record card.status { observed_generation = card.generation };
  }

  -- the card by the first kind of content that it has
  unfoldable pub deliver : SkillCard → SkillCard × ℕ
  unfolding reconcile_image reconcile_source reconcile_inline reconcile_empty
  deliver card =
      if card.spec.image == ""
      then if card.spec.source == ""
        then if card.spec.inline == ""
          then (reconcile_empty card, 0)
          else (reconcile_inline card, 0)
        else (reconcile_source card, 0)
      else reconcile_image card

  reply_after : Option ApiError → ℕ → Reply
  reply_after none after = record done { requeue_after = after }
  reply_after (some e) after = fail_with e

  -- `Reconcile`, of a card that exists: the card whose status it patches, and its reply
  unfoldable pub reconcile_card : SkillCard → SkillCard × Reply
  unfolding deliver reply_after
  reconcile_card card =
      let next = deliver (observed card) in (next.0, reply_after c.patch_error next.1)
