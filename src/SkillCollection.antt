-- ===== src/SkillCollection.antt =====
-- internal/controller/skillcollection_controller.go: when the skills that a collection lists are resolved.
-- Names are lists of code points.
pub mod Errors
pub mod Identity
pub mod Jobs
pub mod Enumerate
pub mod Reconcile
use agentic_controller.Prelude.{
  ℕ, suc, ◌+◌, String, Bool, true, false, Option, none, some, List, [], ◌∷◌, ◌++◌, ◌&&◌, length,
  eqb, Result, ok, err, if◌then◌else◌,
}
use agentic_controller.Text.Split.{is_nil}
use agentic_controller.Api.{
  Message, text, runes, format2, format3, join, ConditionStatus, condition_true, condition_false,
  Condition, StatusConditions,
}
use agentic_controller.Message.{count, format1}
use agentic_controller.Api.Conditions.{is_condition_true}

abbrev pub Name : Type 0
Name = List ℕ

-- `SkillCollectionSkillRef`
pub record SkillRef : Type 0 where
  pub name : Name
  pub skill_card_ref : Name
  pub image : Name
  pub source : Name

pub record CollectionSpec : Type 0 where
  pub image : Name
  pub skill_type : Name
  pub skills : List SkillRef

pub record CollectionStatus : Type 0 where
  pub observed_generation : ℕ
  pub resolved_skills : List Name
  pub conditions : List Condition

pub record SkillCollection : Type 0 where
  pub name : Name
  pub namespace : Name
  pub uid : Name
  pub generation : ℕ
  pub spec : CollectionSpec
  pub status : CollectionStatus

-- How a call of the API server fails.
pub data CallError : Type 0 where
  missing exists : CallError
  forbidden failing : Message → CallError

unfoldable pub call_message : CallError → Message
call_message missing = text "not found"
call_message exists = text "already exists"
call_message (forbidden m) = m
call_message (failing m) = m

-- What `checkSkillCardRef` is given: the functions on conditions, and those of a SkillCard.
pub record Cards : Type 0 where
  pub library : StatusConditions
  pub conditions_of : Name → Result CallError (List Condition)

-- the condition of a collection's generation
unfoldable pub condition_of : SkillCollection → ConditionStatus → String → Message → Condition
condition_of c status reason message = record {
  condition_type = "Ready";
  status = status;
  observed_generation = c.generation;
  reason = reason;
  message = message;
}

module _ (cards : Cards) where
  unless_ready : SkillRef → Option Condition → Option Message
  unless_ready s none =
      some (format2 "skill %q: SkillCard %q is not Ready" (runes s.name) (runes s.skill_card_ref))
  unless_ready s (some ready) =
      if is_condition_true ready.status
      then none
      else some
          (format2 "skill %q: SkillCard %q is not Ready" (runes s.name) (runes s.skill_card_ref))

  card_problem : SkillRef → Result CallError (List Condition) → Option Message
  unfolding unless_ready call_message
  card_problem s (err missing) =
      some (format2 "skill %q: SkillCard %q not found" (runes s.name) (runes s.skill_card_ref))
  card_problem s (err e) = some (
      format3 "skill %q: error fetching SkillCard %q: %v" (runes s.name) (runes s.skill_card_ref)
        (call_message e))
  card_problem s (ok conditions) = unless_ready s (cards.library.find conditions "Ready")

  -- `checkSkillCardRef`: why the card is not ready, `none` where it is
  unfoldable pub check_skill_card_ref : SkillRef → Option Message
  unfolding card_problem
  check_skill_card_ref s = card_problem s (cards.conditions_of s.skill_card_ref)

  -- why a listed skill is not resolved
  unfoldable pub skill_problem : SkillRef → Option Message
  unfolding check_skill_card_ref
  skill_problem s =
      if is_nil s.skill_card_ref
      then if is_nil s.image && is_nil s.source
        then some (format1 "skill %q: no source configured" (runes s.name))
        else none
      else check_skill_card_ref s

  -- how many are resolved, and why the others are not
  abbrev Tally : Type 0
  Tally = ℕ × List Message

  counted : Option Message → Tally → Tally
  counted none t = (t.0 + 1, t.1)
  counted (some m) t = (t.0, m ∷ t.1)

  unfoldable pub tally : List SkillRef → Tally
  unfolding counted skill_problem
  tally [] = (0, [])
  tally (s ∷ rest) = counted (skill_problem s) (tally rest)

  with_reasons : Message → List Message → Message
  with_reasons m [] = m
  with_reasons m (r ∷ rs) = format2 "%s: %s" m (join "; " r rs)

  tally_condition : SkillCollection → Tally → Condition
  unfolding with_reasons condition_of
  tally_condition c t =
      let total = length c.spec.skills in
      if is_nil c.spec.skills
      then condition_of c condition_false "NoSkills" (text "Collection has no skills")
      else if eqb t.0 total
      then condition_of c condition_true "AllSkillsResolved"
          (format1 "All %d skills resolved" (count total))
      else condition_of c condition_false "SkillsNotReady"
          (with_reasons (format2 "%d of %d skills resolved" (count t.0) (count total)) t.1)

  -- the condition Ready of a collection that lists its skills
  unfoldable pub listed_condition : SkillCollection → Condition
  unfolding tally_condition tally
  listed_condition c = tally_condition c (tally c.spec.skills)
