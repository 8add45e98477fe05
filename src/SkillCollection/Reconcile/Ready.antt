-- ===== src/SkillCollection/Reconcile/Ready.antt =====
-- When a SkillCollection is reported as ready.
use agentic_controller.Prelude.{
  ◌≡◌, refl, ap, ◌∙◌, Bool, true, false, not, ◌&&◌, Option, none, some, List, [], ◌∷◌, Result, ok,
  err, arith, if◌then◌else◌, Bool-cases, inl, inr, String,
}
use mathlib.Core.Path.{subst}
use agentic_controller.Params.Typed.{is_ok}
use agentic_controller.Text.Split.{is_nil}
use agentic_controller.Api.{Condition}
use agentic_controller.Api.Conditions.{is_condition_true}
use agentic_controller.Readiness.Ready.{holds_true}
use agentic_controller.Gateway.{is_job_complete, is_job_succeeded}
use agentic_controller.SkillCollection.{
  Name, SkillCollection, Cards, CallError, missing, exists, forbidden, failing, condition_of,
  listed_condition,
}
use agentic_controller.SkillCollection.Errors.{EnumerationError}
use agentic_controller.SkillCollection.Enumerate.{
  enumeration_job_name, owned_cards, read_job, job_answer, enumerate_image, start_job,
  delete_stale_enumeration_jobs, drop_enumerated_skill_cards,
}
use agentic_controller.SkillCollection.Jobs.{Op, Jobs, Asked, then_ask, return}
use agentic_controller.SkillCollection.Reconcile.{
  Outcome, with_condition, patch_then, image_result, reconcile_image_source, listed_result,
  observed, reconcile_collection,
}
use agentic_controller.SkillCollection.Reconcile.Listed.{
  lists_resolved, listed_condition-holds, listed_condition-type,
}

abbrev pub reported : Cards → Option SkillCollection → Option Bool
reported cards none = none
reported cards (some c) = some (holds_true (cards.library.find c.status.conditions "Ready"))

-- the cards that can be listed are some
abbrev lists_some : Result CallError (List Name) → Bool
lists_some (err e) = false
lists_some (ok []) = false
lists_some (ok (n ∷ ns)) = true

abbrev is_complete : Jobs → Result CallError (List (String × String)) → Bool
is_complete jobs (err e) = false
is_complete jobs (ok conditions) =
    is_job_complete conditions && is_job_succeeded conditions && lists_some jobs.list_cards

-- the Job of this generation has succeeded, and cards that it wrote are visible
abbrev pub is_enumerated : Jobs → SkillCollection → Bool
is_enumerated jobs c = is_complete jobs (jobs.get_job (enumeration_job_name jobs c))

-- what a previous image left can be removed
abbrev pub has_dropped : Jobs → SkillCollection → Bool
has_dropped jobs c = is_ok (drop_enumerated_skill_cards jobs c).1

module _ (cards : Cards) (jobs : Jobs) (patch_error : Option CallError) where
  abbrev has_found : Result EnumerationError (Option (List Name)) → Bool
  has_found (err e) = false
  has_found (ok none) = false
  has_found (ok (some found)) = true

  has_found-then_ask :
      {A : Type 0} (a : Asked A) (next : A → Asked (Option (List Name)))
      → ((x : A) → has_found (next x).1 ≡ false)
      → has_found (then_ask a next).1 ≡ false
  has_found-then_ask (ops, err e) next h = refl
  has_found-then_ask (ops, ok x) next h = h x

  has_found-owned_cards :
      (name : Name) (r : Result CallError (List Name))
      → has_found (owned_cards jobs name r).1 ≡ lists_some r
  unfolding owned_cards
  has_found-owned_cards name (err e) = refl
  has_found-owned_cards name (ok []) = refl
  has_found-owned_cards name (ok (n ∷ ns)) = refl

  has_found-read_job :
      (name : Name) (conditions : List (String × String))
      → has_found (read_job jobs name conditions).1 ≡ is_complete jobs (ok conditions)
  unfolding read_job
  has_found-read_job name conditions = ground (arith, has_found-owned_cards name jobs.list_cards)

  has_found-job_answer :
      (c : SkillCollection) (name : Name) (r : Result CallError (List (String × String)))
      → has_found (job_answer jobs c name r).1 ≡ is_complete jobs r
  unfolding job_answer
  has_found-job_answer c name (ok conditions) = has_found-read_job name conditions
  has_found-job_answer c name (err missing) =
      has_found-then_ask (delete_stale_enumeration_jobs jobs name)
        (λ stale. then_ask (start_job jobs c name stale) λ done. return none)
        (λ stale.
          has_found-then_ask (start_job jobs c name stale) (λ done. return none) (λ done. refl))
  has_found-job_answer c name (err exists) = refl
  has_found-job_answer c name (err (forbidden m)) = refl
  has_found-job_answer c name (err (failing m)) = refl

  patched-patch_then :
      (ops : List Op) (c : SkillCollection) (e : Option CallError) (outcome : Outcome)
      → (patch_then cards jobs patch_error ops c e outcome).patched ≡ some c
  unfolding patch_then
  patched-patch_then ops c none outcome = refl
  patched-patch_then ops c (some e) outcome = refl

  -- the condition that is set last is the one that is reported
  reported-with_condition :
      (c : SkillCollection) (x : Condition)
      → x.condition_type ≡ "Ready"
      → reported cards (some (with_condition cards jobs patch_error c x))
        ≡ some (is_condition_true x.status)
  unfolding with_condition
  reported-with_condition c x e =
      ap (λ o. some (holds_true o))
        (subst (λ t. cards.library.find (cards.library.set c.status.conditions x) t ≡ some x) e
          (cards.library.find-set_self c.status.conditions x))

  reported-patch :
      (ops : List Op) (c : SkillCollection) (x : Condition) (outcome : Outcome)
      → x.condition_type ≡ "Ready"
      → reported cards
          (patch_then cards jobs patch_error ops
            (with_condition cards jobs patch_error c x)
            patch_error
            outcome).patched
        ≡ some (is_condition_true x.status)
  reported-patch ops c x outcome e =
      ap (reported cards) (patched-patch_then ops _ patch_error outcome)
      ∙ reported-with_condition c x e

  reported-image_result :
      (c : SkillCollection) (a : Asked (Option (List Name)))
      → reported cards (image_result cards jobs patch_error c a).patched ≡ some (has_found a.1)
  unfolding image_result condition_of is_condition_true
  reported-image_result c (ops, err e) = reported-patch ops c _ _ refl
  reported-image_result c (ops, ok none) = reported-patch ops c _ _ refl
  reported-image_result c (ops, ok (some found)) = reported-patch ops _ _ _ refl

  reported-listed_result :
      (c : SkillCollection) (a : Asked Bool)
      → reported cards (listed_result cards jobs patch_error c a).patched
        ≡ (if is_ok a.1 then some (lists_resolved cards c) else none)
  unfolding listed_result
  reported-listed_result c (ops, err e) = refl
  reported-listed_result c (ops, ok drop) =
      reported-patch ops _ (listed_condition cards c) _ (listed_condition-type cards c)
      ∙ ap some (listed_condition-holds cards c)

  -- A SkillCollection is reported as ready exactly when its image has been enumerated by the Job of
  -- this generation and cards of it are visible, or, where it names no image, when it lists skills and
  -- all are resolved; only where the removal of what an earlier image left fails, its status stays.
  pub reported-reconcile_collection :
      (c : SkillCollection)
      → reported cards (reconcile_collection cards jobs patch_error c).patched ≡ (
          if not (is_nil c.spec.image)
          then some (is_enumerated jobs c)
          else if has_dropped jobs c
          then some (lists_resolved cards c)
          else none)
  unfolding reconcile_collection reconcile_image_source enumerate_image observed
      drop_enumerated_skill_cards enumeration_job_name
  reported-reconcile_collection c =
      let seen = record c { status = record c.status { observed_generation = c.generation } } in
      let name = enumeration_job_name jobs c in
      elim (Bool-cases (is_nil c.spec.image)) [
        | inl e ↦ rw e (reported-listed_result seen (drop_enumerated_skill_cards jobs seen))
        | inr e ↦ rw e (
            reported-image_result seen (enumerate_image jobs seen)
            ∙ ap some (has_found-job_answer seen name (jobs.get_job name)))
      ]
