-- ===== src/SkillCollection/Reconcile/Listed.antt =====
-- When the skills that a collection lists are all resolved.
use agentic_controller.Prelude.{
  ℕ, suc, ◌≤◌, ◌≡◌, refl, ap, ◌∙◌, Bool, true, false, not, ◌&&◌, Option, none, some, List, [], ◌∷◌,
  length, eqb, Result, ok, err, arith, if◌then◌else◌,
}
use agentic_controller.Text.Split.{is_nil}
use agentic_controller.Api.{Message, Condition}
use agentic_controller.Api.Conditions.{is_condition_true}
use agentic_controller.Readiness.Ready.{holds_true}
use agentic_controller.SkillCollection.{
  SkillRef, SkillCollection, Cards, CallError, missing, exists, forbidden, failing, condition_of,
  unless_ready, card_problem, check_skill_card_ref, skill_problem, counted, tally, tally_condition,
  listed_condition,
}

module _ (cards : Cards) where
  -- the card can be read, and its Ready condition is True
  abbrev pub is_card_ready : Result CallError (List Condition) → Bool
  is_card_ready (err e) = false
  is_card_ready (ok conditions) = holds_true (cards.library.find conditions "Ready")

  -- a skill whose card is ready, or one without a card that has an image or a git source
  abbrev pub is_resolved : SkillRef → Bool
  is_resolved s =
      if is_nil s.skill_card_ref
      then not (is_nil s.image && is_nil s.source)
      else is_card_ready (cards.conditions_of s.skill_card_ref)

  abbrev pub all_resolved : List SkillRef → Bool
  all_resolved [] = true
  all_resolved (s ∷ rest) = is_resolved s && all_resolved rest

  abbrev is_none : Option Message → Bool
  is_none none = true
  is_none (some m) = false

  is_none-card_problem :
      (s : SkillRef) (r : Result CallError (List Condition))
      → is_none (card_problem cards s r) ≡ is_card_ready r
  unfolding card_problem unless_ready
  is_none-card_problem s (err missing) = refl
  is_none-card_problem s (err exists) = refl
  is_none-card_problem s (err (forbidden m)) = refl
  is_none-card_problem s (err (failing m)) = refl
  is_none-card_problem s (ok conditions) = ground arith

  is_none-skill_problem : (s : SkillRef) → is_none (skill_problem cards s) ≡ is_resolved s
  unfolding skill_problem check_skill_card_ref
  is_none-skill_problem s =
      ground (arith, is_none-card_problem s (cards.conditions_of s.skill_card_ref))

  counted-IsTally :
      (o : Option Message) (t : ℕ × List Message) (n : ℕ) (b : Bool)
      → t.0 ≤ n
      → eqb t.0 n ≡ b
      → ((counted cards o t).0 ≤ suc n) × (eqb (counted cards o t).0 (suc n) ≡ (is_none o && b))
  unfolding counted
  counted-IsTally none t n b h e = ground arith
  counted-IsTally (some m) t n b h e = ground arith

  tally_counts :
      (skills : List SkillRef)
      → ((tally cards skills).0 ≤ length skills)
        × (eqb (tally cards skills).0 (length skills) ≡ all_resolved skills)
  unfolding tally
  tally_counts [] = (ground arith, refl)
  tally_counts (s ∷ rest) =
      let ih = tally_counts rest in
      let step =
        counted-IsTally (skill_problem cards s) (tally cards rest) (length rest) (all_resolved rest)
          ih.0 ih.1 in
      (step.0, step.1 ∙ ap (λ b. b && all_resolved rest) (is_none-skill_problem s))

  -- the collection lists skills, and all of them are resolved
  abbrev pub lists_resolved : SkillCollection → Bool
  lists_resolved c = not (is_nil c.spec.skills) && all_resolved c.spec.skills

  pub listed_condition-holds :
      (c : SkillCollection) → is_condition_true (listed_condition cards c).status ≡ lists_resolved c
  unfolding listed_condition tally_condition condition_of is_condition_true
  listed_condition-holds c = ground (arith, (tally_counts c.spec.skills).1)

  pub listed_condition-type :
      (c : SkillCollection) → (listed_condition cards c).condition_type ≡ "Ready"
  unfolding listed_condition tally_condition condition_of
  listed_condition-type c = ground arith
