-- ===== src/SkillCard/Reported.antt =====
-- What the status of a SkillCard reports after a reconcile, whatever it was before.
use agentic_controller.Prelude.{
  ◌≡◌, ◌≢◌, refl, sym, ap, ◌∙◌, String, Bool, true, false, not, ◌&&◌, ◌||◌, Option, none, some,
  ◌==◌, is_some, Bool-cases, inl, inr, eq_iff, arith,
}
use mathlib.Core.Bool.{true≢false}
use agentic_controller.Api.{
  Message, ConditionStatus, condition_true, condition_false, condition_unknown,
}
use agentic_controller.Api.Conditions.{is_condition_true}
use agentic_controller.Readiness.Ready.{holds_true}
use agentic_controller.SkillCard.{
  SkillCard, Resolution, present, missing, unknown, CardCluster, set_card_condition,
  drop_resolvable, delivered, resolution_condition, set_resolvable, reconcile_image,
  reconcile_source, judge_inline, reconcile_inline, reconcile_empty, deliver, reconcile_card,
  condition_of,
}

resolvable_differs : ◌≢◌ {A = String} "Resolvable" "Ready"
resolvable_differs k = true≢false (sym (ap (λ s. s == "Ready") k))

ready_differs : ◌≢◌ {A = String} "Ready" "Resolvable"
ready_differs k = resolvable_differs (sym k)

module _ (c : CardCluster) where
  -- Whether the card is ready, its image, and whether anything is said on the image.
  pub record Reports (ready : Bool) (image : String) (resolvable : Bool) (card : SkillCard)
      : Type 0 where
    pub is_ready : holds_true (c.library.find card.status.conditions "Ready") ≡ ready
    pub resolved : card.status.resolved_image ≡ image
    pub is_resolvable : is_some (c.library.find card.status.conditions "Resolvable") ≡ resolvable

  -- a card that says nothing on its image, with a condition Ready
  unresolvable-Reports :
      (card : SkillCard) (image mode reason : String) (status : ConditionStatus) (m : Message)
      → Reports (is_condition_true status) image false (
          set_card_condition c
            (drop_resolvable c (delivered c image mode card))
            "Ready"
            status
            reason
            m)
  unfolding set_card_condition condition_of drop_resolvable delivered
  unresolvable-Reports card image mode reason status m =
      let l = c.library.remove card.status.conditions "Resolvable" in
      let x = condition_of c card "Ready" status reason m in
      record {
        is_ready = ap holds_true (c.library.find-set_self l x);
        resolved = refl;
        is_resolvable = ap is_some (
            c.library.find-set_ne l x "Resolvable" ready_differs
            ∙ c.library.find-remove_self card.status.conditions "Resolvable");
      }

  resolution-Reports :
      (card : SkillCard) (reason : String) (status : ConditionStatus) (m : Message) (image : String)
      → holds_true (c.library.find card.status.conditions "Ready") ≡ true
      → card.status.resolved_image ≡ image
      → Reports true image true (set_card_condition c card "Resolvable" status reason m)
  unfolding set_card_condition condition_of
  resolution-Reports card reason status m image h k =
      let x = condition_of c card "Resolvable" status reason m in
      record {
        is_ready =
            ap holds_true
              (c.library.find-set_ne card.status.conditions x "Ready" resolvable_differs)
            ∙ h;
        resolved = k;
        is_resolvable = ap is_some (c.library.find-set_self card.status.conditions x);
      }

  resolution_condition-Reports :
      (card : SkillCard) (answer : Resolution × Message) (image : String)
      → holds_true (c.library.find card.status.conditions "Ready") ≡ true
      → card.status.resolved_image ≡ image
      → Reports true image true (resolution_condition c card answer)
  unfolding resolution_condition
  resolution_condition-Reports card (present, m) image h k =
      resolution-Reports card "ArtifactPresent" condition_true m image h k
  resolution_condition-Reports card (missing, m) image h k =
      resolution-Reports card "ArtifactMissing" condition_false m image h k
  resolution_condition-Reports card (unknown, m) image h k =
      resolution-Reports card "ResolveInconclusive" condition_unknown m image h k

  set_resolvable-Reports :
      (card : SkillCard) (resolver : Option (String → Resolution × Message)) (image : String)
      → holds_true (c.library.find card.status.conditions "Ready") ≡ true
      → card.status.resolved_image ≡ image
      → Reports true image (is_some resolver) (set_resolvable c card resolver).0
  unfolding set_resolvable drop_resolvable
  set_resolvable-Reports card none image h k =
      let l = card.status.conditions in
      record {
        is_ready =
            ap holds_true (c.library.find-remove_ne l "Resolvable" "Ready" resolvable_differs) ∙ h;
        resolved = k;
        is_resolvable = ap is_some (c.library.find-remove_self l "Resolvable");
      }
  set_resolvable-Reports card (some resolve) image h k =
      resolution_condition-Reports card (resolve card.spec.image) image h k

  reconcile_image-Reports :
      (card : SkillCard)
      → Reports true card.spec.image (is_some c.resolver) (reconcile_image c card).0
  unfolding reconcile_image set_card_condition condition_of delivered is_condition_true
  reconcile_image-Reports card =
      set_resolvable-Reports _ c.resolver card.spec.image
        (ap holds_true (c.library.find-set_self card.status.conditions _)) refl

  judge_inline-Reports :
      (card : SkillCard) (answer : Option Message)
      → Reports
          (not (is_some answer))
          ""
          false
          (judge_inline c (drop_resolvable c (delivered c "" "inline" card)) answer)
  unfolding judge_inline is_condition_true
  judge_inline-Reports card none =
      unresolvable-Reports card "" "inline" "InlineAccepted" condition_true _
  judge_inline-Reports card (some m) =
      unresolvable-Reports card "" "inline" "InvalidSkillContent" condition_false m

  -- content that the controller accepts, of the first kind that the card has
  abbrev pub is_accepted : SkillCard → Bool
  is_accepted card =
      not (card.spec.image == "")
      || not (card.spec.source == "")
      || (not (card.spec.inline == "") && not (is_some (c.validate_inline card.spec.inline)))

  unnamed-Reports :
      (ready : Bool) (image : String) (card : SkillCard)
      → (image == "") ≡ true
      → Reports ready "" false card
      → Reports ready image false card
  unnamed-Reports ready image card e h =
      let none_named : image ≡ "" = ground (arith, eq_iff image "") in
      record {
        is_ready = h.is_ready;
        resolved = h.resolved ∙ sym none_named;
        is_resolvable = h.is_resolvable;
      }

  deliver-Reports :
      (card : SkillCard)
      → Reports
          (is_accepted card)
          card.spec.image
          (not (card.spec.image == "") && is_some c.resolver)
          (deliver c card).0
  unfolding deliver reconcile_source reconcile_inline reconcile_empty is_condition_true
  deliver-Reports card = elim (Bool-cases (card.spec.image == "")) [
    | inr e ↦ rw e (reconcile_image-Reports card)
    | inl e ↦ elim (Bool-cases (card.spec.source == "")) [
      | inr f ↦
          rw (e, f)
            (unnamed-Reports _ _ _ e
              (unresolvable-Reports card "" "source" "SourceAccepted" condition_true _))
      | inl f ↦ elim (Bool-cases (card.spec.inline == "")) [
        | inr g ↦
            rw (e, f, g)
              (unnamed-Reports _ _ _ e
                (judge_inline-Reports card (c.validate_inline card.spec.inline)))
        | inl g ↦
            rw (e, f, g)
              (unnamed-Reports _ _ _ e
                (unresolvable-Reports card "" "" "NoSourceConfigured" condition_false _))
      ]
    ]
  ]

  -- Whatever the status of a SkillCard was, after a reconcile its condition Ready is True exactly
  -- when it names an image or a source, or else holds inline content that is valid; its resolved
  -- image is the one it names, if any; and it has the condition Resolvable exactly when it names an
  -- image and a resolver is configured.
  pub reconcile_card-Reports :
      (card : SkillCard)
      → Reports
          (is_accepted card)
          card.spec.image
          (not (card.spec.image == "") && is_some c.resolver)
          (reconcile_card c card).0
  unfolding reconcile_card
  reconcile_card-Reports card =
      deliver-Reports
        (record card { status = record card.status { observed_generation = card.generation } })
