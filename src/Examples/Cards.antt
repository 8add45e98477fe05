-- ===== src/Examples/Cards.antt =====
-- A skill card that was an image and is inline content now.
use agentic_controller.Prelude.{
  ◌≡◌, refl, not, ◌&&◌, none, some, [], ◌∷◌, ◌==◌, is_some, if◌then◌else◌,
}
use agentic_controller.Api.{condition_true, text}
use agentic_controller.Api.Sample.{list_conditions}
use agentic_controller.SkillCard.{CardCluster, SkillCard, present, reconcile_card}
use agentic_controller.SkillCard.Reported.{Reports, is_accepted, reconcile_card-Reports}

abbrev cluster : CardCluster
cluster = record {
  library = list_conditions;
  resolver = some (λ ref. (present, text ref));
  validate_inline = λ content. if content == "# Java" then some (text "no frontmatter") else none;
  patch_error = none;
}

abbrev card : SkillCard
card = record {
  generation = 3;
  spec = record { image = ""; source = ""; inline = "# Java" };
  status = record {
    observed_generation = 2;
    resolved_image = "quay.io/skills/java:1";
    delivery_mode = "image";
    conditions =
        record {
          condition_type = "Resolvable";
          status = condition_true;
          observed_generation = 2;
          reason = "ArtifactPresent";
          message = text "found";
        }
        ∷ [];
  };
}

card_run : (reconcile_card cluster card).0.status.delivery_mode ≡ "inline"
unfolding reconcile_card
card_run = refl

reconcile_card-Reports_example :
    Reports cluster
      (is_accepted cluster card)
      card.spec.image
      (not (card.spec.image == "") && is_some cluster.resolver)
      (reconcile_card cluster card).0
reconcile_card-Reports_example = reconcile_card-Reports cluster card
