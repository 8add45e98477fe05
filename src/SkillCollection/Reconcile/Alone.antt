-- ===== src/SkillCollection/Reconcile/Alone.antt =====
-- The Jobs that a reconcile of a SkillCollection creates.
use agentic_controller.Prelude.{Bool}
use agentic_controller.SkillCollection.{SkillCollection}
use agentic_controller.SkillCollection.Jobs.{Jobs}

-- the collection as a reconcile reports it
abbrev pub observing : SkillCollection → SkillCollection
observing c = record c { status = record c.status { observed_generation = c.generation } }
