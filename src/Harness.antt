-- ===== src/Harness.antt =====
-- harness/cmd/migration-harness: how the harness ends a stage.
pub mod Markdown
pub mod Plan
pub mod Redaction
pub mod Output
pub mod Handoff
pub mod Outcome
pub mod Verification
pub mod Pass
pub mod Stage
pub mod TerminationLog
pub mod Session
