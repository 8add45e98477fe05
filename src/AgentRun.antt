-- ===== src/AgentRun.antt =====
-- internal/controller/agentrun_controller.go: the AgentRun controller.
pub mod Pod
pub mod Status
pub mod Verdict
pub mod Phase
pub mod Lifecycle
pub mod Deadline
pub mod Admission
pub mod FileMounts
pub mod Reconcile
pub mod Histories
