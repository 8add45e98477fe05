-- ===== src/Examples.antt =====
-- Runs at concrete inputs of the components, and each theorem applied at one of them.
mod Gateways
mod Cards
mod Sessions
mod Skills
mod Collections
mod Logs
mod Readiness
mod Documents
mod Reading
mod Parameters
mod AgentRuns
mod Stages
mod Workflows
mod Controllers
