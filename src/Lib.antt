-- ===== src/Lib.antt =====
-- The agentic controller runs agents on Kubernetes: an AgentRun is one run of an Agent in a Sandbox,
-- an AgentWorkflowRun runs the stages of an AgentWorkflow one after the other, an AgentRun each, and the
-- harness is the program inside the Sandbox that prompts the agent, measures its work, pushes it and
-- reports the outcome by its exit code and a termination blob, which the AgentRun controller reads.
--
-- What models which part:
--   Api, Api/Conditions  the types of api/v1alpha1 (Phase, AgentRun, Agent, ...); `StatusConditions` is
--                        the interface to apimachinery's functions on conditions, with the laws that
--                        the proofs use, and Api/Sample shows that a list meets them
--   Message              the texts of messages, which stay unrendered: a format with its arguments
--   Execution            internal/controller/execution.go
--   Text                 what the program uses of Go's strings and unicode packages, over lists of code
--                        points
--   Params, Params/Substitution, Params/Files, Params/Integers
--                        internal/controller/params.go: the coercion of parameters, their substitution
--                        in texts, the sections of params.json, and the integers of strconv
--   AgentRun/Pod         what internal/controller/agentrun_controller.go reads off a pod (terminalPod,
--                        podStartupProblem, podStartTime, ...)
--   AgentRun/Status      setTerminalOutcome, setRunSucceeded and stampCompletion of that file
--   AgentRun/Verdict     internal/controller/verification.go: the Verified condition
--   AgentRun/Phase       updatePhaseFromSandbox
--   AgentRun/Admission   validateParams and validateGateway
--   AgentRun/FileMounts  validateFileMounts and what it calls
--   AgentRun/Reconcile   Reconcile and reconcileTTL of the AgentRun controller
--   Workflow, Workflow/Creation, Workflow/Reconcile
--                        internal/controller/agentworkflowrun_controller.go: the types,
--                        createAgentRunForStage, and Reconcile with reconcileTTL
--   Gateway, Gateway/Reconcile, Gateway/Names
--                        internal/controller/gateway_controller.go, with sanitizeVolumeName of
--                        agentrun_controller.go
--   Readiness            internal/controller/agent_controller.go
--   SkillCard            internal/controller/skillcard_controller.go
--   Workflow/Readiness   internal/controller/agentworkflow_controller.go
--   Skills, Skills/Discover, Skills/Check, Skills/Copy, Skills/Load, Skills/Paths
--                        internal/skills/load.go, with the types of api/skill: collect, discover and
--                        clone, check, copyTree, and Load; and what they use of path/filepath
--   SkillCollection, SkillCollection/Enumerate, SkillCollection/Errors, SkillCollection/Jobs,
--   SkillCollection/Reconcile
--                        internal/controller/skillcollection_controller.go and
--                        skillcollection_enumerate.go
--   SkillCollection/Identity
--                        internal/controller/skillcollection_rbac.go
--   Cleanup              internal/controller/run_cleanup.go
--   Harness/Outcome      harness/cmd/migration-harness/outcome.go: classifyOutcome, combineUsage
--   Harness/TerminationLog
--                        writeTerminationLog and truncateRuneSafe of that file
--   Harness/Verification, Harness/Pass
--                        harness/cmd/migration-harness/verify.go: the record and its settling, and
--                        runPlanVerification
--   Harness/Plan, Harness/Markdown
--                        the reading of the Verification section of docs/plan.md: parsePlanVerification
--                        of verify.go and handoffProseLines of handoff.go beside it
--   Harness/Output       tailBuffer, clipVerify, clipVerifyTail and lastLines of verify.go
--   Harness/Handoff, Harness/Redaction
--                        handoff.go and redact.go beside it: the verdict of a handoff, and the masking
--                        of secrets
--   Harness/Session, Harness/Session/Answers
--                        harness/internal/acp/session.go: SendPrompt, and the replies to the agent's
--                        requests
--   Harness/Stage        the end of runStage in harness/cmd/migration-harness/main.go
--   Contract             both sides of the exit-code contract together
--   AgentRun/Histories, Workflow/Histories
--                        sequences of reconciles
-- The modules below these, one for each subject, hold the proofs; Examples holds concrete runs.
--
-- A reconcile is a function from the stored object and the answers of its surroundings (`Env`,
-- `RunCluster`, `Cluster`, `Store`: the API server, the clock, the configuration, third-party
-- libraries) to its effects: what it creates, patches and deletes, and its reply. A harness stage is a
-- function of `StageRun` and `Workspace`, which hold what the agent's session, git, the file system and
-- the shell answer. Every answer is arbitrary in the theorems; the hypotheses on third-party code are
-- `SetsOwner`, for SetControllerReference, `IsKeyed`, for reads by name, and `IsCompact`, for the size of
-- what encoding/json writes.
--
-- Every loop is recursion on its list, but for the print of an integer, whose fuel is one more than the
-- number, and for the copy of a directory, which recurs on the depth that copyDir still allows. Times are natural
-- numbers of nanoseconds, and subtractions are guarded as the source guards them.
--
-- Not modelled: stale caches and the merging of patches; createSandbox and what it makes, the look
-- at the sources of file mounts and stageAgentRunName, which the two controllers ask of their
-- surroundings, as they do the results of params.go; EnvFrom, valueFrom, GitConfig and the transition
-- times of conditions; the collection of the secrets; notices, events and log lines; the pod of
-- a Gateway's Job and its command; the mapping of watched objects to requests;
-- network and process code of the harness.
--
-- Regular expressions are written out as the matching that they stand for. Letters whose lower-case form
-- is not ASCII are left as they are where the program lowers a text, and texts are taken to be valid
-- UTF-8.
mod Prelude
pub mod SkillCollection
pub mod Skills
pub mod SkillCard
pub mod Message
pub mod Api
pub mod Text
pub mod Execution
pub mod Params
pub mod Contract
pub mod AgentRun
pub mod Workflow
pub mod Gateway
pub mod Readiness
pub mod Cleanup
pub mod Harness
mod Examples
