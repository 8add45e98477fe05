-- ===== src/Workflow.antt =====
-- internal/controller/agentworkflowrun_controller.go: the AgentWorkflowRun controller, which runs the
-- stages of a workflow one after the other.
pub mod Creation
pub mod Reconcile
pub mod Stages
pub mod Order
pub mod Requests
pub mod Expiry
pub mod Success
pub mod Histories
pub mod Labels
pub mod Readiness
use agentic_controller.Prelude.{ℕ, String, Option, List, Result}
use agentic_controller.Api.{
  Phase, ExecutionSpec, Param, ParamValue, EnvVar, FileMount, ObjectMeta, AgentRun, Agent,
  Condition, StatusConditions, ApiError, Message,
}

pub record Stage : Type 0 where
  pub name : String
  pub agent_ref : String
  pub instructions : String
  pub execution : Option ExecutionSpec

-- `AgentWorkflow`, its spec and its conditions
pub record Workflow : Type 0 where
  pub guide : String
  pub stages : List Stage
  pub params : List Param
  pub conditions : List Condition

-- `AgentWorkflowRunStageStatus`; the stage's definition is a snapshot
pub record StageStatus : Type 0 where
  pub name : String
  pub phase : Phase
  pub agent_run_name : String
  pub agent_ref : String
  pub instructions : String
  pub execution : Option ExecutionSpec

pub record WorkflowRunSpec : Type 0 where
  pub workflow_ref : String
  pub gateway : String
  pub params : List ParamValue
  pub env : List EnvVar
  pub file_mounts : List FileMount
  pub ttl_seconds_after_finished : Option ℕ

pub record WorkflowRunStatus : Type 0 where
  pub phase : Phase
  pub observed_generation : ℕ
  pub current_stage : String
  pub stages : List StageStatus
  pub guide : String
  pub params : List Param
  pub start_time : Option ℕ
  pub completion_time : Option ℕ
  pub conditions : List Condition

pub record WorkflowRun : Type 0 where
  pub meta : ObjectMeta
  pub spec : WorkflowRunSpec
  pub status : WorkflowRunStatus

-- the values of the workflow's parameters: as JSON for the stage's run, and as texts for the guide
pub record WorkflowParams : Type 0 where
  pub raw : Option String
  pub values : List (String × String)

-- What a reconcile is given: its libraries, its clock and its configuration, and what the API server
-- answers. `resolve_params` and `substitute` are the helpers of params.go, `agent_run_name` is
-- `stageAgentRunName`.
pub record Cluster : Type 0 where
  pub conditions : StatusConditions
  pub now : ℕ
  pub default_ttl : Option ℕ
  pub resolve_params : List Param → List ParamValue → Result Message WorkflowParams
  pub substitute : String → List (String × String) → Result Message String
  pub agent_run_name : String → String → String
  pub set_controller_reference : WorkflowRun → AgentRun → Result Message AgentRun
  pub get_workflow : String → Result ApiError Workflow
  pub get_agent : String → Result ApiError Agent
  pub get_agent_run : String → Result ApiError AgentRun
  pub create_agent_run : AgentRun → Option ApiError
  pub patch_error : Option ApiError
  pub delete_error : Option ApiError
