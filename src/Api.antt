-- ===== src/Api.antt =====
-- The API types of api/v1alpha1 that the controllers read and write, and what they use of the
-- Kubernetes libraries. A pointer field is an `Option`, a Go `error` of a helper a `Message`.
pub mod Conditions
pub mod Sample
pub use Conditions.*
use agentic_controller.Prelude.{ℕ, ℤ, String, Bool, true, false, Option, List, Result}

-- An `AgentRunPhase`. `unset` is the empty string of a status that no reconcile has written.
pub data Phase : Type 0 where
  unset pending running succeeded failed : Phase

-- `isTerminalPhase` of the AgentRun controller, which both run controllers use
unfoldable pub is_terminal_phase : Phase → Bool
is_terminal_phase succeeded = true
is_terminal_phase failed = true
is_terminal_phase _ = false

pub record ExecutionLimits : Type 0 where
  pub max_turns : Option ℕ
  pub max_cost : String

pub record ExecutionSpec : Type 0 where
  pub mode : String
  pub ask_user : Bool
  pub limits : ExecutionLimits

pub record Param : Type 0 where
  pub name : String
  pub param_type : String
  pub default_value : String
  pub required : Bool

pub record ParamValue : Type 0 where
  pub name : String
  pub value : String

-- `corev1.EnvVar` without `valueFrom`, which the controllers pass on unread
pub record EnvVar : Type 0 where
  pub name : String
  pub value : Message

pub record KeyToPath : Type 0 where
  pub key : String
  pub path : List ℕ

-- the paths are byte strings, which the validation walks
pub record FileMount : Type 0 where
  pub secret_name : String
  pub config_map_name : String
  pub mount_path : List ℕ
  pub sub_path : List ℕ
  pub items : List KeyToPath

-- `metav1.OwnerReference`; a nil `Controller` counts as false everywhere
pub record OwnerReference : Type 0 where
  pub api_version : String
  pub kind : String
  pub name : String
  pub uid : String
  pub controller : Bool

pub record ObjectMeta : Type 0 where
  pub name : String
  pub namespace : String
  pub uid : String
  pub generation : ℕ
  pub labels : List (String × String)
  pub owner_references : List OwnerReference

pub record AgentRunSpec : Type 0 where
  pub agent_ref : String
  pub gateway : String
  pub params : List ParamValue
  pub instructions : String
  pub execution : Option ExecutionSpec
  pub workflow_params : Option String
  pub env : List EnvVar
  pub file_mounts : List FileMount
  pub ttl_seconds_after_finished : Option ℕ
  pub startup_deadline_seconds : Option ℕ

-- Times are nanoseconds since the epoch.
pub record AgentRunStatus : Type 0 where
  pub phase : Phase
  pub observed_generation : ℕ
  pub sandbox_name : String
  pub start_time : Option ℕ
  pub completion_time : Option ℕ
  pub duration : Option ℤ
  pub conditions : List Condition
  pub termination_data : Option String

pub record AgentRun : Type 0 where
  pub meta : ObjectMeta
  pub spec : AgentRunSpec
  pub status : AgentRunStatus

pub record Agent : Type 0 where
  pub name : String
  pub params : List Param
  pub gateways : List String
  pub prompt : String
  pub execution : Option ExecutionLimits
  pub conditions : List Condition

-- How a call of the API server fails: `errors.IsNotFound`, `errors.IsAlreadyExists`, or otherwise.
pub data ApiError : Type 0 where
  not_found already_exists : ApiError
  unavailable : Message → ApiError

-- `ctrl.Result` with the error that a reconcile returns
pub record Reply : Type 0 where
  pub requeue : Bool
  pub requeue_after : ℕ
  pub error : Option ApiError

abbrev pub done : Reply
done = record { requeue = false; requeue_after = 0; error = Option.none }

abbrev pub fail_with : ApiError → Reply
fail_with e = record { requeue = false; requeue_after = 0; error = Option.some e }
