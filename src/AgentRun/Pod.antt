-- ===== src/AgentRun/Pod.antt =====
-- What the AgentRun controller reads off a run's Sandbox and its pod.
use agentic_controller.Prelude.{
  ℕ, String, Bool, true, false, not, ◌&&◌, ◌||◌, Option, none, some, List, [], ◌∷◌, ◌++◌, ◌==◌, eqb,
  Result, ok, err, if◌then◌else◌,
}
use agentic_controller.Api.{Message, text, format1, format2, Condition, ApiError}

pub record Waiting : Type 0 where
  pub reason : String
  pub message : String

-- The exit code is not negative.
pub record Terminated : Type 0 where
  pub exit_code : ℕ
  pub message : String

-- `corev1.ContainerStatus`: `running` holds `StartedAt`, which is 0 where that time is zero
pub record ContainerStatus : Type 0 where
  pub name : String
  pub waiting : Option Waiting
  pub running : Option ℕ
  pub terminated : Option Terminated

pub record PodCondition : Type 0 where
  pub condition_type : String
  pub status : String
  pub reason : String
  pub message : String

pub record Pod : Type 0 where
  pub phase : String
  pub conditions : List PodCondition
  pub init_container_statuses : List ContainerStatus
  pub container_statuses : List ContainerStatus
  pub start_time : Option ℕ

pub record Sandbox : Type 0 where
  pub name : String
  pub namespace : String
  pub creation_timestamp : ℕ
  pub conditions : List Condition

abbrev pub agent_container_name : String
agent_container_name = "agent"

unfoldable pub terminated_in : List ContainerStatus → Option Terminated
terminated_in [] = none
terminated_in (cs ∷ rest) =
    let next = terminated_in rest in
    if cs.name == agent_container_name
    then (elim cs.terminated [ none ↦ next | some t ↦ some t ])
    else next

unfoldable pub agent_container_termination : Option Pod → Option Terminated
unfolding terminated_in
agent_container_termination none = none
agent_container_termination (some pod) = terminated_in pod.container_statuses

-- the exit code and whether there is one
unfoldable pub agent_exit_code : Option Pod → ℕ × Bool
agent_exit_code pod = elim (agent_container_termination pod) [
  | none ↦ (0, false)
  | some t ↦ (t.exit_code, true)
]

unfoldable pub agent_termination_message : Option Pod → String
agent_termination_message pod = elim (agent_container_termination pod) [
  | none ↦ ""
  | some t ↦ t.message
]

-- `is_object` says whether the text unmarshals into a JSON object (encoding/json)
unfoldable pub termination_data_from_pod : (String → Bool) → Option Pod → Option String
termination_data_from_pod is_object pod = elim (agent_container_termination pod) [
  | none ↦ none
  | some t ↦ if t.message == "" then none else if is_object t.message then some t.message else none
]

first_started : List ContainerStatus → Option ℕ
first_started [] = none
first_started (cs ∷ rest) =
    let next = first_started rest in
    elim cs.running [ none ↦ next | some t ↦ if eqb t 0 then next else some t ]

unfoldable pub pod_start_time : Option Pod → ℕ → ℕ
unfolding first_started
pod_start_time none fallback = fallback
pod_start_time (some pod) fallback = elim (first_started pod.container_statuses) [
  | some t ↦ t
  | none ↦ elim pod.start_time [ some t ↦ t | none ↦ fallback ]
]

unfoldable pub fatal_waiting_reason : String → Bool
fatal_waiting_reason r =
    r == "ImagePullBackOff"
    || r == "InvalidImageName"
    || r == "CreateContainerConfigError"
    || r == "CrashLoopBackOff"

-- the machine reason and the message of the first container that cannot start
unfoldable pub stuck_container : List ContainerStatus → Option (String × Message)
unfolding fatal_waiting_reason
stuck_container [] = none
stuck_container (cs ∷ rest) =
    let next = stuck_container rest in
    elim cs.waiting [
      | none ↦ next
      | some w ↦
          let msg = format2 "container %q is stuck on %s" (text cs.name) (text w.reason) in
          if not (fatal_waiting_reason w.reason)
          then next
          else if w.message == ""
          then some (w.reason, msg)
          else some (w.reason, format2 "%s: %s" msg (text w.message))
    ]

-- The init containers come first.
unfoldable pub pod_startup_problem : Option Pod → Option (String × Message)
unfolding stuck_container
pod_startup_problem none = none
pod_startup_problem (some pod) =
    stuck_container (pod.init_container_statuses ++ pod.container_statuses)

unschedulable : List PodCondition → Option Message
unschedulable [] = none
unschedulable (c ∷ rest) =
    let next = unschedulable rest in
    if c.condition_type == "PodScheduled" && c.status == "False" && c.reason == "Unschedulable"
    then (if c.message == ""
        then some (text "unschedulable")
        else some (format1 "unschedulable: %s" (text c.message)))
    else next

waiting_container : List ContainerStatus → Option Message
waiting_container [] = none
waiting_container (cs ∷ rest) =
    let next = waiting_container rest in
    elim cs.waiting [
      | none ↦ next
      | some w ↦
          if w.reason == ""
          then next
          else some (format2 "container %q: %s" (text cs.name) (text w.reason))
    ]

unfoldable pub pod_startup_detail : Option Pod → Message
unfolding unschedulable waiting_container
pod_startup_detail none = text "pod not created yet"
pod_startup_detail (some pod) = elim (unschedulable pod.conditions) [
  | some m ↦ m
  | none ↦ elim (waiting_container (pod.init_container_statuses ++ pod.container_statuses)) [
    | some m ↦ m
    | none ↦ format1 "pod phase %s" (text pod.phase)
  ]
]

-- a failed read, or one that says no more, leaves the cached pod in place
fresh_or : Option Pod → Result ApiError Pod → Option Pod
fresh_or cached (err e) = cached
fresh_or none (ok fresh) = some fresh
fresh_or (some pod) (ok fresh) = elim (agent_container_termination (some fresh)) [
  | none ↦ some pod
  | some t ↦ some fresh
]

-- The second argument is the answer of a direct read of the pod, `none` where there is no
-- such reader.
unfoldable pub terminal_pod : Option Pod → Option (Result ApiError Pod) → Option Pod
unfolding agent_container_termination fresh_or
terminal_pod cached none = cached
terminal_pod cached (some direct) = elim (agent_container_termination cached) [
  | some t ↦ cached
  | none ↦ fresh_or cached direct
]
