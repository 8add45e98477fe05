-- ===== src/Workflow/Creation.antt =====
-- `createAgentRunForStage`: the AgentRun of one stage. The event for skipped parameters is left out.
use agentic_controller.Prelude.{
  ℕ, ◌+◌, String, Bool, false, ◌&&◌, ◌||◌, Option, none, some, List, [], ◌∷◌, ◌++◌, Result, ok, err,
  ◌==◌, if◌then◌else◌,
}
use agentic_controller.Api.{
  Param, ParamValue, EnvVar, OwnerReference, AgentRun, Agent, unset, ApiError, not_found,
  already_exists, unavailable, Message, text, count, format1, format2, format3,
}
use agentic_controller.Execution.{resolve_execution}
use agentic_controller.Workflow.{Stage, WorkflowRun, WorkflowParams, Cluster}

-- A configuration error is permanent, any other is retried.
pub data StageError : Type 0 where
  config_error : Message → StageError
  other_error : Message → StageError

-- an API error as it is wrapped
abbrev pub wrapped : ApiError → Message
wrapped not_found = text "not found"
wrapped already_exists = text "already exists"
wrapped (unavailable m) = m

unfoldable pub declares : String → List Param → Bool
declares name [] = false
declares name (p ∷ ps) = p.name == name || declares name ps

-- the parameters that the stage's Agent declares
unfoldable pub declared_params : List Param → List ParamValue → List ParamValue
unfolding declares
declared_params decls [] = []
declared_params decls (p ∷ ps) =
    let rest = declared_params decls ps in if declares p.name decls then p ∷ rest else rest

-- `labels[key] = value` on a map
unfoldable pub put_label : String → String → List (String × String) → List (String × String)
put_label k v [] = (k, v) ∷ []
put_label k v ((j, w) ∷ m) = if j == k then (k, v) ∷ m else (j, w) ∷ put_label k v m

unfoldable pub stage_labels : WorkflowRun → Stage → List (String × String)
stage_labels run stage = put_label "konveyor.io/stage" stage.name (
    put_label "konveyor.io/agentworkflowrun" run.meta.name
      (put_label "app.kubernetes.io/managed-by" "agentic-controller" run.meta.labels))

-- The user's variables come first, since the last entry of a name wins. A guide is passed on
-- only if there is one.
unfoldable pub stage_env : List EnvVar → Option String → ℕ → ℕ → List EnvVar
stage_env env guide index total =
    env
    ++ ((elim guide [
      | none ↦ []
      | some g ↦ record { name = "KONVEYOR_WORKFLOW_GUIDE"; value = text g } ∷ []
    ])
        ++ (record { name = "KONVEYOR_WORKFLOW_STAGE"; value = format1 "%d" (count (index + 1)) }
            ∷ record { name = "KONVEYOR_WORKFLOW_STAGE_COUNT"; value = format1 "%d" (count total) }
            ∷ []))

-- whether a controller owner reference points to the parent
unfoldable pub is_owned_by : List OwnerReference → String → Bool
is_owned_by [] uid = false
is_owned_by (r ∷ refs) uid = r.controller && r.uid == uid || is_owned_by refs uid

-- What the call leaves: the AgentRun that it asked the API server to create, if it got so far, and
-- the name or the error that it returns.
pub record Creation : Type 0 where
  pub requested : Option AgentRun
  pub result : Result StageError String

abbrev pub refused : StageError → Creation
refused e = record { requested = none; result = err e }

module _ (c : Cluster) where
  unfoldable pub stage_agent_run :
      WorkflowRun → Stage → ℕ → ℕ → Agent → WorkflowParams → Option String → AgentRun
  unfolding stage_labels stage_env declared_params
  stage_agent_run run stage index total agent params guide = record {
    meta = record {
      name = c.agent_run_name run.meta.name stage.name;
      namespace = run.meta.namespace;
      uid = "";
      generation = 0;
      labels = stage_labels run stage;
      owner_references = [];
    };
    spec = record {
      agent_ref = stage.agent_ref;
      gateway = run.spec.gateway;
      params = declared_params agent.params run.spec.params;
      instructions = stage.instructions;
      execution = resolve_execution stage.execution agent.execution;
      workflow_params = params.raw;
      env = stage_env run.spec.env guide index total;
      file_mounts = run.spec.file_mounts;
      ttl_seconds_after_finished = none;
      startup_deadline_seconds = none;
    };
    status = record {
      phase = unset;
      observed_generation = 0;
      sandbox_name = "";
      start_time = none;
      completion_time = none;
      duration = none;
      conditions = [];
      termination_data = none;
    };
  }

  -- A run of that name is taken over if this workflow run owns it.
  unfoldable pub adopt : WorkflowRun → String → Result ApiError AgentRun → Result StageError String
  adopt run name (err e) =
      err (other_error (format2 "fetching existing AgentRun %q: %w" (text name) (wrapped e)))
  adopt run name (ok existing) =
      if is_owned_by existing.meta.owner_references run.meta.uid
      then ok name
      else err (
          other_error (
            format1 "AgentRun %q already exists but is not owned by this workflow run" (text name)))

  unfoldable pub after_create :
      WorkflowRun → Stage → String → Option ApiError → Result StageError String
  unfolding adopt
  after_create run stage name none = ok name
  after_create run stage name (some already_exists) = adopt run name (c.get_agent_run name)
  after_create run stage name (some e) =
      err (other_error (format2 "creating AgentRun for stage %q: %w" (text stage.name) (wrapped e)))

  unfoldable pub create_owned : WorkflowRun → Stage → String → Result Message AgentRun → Creation
  unfolding after_create
  create_owned run stage name (err e) =
      refused (other_error (format1 "setting AgentRun owner reference: %w" e))
  create_owned run stage name (ok child) = record {
    requested = some child;
    result = after_create run stage name (c.create_agent_run child);
  }

  -- the guide with its references resolved, `none` where the snapshot has none
  unfoldable pub resolve_guide : String → WorkflowParams → Result StageError (Option String)
  resolve_guide guide params =
      if guide == "" then ok none else elim (c.substitute guide params.values) [
        | err e ↦ err (config_error (format1 "workflow guide: %w" e))
        | ok g ↦ ok (some g)
      ]

  unfoldable pub create_with_guide :
      WorkflowRun
      → Stage
      → ℕ
      → ℕ
      → Agent
      → WorkflowParams
      → Result StageError (Option String)
      → Creation
  unfolding create_owned
  create_with_guide run stage index total agent params (err e) = refused e
  create_with_guide run stage index total agent params (ok guide) =
      create_owned run stage (c.agent_run_name run.meta.name stage.name)
        (c.set_controller_reference run (stage_agent_run run stage index total agent params guide))

  unfoldable pub create_with_params :
      WorkflowRun → Stage → ℕ → ℕ → Agent → Result Message WorkflowParams → Creation
  unfolding create_with_guide resolve_guide
  create_with_params run stage index total agent (err e) =
      refused (config_error (format1 "resolving workflow params: %w" e))
  create_with_params run stage index total agent (ok params) =
      create_with_guide run stage index total agent params (resolve_guide run.status.guide params)

  unfoldable pub create_for_agent : WorkflowRun → Stage → ℕ → ℕ → Result ApiError Agent → Creation
  unfolding create_with_params
  create_for_agent run stage index total (err e) = refused (
      other_error (
        format3 "looking up Agent %q for stage %q: %w" (text stage.agent_ref) (text stage.name)
          (wrapped e)))
  create_for_agent run stage index total (ok agent) =
      create_with_params run stage index total agent
        (c.resolve_params run.status.params run.spec.params)

  unfoldable pub create_agent_run_for_stage : WorkflowRun → Stage → ℕ → ℕ → Creation
  unfolding create_for_agent
  create_agent_run_for_stage run stage index total =
      create_for_agent run stage index total (c.get_agent stage.agent_ref)
