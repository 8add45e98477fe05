-- ===== src/Params/Files.antt =====
-- internal/controller/params.go: the sections of an AgentRun's params.json with the variables of its
-- texts, and the parameters that a workflow run stamps on the AgentRuns of its stages. encoding/json is
-- an argument.
use agentic_controller.Prelude.{
  ℕ, pos, String, Bool, true, false, not, Option, none, some, List, [], ◌∷◌, ◌++◌, Result, ok, err,
  ◌>>=◌, ◌==◌, if◌then◌else◌,
}
use agentic_controller.Text.{codes}
use agentic_controller.Message.{Message, format1}
use agentic_controller.Api.{Param, AgentRun, Agent, ExecutionSpec}
use agentic_controller.Execution.{resolve_execution, effective_mode}
use agentic_controller.Params.Substitution.{Scopes}
use agentic_controller.Params.{
  Floats, Value, int, flag, string, Entries, Coerced, coerce_params, supplied_values,
  stringify_json,
}

-- `encoding/json` on the objects of a section; `decode` keeps numbers as texts (`UseNumber`)
pub record Json (F : Type 0) : Type 0 where
  pub decode : String → Result Message (Entries (Value F))
  pub marshal : Entries (Value F) → Result Message String

module _ (floats : Floats) (json : Json floats.Float) where
  -- `paramsFile`
  pub record ParamsFile : Type 0 where
    pub workflow : Entries (Value floats.Float)
    pub agent : Entries (Value floats.Float)
    pub execution : Entries (Value floats.Float)

  when : Bool → Entries (Value floats.Float) → Entries (Value floats.Float)
  when true section = section
  when false section = []

  max_turns_entry : Option ℕ → Entries (Value floats.Float)
  max_turns_entry none = []
  max_turns_entry (some n) = ("maxTurns", int (pos n)) ∷ []

  settings : Option ExecutionSpec → Entries (Value floats.Float)
  unfolding when max_turns_entry
  settings none = []
  settings (some e) =
      when e.ask_user (("askUser", flag true) ∷ [])
      ++ max_turns_entry e.limits.max_turns
      ++ when (not (e.limits.max_cost == "")) (("maxCost", string (codes e.limits.max_cost)) ∷ [])

  -- `executionSection`
  unfoldable pub execution_section : Option ExecutionSpec → Entries (Value floats.Float)
  unfolding settings effective_mode
  execution_section exec = ("mode", string (codes (effective_mode exec))) ∷ settings exec

  strings_of : Entries (Value floats.Float) → Entries (List ℕ)
  unfolding stringify_json
  strings_of [] = []
  strings_of ((key, value) ∷ rest) = (key, stringify_json floats value) ∷ strings_of rest

  -- the workflow's section: what was stamped on the run, if anything
  stamped : Option String → Result Message (Entries (Value floats.Float))
  stamped none = ok []
  stamped (some raw) = if raw == "" then ok [] else elim (json.decode raw) [
    | ok section ↦ ok section
    | err e ↦ err (format1 "workflow params: %w" e)
  ]

  files_of : AgentRun → Agent → Coerced floats → Entries (Value floats.Float) → ParamsFile × Scopes
  unfolding execution_section resolve_execution strings_of
  files_of run agent coerced section = (
    record {
      workflow = section;
      agent = coerced.values;
      execution = execution_section (resolve_execution run.spec.execution agent.execution);
    },
    record { agent = some coerced.strings; workflow = some (strings_of section) },
  )

  agent_params : AgentRun → Agent → Result Message (Coerced floats)
  unfolding coerce_params supplied_values
  agent_params run agent =
      elim (coerce_params floats agent.params (supplied_values run.spec.params)) [
        | ok coerced ↦ ok coerced
        | err e ↦ err (format1 "agent params: %w" e)
      ]

  -- `buildParams`
  unfoldable pub build_params : AgentRun → Agent → Result Message (ParamsFile × Scopes)
  unfolding agent_params stamped files_of
  build_params run agent = do
    coerced ← agent_params run agent
    section ← stamped run.spec.workflow_params
    ok (files_of run agent coerced section)

  marshal_values : Coerced floats → Result Message (Option String × Entries (List ℕ))
  marshal_values coerced = elim coerced.values [
    | [] ↦ ok (none, coerced.strings)
    | e ∷ es ↦ elim (json.marshal coerced.values) [
      | ok raw ↦ ok (some raw, coerced.strings)
      | err x ↦ err x
    ]
  ]

  -- `coerceWorkflowParams`
  unfoldable pub coerce_workflow_params :
      List Param → Entries (List ℕ) → Result Message (Option String × Entries (List ℕ))
  unfolding marshal_values coerce_params
  coerce_workflow_params decls supplied = coerce_params floats decls supplied >>= marshal_values
