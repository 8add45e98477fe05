-- ===== src/AgentRun/Admission.antt =====
-- The checks of internal/controller/agentrun_controller.go that a run passes before its Sandbox is
-- made: `validateParams` and `validateGateway`. What `buildParams` and the substitution of params.go
-- give is an argument.
use agentic_controller.Prelude.{
  String, Bool, not, ◌&&◌, Option, none, some, List, [], ◌∷◌, Result, ok, err, ◌==◌, length, any,
  if◌then◌else◌,
}
use agentic_controller.Api.{
  Param, ParamValue, AgentRun, Agent, Message, text, count, format1, format2,
}

unfoldable pub is_declared : List Param → String → Bool
is_declared decls name = any (λ p. p.name == name) decls

unfoldable pub is_supplied : List ParamValue → String → Bool
is_supplied values name = any (λ p. p.name == name) values

unfoldable pub first_undeclared : List Param → List ParamValue → Option String
first_undeclared decls [] = none
first_undeclared decls (p ∷ ps) =
    let rest = first_undeclared decls ps in if is_declared decls p.name then rest else some p.name

unfoldable pub first_missing : List ParamValue → List Param → Option String
first_missing values [] = none
first_missing values (p ∷ ps) =
    let rest = first_missing values ps in
    if p.required && p.default_value == "" && not (is_supplied values p.name)
    then some p.name
    else rest

-- `build` gives the params.json content and the substitution scopes, or the error of the coercion
-- or of a reference.
unfoldable pub validate_params :
    {Params : Type 0}
    → (AgentRun → Agent → Result Message Params)
    → AgentRun
    → Agent
    → Result Message Params
validate_params build run agent = elim (first_undeclared agent.params run.spec.params) [
  | some name ↦ err (format2 "param %q is not declared by Agent %q" (text name) (text agent.name))
  | none ↦ elim (first_missing run.spec.params agent.params) [
    | some name ↦ err (format1 "required param %q not supplied" (text name))
    | none ↦ build run agent
  ]
]

unfoldable pub choose_gateway : AgentRun → Agent → List String → Result Message AgentRun
choose_gateway run agent [] =
    err (format1 "agent %q declares no gateways; select one via spec.gateway" (text agent.name))
choose_gateway run agent (g ∷ []) = ok (record run { spec = record run.spec { gateway = g } })
choose_gateway run agent gs = err (
    format2 "agent %q declares %d gateways; select one via spec.gateway" (text agent.name)
      (count (length gs)))

unfoldable pub allow_gateway : AgentRun → Agent → List String → Result Message AgentRun
allow_gateway run agent [] = ok run
allow_gateway run agent (g ∷ gs) =
    if any (λ h. h == run.spec.gateway) (g ∷ gs)
    then ok run
    else err
        (format2 "gateway %q is not in Agent %q gateways" (text run.spec.gateway) (text agent.name))

-- the run with its gateway chosen
unfoldable pub validate_gateway : AgentRun → Agent → Result Message AgentRun
unfolding choose_gateway allow_gateway
validate_gateway run agent =
    if run.spec.gateway == ""
    then choose_gateway run agent agent.gateways
    else allow_gateway run agent agent.gateways
