-- ===== src/Examples/Parameters.antt =====
-- Parameters of an agent, coerced, printed and put in a text.
use agentic_controller.Prelude.{
  ℕ, pos, negsuc, true, false, none, some, List, [], ◌∷◌, ◌≡◌, refl, All, any, ok, arith,
}
use agentic_controller.Text.{codes}
use agentic_controller.Api.{Param}
use agentic_controller.Params.Canonical.{of_int, coerce_value-stringify_json}
use agentic_controller.Params.Substitution.{Scopes, substitute}
use agentic_controller.Params.Substitution.Rendered.{Renders, substitute-Renders}
use agentic_controller.Params.{
  Floats, Coerced, int, flag, Entries, coerce_value, stringify_json, coerce_params,
}
use agentic_controller.Params.Typed.{
  declares, is_ok, all_coercible, is_ok-coerce_params, coerce_params-declares,
}

-- floats that no text of these runs is read as
abbrev no_floats : Floats
no_floats = record { Float = ℕ; parse = λ s. none; print = λ f. [] }

abbrev retries : Param
retries = record { name = "retries"; param_type = "number"; default_value = "3"; required = false }

abbrev dry_run : Param
dry_run = record { name = "dryRun"; param_type = "boolean"; default_value = ""; required = true }

abbrev decls : List Param
decls = retries ∷ dry_run ∷ []

abbrev supplied : Entries (List ℕ)
supplied = ("dryRun", codes "T") ∷ []

abbrev coerced : Coerced no_floats
coerced = record {
  values = ("dryRun", flag true) ∷ ("retries", int (pos 3)) ∷ [];
  strings = ("dryRun", codes "true") ∷ ("retries", codes "3") ∷ [];
}

coerced_run : coerce_params no_floats decls supplied ≡ ok coerced
unfolding coerce_params
coerced_run = refl

coerce_params-declares_example :
    All (λ e. any (λ p. declares no_floats p e) decls ≡ true) coerced.values
coerce_params-declares_example = coerce_params-declares no_floats decls supplied coerced coerced_run

is_ok-coerce_params_example :
    is_ok (coerce_params no_floats decls supplied) ≡ all_coercible no_floats supplied decls
is_ok-coerce_params_example = is_ok-coerce_params no_floats decls supplied

coerce_value-stringify_json_example :
    coerce_value no_floats retries (stringify_json no_floats (int (negsuc 41)))
    ≡ ok (int (negsuc 41))
coerce_value-stringify_json_example =
    coerce_value-stringify_json no_floats retries (int (negsuc 41))
      (of_int (negsuc 41) (omega arith)) refl

abbrev scopes : Scopes
scopes = record { agent = some coerced.strings; workflow = none }

abbrev prompt : List ℕ
prompt = codes "Try $(agent.retries) times in $(pwd)."

prompt_run : substitute scopes prompt ≡ ok (codes "Try 3 times in $(pwd).")
unfolding substitute
prompt_run = refl

substitute-Renders_example : Renders scopes prompt (codes "Try 3 times in $(pwd).")
substitute-Renders_example = substitute-Renders scopes prompt _ prompt_run
