-- ===== src/Params/Canonical.antt =====
-- The print of a coerced value, coerced again.
use agentic_controller.Prelude.{ℕ, ℤ, ◌≡◌, refl, Bool, true, false, some, List, ok, ◌==◌, arith}
use agentic_controller.Api.{Param}
use agentic_controller.Params.Integers.{IsInt64, parse_int-format_int}
use agentic_controller.Params.Typed.{has_type}
use agentic_controller.Params.{
  Floats, Value, int, flag, string, parse_bool, format_bool, coerce_value, number_from, flag_from,
  stringify_json,
}

-- the values that have one print: a float may print as an integer
pub data HasPrint {F : Type 0} : Value F → Type 0 where
  of_int : (i : ℤ) → IsInt64 i → HasPrint (int i)
  of_flag : (b : Bool) → HasPrint (flag b)
  of_string : (s : List ℕ) → HasPrint (string s)

parse_bool-format_bool : (b : Bool) → parse_bool (format_bool b) ≡ some b
unfolding parse_bool
parse_bool-format_bool true = refl
parse_bool-format_bool false = refl

module _ (floats : Floats) where
  -- The print of an integer of 64 bits, a flag or a string, given as the value of a parameter of its
  -- type, is coerced to the value that was printed.
  pub coerce_value-stringify_json :
      (p : Param) (v : Value floats.Float)
      → HasPrint v
      → has_type p.param_type v ≡ true
      → coerce_value floats p (stringify_json floats v) ≡ ok v
  unfolding coerce_value stringify_json
  coerce_value-stringify_json p _ (of_int i h) t =
      rw (t, parse_int-format_int i h) (unfold number_from in refl)
  coerce_value-stringify_json p _ (of_flag b) t =
      let other : (p.param_type == "number") ≡ false = ground arith in
      let same : (p.param_type == "boolean") ≡ true = ground arith in
      rw (other, same, parse_bool-format_bool b) (unfold flag_from in refl)
  coerce_value-stringify_json p _ (of_string s) t = ground arith
