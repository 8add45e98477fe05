-- ===== src/Params.antt =====
-- internal/controller/params.go: parameters coerced to their declared types, and their substitution in
-- texts. A text is the list of its code points, a Go map a list of its entries, the newest first.
pub mod Integers
pub mod Substitution
pub mod Typed
pub mod Files
pub mod Canonical
use agentic_controller.Prelude.{
  ℕ, ℤ, String, Bool, true, false, not, Option, none, some, List, [], ◌∷◌, Result, ok, err, ◌>>=◌,
  ◌==◌, if◌then◌else◌,
}
use agentic_controller.Text.Split.{is_nil, is_among}
use agentic_controller.Text.{codes}
use agentic_controller.Message.{Message, text, runes, format2}
use agentic_controller.Api.{Param, ParamValue}
use agentic_controller.Params.Integers.{parse_int, format_int}

-- What `strconv` reads and prints as a 64-bit float.
pub record Floats : Type 1 where
  pub Float : Type 0
  pub parse : List ℕ → Option Float
  pub print : Float → List ℕ

-- the values of a section of params.json, coerced or decoded
pub data Value (F : Type 0) : Type 0 where
  int : ℤ → Value F
  float : F → Value F
  flag : Bool → Value F
  string : List ℕ → Value F
  -- a `json.Number`, which keeps its text
  number : List ℕ → Value F

abbrev pub Entries : Type 0 → Type 0
Entries A = List (String × A)

unfoldable pub lookup : {A : Type 0} → String → Entries A → Option A
lookup name [] = none
lookup name ((key, value) ∷ rest) =
    let later = lookup name rest in if key == name then some value else later

abbrev supplied_from : Entries (List ℕ) → List ParamValue → Entries (List ℕ)
supplied_from m [] = m
supplied_from m (v ∷ vs) = supplied_from ((v.name, codes v.value) ∷ m) vs

-- `suppliedValues`
unfoldable pub supplied_values : List ParamValue → Entries (List ℕ)
supplied_values values = supplied_from [] values

-- `strconv.ParseBool`
unfoldable pub parse_bool : List ℕ → Option Bool
unfolding is_among
parse_bool s =
    if is_among s ("1" ∷ "t" ∷ "T" ∷ "TRUE" ∷ "true" ∷ "True" ∷ [])
    then some true
    else if is_among s ("0" ∷ "f" ∷ "F" ∷ "FALSE" ∷ "false" ∷ "False" ∷ [])
    then some false
    else none

-- `strconv.FormatBool`
abbrev pub format_bool : Bool → List ℕ
format_bool true = codes "true"
format_bool false = codes "false"

module _ (floats : Floats) where
  -- a number is an integer where it can be one
  number_from :
      Param → List ℕ → Option ℤ → Option floats.Float → Result Message (Value floats.Float)
  number_from p value (some i) f = ok (int i)
  number_from p value none (some f) = ok (float f)
  number_from p value none none = err (
      format2 "parameter %q declared number but value %q is not numeric" (text p.name)
        (runes value))

  flag_from : Param → List ℕ → Option Bool → Result Message (Value floats.Float)
  flag_from p value (some b) = ok (flag b)
  flag_from p value none = err (
      format2 "parameter %q declared boolean but value %q is not a boolean" (text p.name)
        (runes value))

  -- a value that is not empty, by the declared type
  unfoldable pub coerce_value : Param → List ℕ → Result Message (Value floats.Float)
  unfolding number_from flag_from parse_bool parse_int
  coerce_value p value =
      if p.param_type == "number"
      then number_from p value (parse_int value) (floats.parse value)
      else if p.param_type == "boolean"
      then flag_from p value (parse_bool value)
      else ok (string value)

  -- `stringifyJSON`
  unfoldable pub stringify_json : Value floats.Float → List ℕ
  unfolding format_int
  stringify_json (int i) = format_int i
  stringify_json (float f) = floats.print f
  stringify_json (flag b) = format_bool b
  stringify_json (string s) = s
  stringify_json (number s) = s

  pub record Coerced : Type 0 where
    pub values : Entries (Value floats.Float)
    pub strings : Entries (List ℕ)

  abbrev or_default : Param → Option (List ℕ) → List ℕ
  or_default p none = codes p.default_value
  or_default p (some value) = value

  keep_value : Coerced → Param → Result Message (Value floats.Float) → Result Message Coerced
  unfolding stringify_json
  keep_value m p (err e) = err e
  keep_value m p (ok v) =
      ok (record {
        values = (p.name, v) ∷ m.values;
        strings = (p.name, stringify_json v) ∷ m.strings;
      })

  -- the body of the loop: a parameter without a value is only a known name
  unfoldable pub coerce_param : Entries (List ℕ) → Coerced → Param → Result Message Coerced
  unfolding keep_value coerce_value lookup
  coerce_param supplied m p =
      let value = or_default p (lookup p.name supplied) in
      if is_nil value
      then ok (record { values = m.values; strings = (p.name, []) ∷ m.strings })
      else keep_value m p (coerce_value p value)

  unfoldable pub coerce_all : Entries (List ℕ) → Coerced → List Param → Result Message Coerced
  unfolding coerce_param
  coerce_all supplied m [] = ok m
  coerce_all supplied m (p ∷ ps) = do next ← coerce_param supplied m p; coerce_all supplied next ps

  -- `coerceParams`
  unfoldable pub coerce_params : List Param → Entries (List ℕ) → Result Message Coerced
  unfolding coerce_all
  coerce_params decls supplied = coerce_all supplied (record { values = []; strings = [] }) decls
