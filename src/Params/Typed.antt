-- ===== src/Params/Typed.antt =====
-- The values of a coercion that succeeds, and when it fails.
use agentic_controller.Prelude.{
  ℕ, ℤ, if_cases, ◌≡◌, refl, String, Bool, true, false, not, ◌&&◌, ◌||◌, Option, none, some, List,
  [], ◌∷◌, Result, ok, err, ◌==◌, any, is_some, All, if◌then◌else◌, arith, ◌>>=◌, Bool-cases, inl,
  inr, ok_inj, err_ok, eq_refl, Result-cases, any-All, All-map,
}
use mathlib.Core.Path.{subst}
use agentic_controller.Text.Split.{is_nil}
use agentic_controller.Message.{Message}
use agentic_controller.Api.{Param}
use agentic_controller.Params.Integers.{parse_int}
use agentic_controller.Params.{
  Floats, Value, int, float, flag, string, number, Entries, lookup, parse_bool, coerce_value,
  Coerced, or_default, keep_value, coerce_param, coerce_all, coerce_params, number_from, flag_from,
}

-- the type that a value has in params.json
abbrev pub has_type : {F : Type 0} → String → Value F → Bool
has_type t (int i) = t == "number"
has_type t (float f) = t == "number"
has_type t (flag b) = t == "boolean" && not (t == "number")
has_type t (number s) = false
has_type t (string s) = not (t == "number") && not (t == "boolean")

abbrev pub is_ok : {E A : Type 0} → Result E A → Bool
is_ok (ok a) = true
is_ok (err e) = false

module _ (floats : Floats) where
  -- whether a text can be read as a value of the type
  abbrev pub is_readable : String → List ℕ → Bool
  is_readable t value =
      if t == "number"
      then is_some (parse_int value) || is_some (floats.parse value)
      else not (t == "boolean") || is_some (parse_bool value)

  is_ok-number_from :
      (p : Param) (value : List ℕ) (i : Option ℤ) (f : Option floats.Float)
      → is_ok (number_from floats p value i f) ≡ (is_some i || is_some f)
  unfolding number_from
  is_ok-number_from p value i f = ground arith

  is_ok-flag_from :
      (p : Param) (value : List ℕ) (b : Option Bool)
      → is_ok (flag_from floats p value b) ≡ is_some b
  unfolding flag_from
  is_ok-flag_from p value b = ground arith

  is_ok-coerce_value :
      (p : Param) (value : List ℕ)
      → is_ok (coerce_value floats p value) ≡ is_readable p.param_type value
  unfolding coerce_value
  is_ok-coerce_value p value = ground (
    arith,
    is_ok-number_from p value (parse_int value) (floats.parse value),
    is_ok-flag_from p value (parse_bool value),
  )

  -- the effective value, and whether the parameter has none or a readable one
  abbrev pub is_coercible : Entries (List ℕ) → Param → Bool
  is_coercible supplied p =
      let value = or_default floats p (lookup p.name supplied) in
      is_nil value || is_readable p.param_type value

  is_ok-keep_value :
      (m : Coerced floats) (p : Param) (r : Result Message (Value floats.Float))
      → is_ok (keep_value floats m p r) ≡ is_ok r
  unfolding keep_value
  is_ok-keep_value m p (ok v) = refl
  is_ok-keep_value m p (err e) = refl

  is_ok-coerce_param :
      (supplied : Entries (List ℕ)) (m : Coerced floats) (p : Param)
      → is_ok (coerce_param floats supplied m p) ≡ is_coercible supplied p
  unfolding coerce_param
  is_ok-coerce_param supplied m p =
      let value = or_default floats p (lookup p.name supplied) in
      ground (arith, is_ok-keep_value m p (coerce_value floats p value), is_ok-coerce_value p value)

  abbrev pub all_coercible : Entries (List ℕ) → List Param → Bool
  all_coercible supplied [] = true
  all_coercible supplied (p ∷ ps) = is_coercible supplied p && all_coercible supplied ps

  is_ok-bind :
      (r : Result Message (Coerced floats)) (f : Coerced floats → Result Message (Coerced floats))
      (a b : Bool)
      → is_ok r ≡ a
      → ((m : Coerced floats) → is_ok (f m) ≡ b)
      → is_ok (r >>= f) ≡ (a && b)
  is_ok-bind (ok m) f a b h k = rw (← h) (k m)
  is_ok-bind (err e) f a b h k = rw (← h) refl

  is_ok-coerce_all :
      (supplied : Entries (List ℕ)) (ps : List Param) (m : Coerced floats)
      → is_ok (coerce_all floats supplied m ps) ≡ all_coercible supplied ps
  unfolding coerce_all
  is_ok-coerce_all supplied [] m = refl
  is_ok-coerce_all supplied (p ∷ ps) m =
      is_ok-bind (coerce_param floats supplied m p) (λ next. coerce_all floats supplied next ps) _ _
        (is_ok-coerce_param supplied m p) (λ next. is_ok-coerce_all supplied ps next)

  -- The coercion succeeds exactly when every declared parameter has no value, supplied or default, or
  -- one that can be read at its type: a number as a 64-bit integer or a float, a boolean as one of the
  -- words for it, and anything else as a string.
  pub is_ok-coerce_params :
      (decls : List Param) (supplied : Entries (List ℕ))
      → is_ok (coerce_params floats decls supplied) ≡ all_coercible supplied decls
  unfolding coerce_params
  is_ok-coerce_params decls supplied =
      is_ok-coerce_all supplied decls (record { values = []; strings = [] })

  -- a result of the type `t`, if it is one
  abbrev TypedAs : String → Result Message (Value floats.Float) → Type 0
  TypedAs t (err e) = Unit
  TypedAs t (ok v) = has_type t v ≡ true

  number_from-TypedAs :
      (p : Param) (value : List ℕ) (i : Option ℤ) (f : Option floats.Float)
      → (p.param_type == "number") ≡ true
      → TypedAs p.param_type (number_from floats p value i f)
  unfolding number_from
  number_from-TypedAs p value (some i) f e = e
  number_from-TypedAs p value none (some f) e = e
  number_from-TypedAs p value none none e = tt

  flag_from-TypedAs :
      (p : Param) (value : List ℕ) (b : Option Bool)
      → (p.param_type == "number") ≡ false
      → (p.param_type == "boolean") ≡ true
      → TypedAs p.param_type (flag_from floats p value b)
  unfolding flag_from
  flag_from-TypedAs p value (some b) n e = rw (n, e) refl
  flag_from-TypedAs p value none n e = tt

  coerce_value-TypedAs :
      (p : Param) (value : List ℕ) → TypedAs p.param_type (coerce_value floats p value)
  unfolding coerce_value
  coerce_value-TypedAs p value =
      let t = p.param_type in
      if_cases (TypedAs t) (t == "number")
        (number_from-TypedAs p value (parse_int value) (floats.parse value))
        λ n.
          if_cases (TypedAs t) (t == "boolean") (flag_from-TypedAs p value (parse_bool value) n)
            λ b. (rw (n, b) refl)

  coerce_value-has_type :
      (p : Param) (value : List ℕ) (v : Value floats.Float)
      → coerce_value floats p value ≡ ok v
      → has_type p.param_type v ≡ true
  coerce_value-has_type p value v h = subst (TypedAs p.param_type) h (coerce_value-TypedAs p value)

  module _ (P : String × Value floats.Float → Type 0) where
    -- every value of the parameter's type may stand under its name
    abbrev Admits : Param → Type 0
    Admits p = (v : Value floats.Float) → has_type p.param_type v ≡ true → P (p.name, v)

    keep_value-All :
        (m next : Coerced floats) (p : Param) (r : Result Message (Value floats.Float))
        → ((v : Value floats.Float) → r ≡ ok v → has_type p.param_type v ≡ true)
        → Admits p
        → All P m.values
        → keep_value floats m p r ≡ ok next
        → All P next.values
    unfolding keep_value
    keep_value-All m next p (err e) typed admits h k = cc
    keep_value-All m next p (ok v) typed admits h k =
        subst (λ n. All P n.values) (ok_inj k) (admits v (typed v refl), h)

    coerce_param-All :
        (supplied : Entries (List ℕ)) (m next : Coerced floats) (p : Param)
        → Admits p
        → All P m.values
        → coerce_param floats supplied m p ≡ ok next
        → All P next.values
    unfolding coerce_param
    coerce_param-All supplied m next p admits h k =
        let value = or_default floats p (lookup p.name supplied) in
        elim (Bool-cases (is_nil value)) [
          | inl e ↦ subst (λ n. All P n.values) (ok_inj (rw e at k)) h
          | inr e ↦
              keep_value-All m next p (coerce_value floats p value)
                (λ v t. coerce_value-has_type p value v t) admits h (rw e at k)
        ]

    coerce_all-All :
        (supplied : Entries (List ℕ)) (ps : List Param) (m last : Coerced floats)
        → All Admits ps
        → All P m.values
        → coerce_all floats supplied m ps ≡ ok last
        → All P last.values
    unfolding coerce_all
    coerce_all-All supplied [] m last a h k = subst (λ n. All P n.values) (ok_inj k) h
    coerce_all-All supplied (p ∷ ps) m last a h k =
        elim (Result-cases (coerce_param floats supplied m p)) [
          | inl (next, e) ↦
              coerce_all-All supplied ps next last a.1 (coerce_param-All supplied m next p a.0 h e)
                (rw e at k)
          | inr (x, e) ↦ err_ok (rw e at k)
        ]

  -- whether a declaration gives an entry its name and its type
  abbrev pub declares : Param → String × Value floats.Float → Bool
  declares p (name, v) = p.name == name && has_type p.param_type v

  declares_self :
      (p : Param) (v : Value floats.Float)
      → has_type p.param_type v ≡ true
      → declares p (p.name, v) ≡ true
  declares_self p v t = ground (arith, eq_refl p.name)

  -- Every value that a coercion leaves in its section of params.json stands under the name of a declared
  -- parameter and has that parameter's type.
  pub coerce_params-declares :
      (decls : List Param) (supplied : Entries (List ℕ)) (m : Coerced floats)
      → coerce_params floats decls supplied ≡ ok m
      → All (λ e. any (λ p. declares p e) decls ≡ true) m.values
  unfolding coerce_params
  coerce_params-declares decls supplied m h =
      coerce_all-All (λ e. any (λ p. declares p e) decls ≡ true) supplied decls _ m
        (All-map (λ p g v t. g (p.name, v) (declares_self p v t)) decls (any-All declares decls)) tt
        h
