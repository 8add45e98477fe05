-- ===== src/Api/Sample.antt =====
-- A concrete instance of `StatusConditions`, which shows that its laws can be met.
use agentic_controller.Prelude.{
  String, Option, none, some, List, [], ◌∷◌, ◌≡◌, refl, ◌≢◌, ◌==◌, eq_iff, eq_refl, arith,
  if◌then◌else◌,
}
use agentic_controller.Api.Conditions.{Condition, StatusConditions}

abbrev pub find : List Condition → String → Option Condition
find [] t = none
find (c ∷ l) t = if c.condition_type == t then some c else find l t

abbrev pub set : List Condition → Condition → List Condition
set [] c = c ∷ []
set (d ∷ l) c = if d.condition_type == c.condition_type then c ∷ l else d ∷ set l c

abbrev pub remove : List Condition → String → List Condition
remove [] t = []
remove (c ∷ l) t = if c.condition_type == t then remove l t else c ∷ remove l t

pub find-set_self : (l : List Condition) (c : Condition) → find (set l c) c.condition_type ≡ some c
find-set_self [] c = simp eq_refl
find-set_self (d ∷ l) c =
    ground
      (arith, eq_refl c.condition_type, eq_iff d.condition_type c.condition_type, find-set_self l c)

pub find-set_ne :
    (l : List Condition) (c : Condition) (t : String)
    → c.condition_type ≢ t
    → find (set l c) t ≡ find l t
find-set_ne [] c t h = ground (arith, eq_iff c.condition_type t)
find-set_ne (d ∷ l) c t h = ground (
  arith,
  eq_iff d.condition_type c.condition_type,
  eq_iff c.condition_type t,
  eq_iff d.condition_type t,
  find-set_ne l c t h,
)

pub find-remove_self : (l : List Condition) (t : String) → find (remove l t) t ≡ none
find-remove_self [] t = refl
find-remove_self (c ∷ l) t = ground (arith, find-remove_self l t)

pub find-remove_ne : (l : List Condition) (s t : String) → s ≢ t → find (remove l s) t ≡ find l t
find-remove_ne [] s t h = refl
find-remove_ne (c ∷ l) s t h =
    ground (arith, eq_iff c.condition_type s, eq_iff c.condition_type t, find-remove_ne l s t h)

abbrev pub list_conditions : StatusConditions
list_conditions = record {
  find = find;
  set = set;
  remove = remove;
  find-set_self = find-set_self;
  find-set_ne = find-set_ne;
  find-remove_self = find-remove_self;
  find-remove_ne = find-remove_ne;
}
