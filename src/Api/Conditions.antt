-- ===== src/Api/Conditions.antt =====
-- Status conditions, and what the controllers use of k8s.io/apimachinery's `meta` package.
pub use agentic_controller.Message.{
  Message, text, count, runes, format1, format2, format3, redacted, clipped, is_empty, join,
}
use agentic_controller.Prelude.{ℕ, String, Bool, true, false, Option, none, some, List, ◌≡◌, ◌≢◌}

pub data ConditionStatus : Type 0 where
  condition_true condition_false condition_unknown : ConditionStatus

unfoldable pub is_condition_true : ConditionStatus → Bool
is_condition_true condition_true = true
is_condition_true _ = false

-- `metav1.Condition` without the transition time, which no controller reads
pub record Condition : Type 0 where
  pub condition_type : String
  pub status : ConditionStatus
  pub observed_generation : ℕ
  pub reason : String
  pub message : Message

-- `meta.FindStatusCondition`, `meta.SetStatusCondition` and `meta.RemoveStatusCondition`: the library
-- finds at most one condition of a type, sets it whole, and leaves the other types alone.
pub record StatusConditions : Type 0 where
  pub find : List Condition → String → Option Condition
  pub set : List Condition → Condition → List Condition
  pub remove : List Condition → String → List Condition
  pub find-set_self :
      (l : List Condition) (c : Condition) → find (set l c) c.condition_type ≡ some c
  pub find-set_ne :
      (l : List Condition) (c : Condition) (t : String)
      → c.condition_type ≢ t
      → find (set l c) t ≡ find l t
  pub find-remove_self : (l : List Condition) (t : String) → find (remove l t) t ≡ none
  pub find-remove_ne : (l : List Condition) (s t : String) → s ≢ t → find (remove l s) t ≡ find l t
