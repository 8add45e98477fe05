-- ===== src/SkillCollection/Identity/Binding.antt =====
-- The binding of the role of an enumeration Job to its account.
use agentic_controller.Prelude.{
  ap, ◌∙◌, ◌≡◌, refl, sym, Bool, true, Option, none, some, List, [], ◌∷◌, ◌++◌, All, arith,
  Bool-cases, inl, inr,
}
use mathlib.Core.Bool.{true≢false}
use agentic_controller.Text.Split.{is_nil}
use agentic_controller.Skills.Paths.{equal_texts_self}
use agentic_controller.SkillCollection.Identity.{
  Subject, RoleBinding, equal_subjects, contains_subject, is_enumerator_role, with_subject,
}

-- no binding, or one that is not stored yet
abbrev pub is_fresh : Option RoleBinding → Bool
is_fresh none = true
is_fresh (some b) = is_nil b.uid

-- A binding of the role to the subject, which keeps the labels, the role and the subjects of the one that
-- there was.
pub data Binds (s : Subject) : Option RoleBinding → RoleBinding → Type 0 where
  anew :
      {found : Option RoleBinding} {b : RoleBinding}
      → is_fresh found ≡ true
      → is_enumerator_role b.role_ref ≡ true
      → b.subjects ≡ s ∷ []
      → Binds s found b
  joined :
      {old b : RoleBinding}
      → is_enumerator_role old.role_ref ≡ true
      → b.role_ref ≡ old.role_ref
      → b.labels ≡ old.labels
      → contains_subject b.subjects s ≡ true
      → All (λ t. contains_subject b.subjects t ≡ true) old.subjects
      → Binds s (some old) b

equal_subjects_self : (s : Subject) → equal_subjects s s ≡ true
unfolding equal_subjects
equal_subjects_self s = ground (
  arith,
  equal_texts_self s.api_group,
  equal_texts_self s.kind,
  equal_texts_self s.name,
  equal_texts_self s.namespace,
)

contains_last :
    (subjects : List Subject) (s : Subject) → contains_subject (subjects ++ s ∷ []) s ≡ true
contains_last [] s = ground (arith, equal_subjects_self s)
contains_last (t ∷ subjects) s = ground (arith, contains_last subjects s)

contains_append :
    (subjects more : List Subject) (s : Subject)
    → contains_subject subjects s ≡ true
    → contains_subject (subjects ++ more) s ≡ true
contains_append (t ∷ subjects) more s h = elim (Bool-cases (equal_subjects t s)) [
  | inl e ↦ ground (arith, e)
  | inr e ↦ ground (arith, e, contains_append subjects more s (rw e at h))
]
contains_append [] more s h = absurd (true≢false (sym h))

contains_all :
    (subjects before : List Subject)
    → ((t : Subject) → contains_subject before t ≡ true → contains_subject subjects t ≡ true)
    → (rest : List Subject) → All (λ t. contains_subject before t ≡ true) rest
    → All (λ t. contains_subject subjects t ≡ true) rest
contains_all subjects before k [] h = tt
contains_all subjects before k (t ∷ rest) h = (k t h.0, contains_all subjects before k rest h.1)

-- a tail of a list, for the elements that the list contains
contains_own : (before : List Subject) → All (λ t. contains_subject before t ≡ true) before
contains_own [] = tt
contains_own (s ∷ rest) = (
  ground (arith, equal_subjects_self s),
  contains_all (s ∷ rest) rest (λ t h. ground (arith, h)) rest (contains_own rest),
)

pub with_subject-Binds :
    (s : Subject) (old : RoleBinding)
    → is_enumerator_role old.role_ref ≡ true
    → Binds s (some old) (with_subject s old)
unfolding with_subject
with_subject-Binds s old r = elim (Bool-cases (contains_subject old.subjects s)) [
  | inl e ↦ rw e (joined r refl refl e (contains_own old.subjects))
  | inr e ↦ rw e (
      joined r refl refl (contains_last old.subjects s) (
        contains_all (old.subjects ++ s ∷ []) old.subjects
          (λ t h. contains_append old.subjects (s ∷ []) t h) old.subjects
          (contains_own old.subjects)))
]

-- a binding that binds refers to the role by its kind and its name
pub is_enumerator_role-Binds :
    (s : Subject) (found : Option RoleBinding) (b : RoleBinding)
    → Binds s found b
    → is_enumerator_role b.role_ref ≡ true
is_enumerator_role-Binds s _ b (anew f r e) = r
is_enumerator_role-Binds s _ b (joined r e l c a) = ap is_enumerator_role e ∙ r
