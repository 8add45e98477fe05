-- ===== src/Skills/Load/Pruned.antt =====
-- What is left of the skills of an earlier load.
use agentic_controller.Prelude.{
  ◌≡◌, refl, ap, ◌∙◌, true, false, List, [], ◌∷◌, ◌++◌, All, arith, inl, inr, Bool-cases,
}
use agentic_controller.Text.{equal_texts}
use agentic_controller.Skills.{Name}
use agentic_controller.Skills.Load.{Assembled, is_among_names, without}

unfoldable pub without_all : List Name → List Assembled → List Assembled
unfolding without
without_all [] skills = skills
without_all (n ∷ ns) skills = without_all ns (without n skills)

without-append :
    (n : Name) (xs ys : List Assembled) → without n (xs ++ ys) ≡ without n xs ++ without n ys
unfolding without
without-append n [] ys = refl
without-append n (x ∷ xs) ys = ground (arith, without-append n xs ys)

pub without_all-append :
    (ns : List Name) (xs ys : List Assembled)
    → without_all ns (xs ++ ys) ≡ without_all ns xs ++ without_all ns ys
unfolding without_all
without_all-append [] xs ys = refl
without_all-append (n ∷ ns) xs ys =
    ap (without_all ns) (without-append n xs ys)
    ∙ without_all-append ns (without n xs) (without n ys)

without_all-nil : (ns : List Name) → without_all ns [] ≡ []
unfolding without_all
without_all-nil [] = refl
without_all-nil (n ∷ ns) = without_all-nil ns

-- a skill under another name stays
pub without_all_other :
    (ns : List Name) (a : Assembled)
    → All (λ m. equal_texts a.name m ≡ false) ns
    → without_all ns (a ∷ []) ≡ a ∷ []
unfolding without_all without
without_all_other [] a h = refl
without_all_other (n ∷ ns) a h = rw h.0 (without_all_other ns a h.1)

-- a skill under one of the names goes
without_all_among :
    (ns : List Name) (a : Assembled)
    → is_among_names ns a.name ≡ true
    → without_all ns (a ∷ []) ≡ []
unfolding without_all without
without_all_among [] a h = cc
without_all_among (n ∷ ns) a h = elim (Bool-cases (equal_texts a.name n)) [
  | inl e ↦ rw e (without_all-nil ns)
  | inr e ↦ rw e (without_all_among ns a (rw e at h))
]

abbrev pub AllAmong : List Name → List Assembled → Type 0
AllAmong ns skills = All (λ (a : Assembled). is_among_names ns a.name ≡ true) skills

pub without_all-AllAmong :
    (ns : List Name) (skills : List Assembled) → AllAmong ns skills → without_all ns skills ≡ []
without_all-AllAmong ns [] h = without_all-nil ns
without_all-AllAmong ns (a ∷ skills) h =
    without_all-append ns (a ∷ []) skills
    ∙ rw (without_all_among ns a h.0, without_all-AllAmong ns skills h.1) refl
