-- ===== src/SkillCollection/Enumerate/Clean.antt =====
-- What is asked where Jobs of earlier generations are deleted.
use agentic_controller.Prelude.{
  ◌≡◌, refl, Bool, true, false, Option, none, some, List, [], ◌∷◌, Result, ok, err, ok_inj, err_ok,
  All, Bool-cases, inl, inr,
}
use mathlib.Core.Bool.{true≢false}
use agentic_controller.Text.{equal_texts}
use agentic_controller.Api.{Message, runes}
use agentic_controller.Message.{format1}
use agentic_controller.SkillCollection.{Name, CallError, missing, exists, forbidden, failing}
use agentic_controller.SkillCollection.Errors.{EnumerationError}
use agentic_controller.SkillCollection.Enumerate.{delete_one, remaining, delete_stale}
use agentic_controller.SkillCollection.Jobs.{delete_job, Jobs, Asked}
use agentic_controller.SkillCollection.Enumerate.Creates.{creates}

module _ (jobs : Jobs) where
  -- deletions alone, and none where nothing is stale
  pub record IsClean (current : Name) (ns : List Name) (a : Asked Bool) : Type 0 where
    pub creates_none : creates a.0 ≡ false
    pub nothing : a.1 ≡ ok false → a.0 ≡ []
    pub all_current : a.1 ≡ ok false → All (λ n. equal_texts n current ≡ true) ns

  creates-delete_one :
      (n : Name) (what : Message) (o : Option CallError) (rest : Asked Bool)
      → creates rest.0 ≡ false
      → creates (delete_one jobs (delete_job n) what o rest).0 ≡ false
  unfolding delete_one
  creates-delete_one n what none rest h = h
  creates-delete_one n what (some missing) rest h = h
  creates-delete_one n what (some exists) rest h = refl
  creates-delete_one n what (some (forbidden m)) rest h = refl
  creates-delete_one n what (some (failing m)) rest h = refl

  ok_true : {B : Type 0} → ◌≡◌ {A = Result EnumerationError Bool} (ok true) (ok false) → B
  ok_true e = absurd (true≢false (ok_inj e))

  remaining-IsClean :
      (current : Name) (ns : List Name) (a : Asked Bool)
      → creates a.0 ≡ false
      → IsClean current ns (remaining jobs a)
  unfolding remaining
  remaining-IsClean current ns (ops, err e) h = record {
    creates_none = h;
    nothing = λ p. err_ok p;
    all_current = λ p. err_ok p;
  }
  remaining-IsClean current ns (ops, ok b) h = record {
    creates_none = h;
    nothing = λ p. ok_true p;
    all_current = λ p. ok_true p;
  }

  pub delete_stale-IsClean :
      (current : Name) (ns : List Name) → IsClean current ns (delete_stale jobs current ns)
  unfolding delete_stale
  delete_stale-IsClean current [] = record {
    creates_none = refl;
    nothing = λ p. refl;
    all_current = λ p. tt;
  }
  delete_stale-IsClean current (n ∷ ns) =
      let ih = delete_stale-IsClean current ns in
      elim (Bool-cases (equal_texts n current)) [
        | inl e ↦ rw e (record {
          creates_none = ih.creates_none;
          nothing = ih.nothing;
          all_current = λ p. (e, ih.all_current p);
        })
        | inr e ↦ rw e (
            remaining-IsClean current (n ∷ ns)
              (delete_one jobs (delete_job n)
                (format1 "deleting stale enumeration job %q" (runes n)) (jobs.delete_job_error n)
                (delete_stale jobs current ns))
              (creates-delete_one n (format1 "deleting stale enumeration job %q" (runes n))
                (jobs.delete_job_error n) (delete_stale jobs current ns) ih.creates_none))
      ]
