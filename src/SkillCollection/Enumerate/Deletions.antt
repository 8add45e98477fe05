-- ===== src/SkillCollection/Enumerate/Deletions.antt =====
-- What a collection without an image asks for: deletions alone.
use agentic_controller.Prelude.{
  ◌≡◌, refl, ◌∙◌, Bool, false, Option, none, some, List, [], ◌∷◌, Result, ok, err, arith,
}
use agentic_controller.Api.{Message, runes}
use agentic_controller.Message.{format1}
use agentic_controller.SkillCollection.{
  Name, SkillCollection, CallError, missing, exists, forbidden, failing,
}
use agentic_controller.SkillCollection.Enumerate.{
  delete_one, stale_of, delete_stale_enumeration_jobs, delete_cards, drop_listed,
  drop_enumerated_skill_cards,
}
use agentic_controller.SkillCollection.Jobs.{delete_card, Op, Jobs, Asked, then_ask}
use agentic_controller.SkillCollection.Enumerate.Creates.{is_create, creates, creates-append}
use agentic_controller.SkillCollection.Enumerate.Clean.{delete_stale-IsClean}

module _ (jobs : Jobs) where
  -- of deletions alone
  creates-delete_any :
      (op : Op) (what : Message) (o : Option CallError) (rest : Asked Bool)
      → is_create op ≡ false
      → creates rest.0 ≡ false
      → creates (delete_one jobs op what o rest).0 ≡ false
  unfolding delete_one
  creates-delete_any op what none rest i h = ground (arith, i, h)
  creates-delete_any op what (some missing) rest i h = ground (arith, i, h)
  creates-delete_any op what (some exists) rest i h = ground (arith, i)
  creates-delete_any op what (some (forbidden m)) rest i h = ground (arith, i)
  creates-delete_any op what (some (failing m)) rest i h = ground (arith, i)

  creates-delete_cards : (ns : List Name) → creates (delete_cards jobs ns).0 ≡ false
  unfolding delete_cards
  creates-delete_cards [] = refl
  creates-delete_cards (n ∷ ns) =
      creates-delete_any (delete_card n) (format1 "deleting generated SkillCard %q" (runes n))
        (jobs.delete_card_error n) (delete_cards jobs ns) refl (creates-delete_cards ns)

  creates-drop_listed : (r : Result CallError (List Name)) → creates (drop_listed jobs r).0 ≡ false
  unfolding drop_listed
  creates-drop_listed (err e) = refl
  creates-drop_listed (ok ns) = creates-delete_cards ns

  creates-stale_of : (r : Result CallError (List Name)) → creates (stale_of jobs [] r).0 ≡ false
  unfolding stale_of
  creates-stale_of (err e) = refl
  creates-stale_of (ok ns) = (delete_stale-IsClean jobs [] ns).creates_none

  creates-then_ask :
      {A B : Type 0} (a : Asked A) (next : A → Asked B)
      → creates a.0 ≡ false
      → ((x : A) → creates (next x).0 ≡ false)
      → creates (then_ask a next).0 ≡ false
  creates-then_ask (ops, err e) next h k = h
  creates-then_ask (ops, ok x) next h k = creates-append ops (next x).0 ∙ ground (arith, h, k x)

  pub creates-drop_enumerated :
      (c : SkillCollection) → creates (drop_enumerated_skill_cards jobs c).0 ≡ false
  unfolding drop_enumerated_skill_cards delete_stale_enumeration_jobs
  creates-drop_enumerated c = ground (
    arith,
    creates-then_ask (stale_of jobs [] jobs.list_jobs) (λ stale. drop_listed jobs jobs.list_cards)
        (creates-stale_of jobs.list_jobs) (λ stale. creates-drop_listed jobs.list_cards),
  )
