-- ===== src/SkillCollection/Enumerate/Creates.antt =====
-- Whether Jobs are among what is asked.
use agentic_controller.Prelude.{
  map, ◌≡◌, refl, Bool, true, false, ◌||◌, List, [], ◌∷◌, ◌++◌, any, arith,
}
use agentic_controller.SkillCollection.Identity.{IdentityWrite}
use agentic_controller.SkillCollection.Jobs.{delete_job, delete_card, put_identity, create_job, Op}

abbrev pub is_create : Op → Bool
is_create (create_job j) = true
is_create (delete_job n) = false
is_create (delete_card n) = false
is_create (put_identity w) = false

abbrev pub creates : List Op → Bool
creates ops = any is_create ops

pub creates-append : (a b : List Op) → creates (a ++ b) ≡ (creates a || creates b)
creates-append [] b = refl
creates-append (x ∷ a) b = ground (arith, creates-append a b)

-- the writes of an identity are no creations of Jobs
pub creates-identity :
    (writes : List IdentityWrite) (rest : List Op)
    → creates (map put_identity writes ++ rest) ≡ creates rest
creates-identity [] rest = refl
creates-identity (w ∷ writes) rest = creates-identity writes rest
