-- ===== src/Harness/Verification/Settled.antt =====
-- What `settle` makes of the recorded steps, whatever their order.

use agentic_controller.Prelude.{
  ℕ, ◌≡◌, refl, Bool, true, false, ◌||◌, not, List, [], ◌∷◌, ◌++◌, any, ltb, arith, if◌then◌else◌,
}
use agentic_controller.Message.{Message, format2, is_empty}
use agentic_controller.Harness.Verification.{
  VerificationStatus, passed, failed, incomplete, step_passed, step_failed, step_timed_out,
  step_error, step_aborted, VerificationStep, Verification, Tally, is_failed, nonempty, tally_as,
  tally, verdict, settle,
}

-- a command that ran and did not exit 0, or that could not be started
abbrev pub is_failure : VerificationStep → Bool
is_failure c = elim c.status [
  | step_failed ↦ true
  | step_timed_out ↦ true
  | step_error ↦ true
  | _ ↦ false
]

abbrev pub is_aborted : VerificationStep → Bool
is_aborted c = elim c.status [ step_aborted ↦ true | _ ↦ false ]

abbrev pub is_pass : VerificationStep → Bool
is_pass c = elim c.status [ step_passed ↦ true | _ ↦ false ]

abbrev counted : VerificationStep → Bool
counted c = is_pass c || is_failure c

abbrev has_items : List Message → Bool
has_items [] = false
has_items (g ∷ gs) = true

-- some gap has a text
abbrev pub has_gap : List Message → Bool
has_gap = any (λ g. not (is_empty g))

-- the verdict of a pass by the kinds of its steps and its gaps
abbrev pub expected_status : List VerificationStep → List Message → VerificationStatus
expected_status cs extra =
    if any is_failure cs
    then failed
    else if has_gap extra || any is_aborted cs
    then incomplete
    else if any is_pass cs
    then passed
    else incomplete

has_items-append_one : (gs : List Message) (g : Message) → has_items (gs ++ g ∷ []) ≡ true
has_items-append_one [] g = refl
has_items-append_one (h ∷ gs) g = refl

status-tally :
    (cs : List VerificationStep) (t : Tally)
    → (tally t cs).status ≡ (if any is_failure cs then failed else t.status)
unfolding tally is_failed
status-tally [] t = refl
status-tally (c ∷ cs) t = ground (arith, status-tally cs (tally_as c.status c t))

gaps-tally :
    (cs : List VerificationStep) (t : Tally)
    → has_items (tally t cs).gaps ≡ (has_items t.gaps || any is_aborted cs)
unfolding tally
gaps-tally [] t = ground arith
gaps-tally (c ∷ cs) t = ground (
  arith,
  gaps-tally cs (tally_as c.status c t),
  has_items-append_one t.gaps (format2 "%s was not measured (%s)" c.label c.reason),
)

ran-tally :
    (cs : List VerificationStep) (t : Tally)
    → ltb 0 (tally t cs).ran ≡ (ltb 0 t.ran || any counted cs)
unfolding tally
ran-tally [] t = ground arith
ran-tally (c ∷ cs) t = ground (arith, ran-tally cs (tally_as c.status c t))

counted-is_pass :
    (cs : List VerificationStep) → any is_failure cs ≡ false → any counted cs ≡ any is_pass cs
counted-is_pass [] h = refl
counted-is_pass (c ∷ cs) h = ground (arith, counted-is_pass cs)

has_items-nonempty : (gs : List Message) → has_items (nonempty gs) ≡ has_gap gs
unfolding nonempty
has_items-nonempty [] = refl
has_items-nonempty (g ∷ gs) = ground (arith, has_items-nonempty gs)

status-verdict :
    (s : VerificationStatus) (r : Message) (n : ℕ) (gs : List Message)
    → (verdict s r n gs).0 ≡ (
        if is_failed s
        then failed
        else if has_items gs
        then incomplete
        else if ltb 0 n
        then s
        else incomplete)
unfolding verdict is_failed
status-verdict s r n gs = ground arith

-- A pass that starts from a passed verdict settles to failed exactly when a command failed, timed out
-- or could not start; else to incomplete when there is a gap, an aborted command, or no command that
-- passed; and to passed only otherwise. The order of the steps does not matter.
pub settle-expected_status :
    (v : Verification) (extra : List Message)
    → v.status ≡ passed
    → (settle v extra).status ≡ expected_status v.commands extra
unfolding settle
settle-expected_status v extra h =
    let start : Tally = record {
      status = v.status;
      reason = v.reason;
      ran = 0;
      gaps = nonempty extra;
    } in
    let t = tally start v.commands in
    ground (
      arith,
      status-verdict t.status t.reason t.ran t.gaps,
      status-tally v.commands start,
      gaps-tally v.commands start,
      ran-tally v.commands start,
      counted-is_pass v.commands,
      has_items-nonempty extra,
    )
