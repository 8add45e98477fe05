-- ===== src/Harness/Plan/Bounds.antt =====
-- What the reader of the Verification section keeps to, whatever the plan says.
use agentic_controller.Prelude.{
  ℕ, ◌≤◌, ◌≡◌, refl, Bool, true, false, not, ◌&&◌, Option, none, some, List, [], ◌∷◌, length, All,
  All-append, length-append, arith, leb, ltb, if_elim, if_cases,
}
use agentic_controller.Message.{Message, text, is_empty}
use agentic_controller.Text.Split.{is_nil, lower, is_among}
use agentic_controller.Text.{codes, has_prefix, equal_texts}
use agentic_controller.Harness.Markdown.{Line, ProseLine, handoff_prose_lines}
use agentic_controller.Harness.Plan.Cap.{all_steps, IsCut, parse_plan_verification-IsCut}
use agentic_controller.Harness.Plan.{
  PlanStep, is_runnable, PlanVerification, PlanReader, verify_max_steps, verify_command_max_len,
  is_prose_label, is_empty_value, classify_value, classify_verify_item, bare_value, prose_child,
  no_verification, verify_first_word, verify_looks_like_prose, skipped_step, append_step, add_item,
  read_item, read_heading, read_fence, read_prose, read_entry, read_entries, initial_reader,
  parse_plan_verification,
}

-- A line is a command or has a reason why it is none, never both, and a command is one that may be
-- handed to the shell: of at most 300 characters, under no label of manual steps, no placeholder.
pub record IsSound (s : PlanStep) : Type 0 where
  pub skips_or_runs : is_empty s.skip ≡ is_runnable s
  pub short : length s.command ≤ verify_command_max_len
  pub unlabelled : (is_runnable s && is_prose_label s.label) ≡ false
  pub filled : has_prefix s.command (codes "<") ≡ false

-- at most 12 lines, and 12 where some were left out
record IsLimited (v : PlanVerification) : Type 0 where
  few : length v.steps ≤ verify_max_steps
  cut : v.truncated ≡ true → length v.steps ≡ verify_max_steps
  sound : All IsSound v.steps

skipped_step-IsSound :
    (label : List ℕ) (why : Message) → is_empty why ≡ false → IsSound (skipped_step label why)
unfolding is_runnable has_prefix
skipped_step-IsSound label why e = record {
  skips_or_runs = e;
  short = omega arith;
  unlabelled = refl;
  filled = refl;
}

command-IsSound :
    (label value : List ℕ)
    → is_prose_label label ≡ false
    → is_empty_value (lower value) ≡ false
    → has_prefix value (codes "<") ≡ false
    → ltb verify_command_max_len (length value) ≡ false
    → IsSound (record { label = label; command = value; skip = text "" })
unfolding is_runnable is_empty is_empty_value lower is_among equal_texts
command-IsSound label [] p e q l = cc
command-IsSound label (c ∷ value) p e q l = record {
  skips_or_runs = refl;
  short = ground arith;
  unlabelled = p;
  filled = q;
}

classify_value-IsSound : (label value : List ℕ) → IsSound (classify_value label value)
unfolding classify_value is_empty
classify_value-IsSound label value =
    let skips = λ (why : Message) (e : is_empty why ≡ false). skipped_step-IsSound label why e in
    let first = verify_first_word value in
    if_cases IsSound (is_prose_label label) (λ _. skips _ refl)
      λ p.
        if_cases IsSound (is_empty_value (lower value)) (λ _. skips _ refl)
          λ e.
            if_cases IsSound (not (is_nil first) && is_empty_value first) (λ _. skips _ refl)
              λ _.
                if_cases IsSound (has_prefix value (codes "<")) (λ _. skips _ refl)
                  λ q.
                    if_cases IsSound (ltb verify_command_max_len (length value)) (λ _. skips _ refl)
                      λ l.
                        if_elim IsSound (verify_looks_like_prose value) (skips _ refl)
                          (command-IsSound label value p e q l)

prose_child-IsSound : (label parent : List ℕ) → IsSound (prose_child label parent)
unfolding prose_child is_empty
prose_child-IsSound label parent = skipped_step-IsSound label _ refl

classify_verify_item-IsSound : (label value : List ℕ) → IsSound (classify_verify_item label value)
unfolding classify_verify_item
classify_verify_item-IsSound label value = classify_value-IsSound _ (bare_value value)

record Keeps (r : PlanReader) : Type 0 where
  bounded : IsLimited r.parsed

append_step-Keeps :
    (r : PlanReader) (s : PlanStep)
    → leb verify_max_steps (length r.parsed.steps) ≡ false
    → Keeps r
    → IsSound s
    → Keeps (append_step r s)
append_step-Keeps r s room h sound =
    let longer = length-append r.parsed.steps (s ∷ []) in
    record {
      bounded = record {
        few = ground (arith, longer);
        cut = λ t. let full = h.bounded.cut t in ground (arith, full);
        sound = All-append IsSound r.parsed.steps (s ∷ []) h.bounded.sound (sound, tt);
      };
    }

add_item-Keeps :
    (r : PlanReader) (indent : ℕ) (s : PlanStep)
    → leb verify_max_steps (length r.parsed.steps) ≡ false
    → Keeps r
    → IsSound s
    → Keeps (add_item r indent s)
unfolding add_item
add_item-Keeps r indent s room h sound =
    if_elim Keeps _ (append_step-Keeps r _ room h (prose_child-IsSound s.label _)) (
      if_elim Keeps _
        (append_step-Keeps (record r { prose = some (indent, s.label) }) s room
          (record { bounded = h.bounded }) sound)
        (append_step-Keeps (record r { prose = none }) s room (record { bounded = h.bounded })
          sound))

read_item-Keeps :
    (r : PlanReader) (line : Line) (m : Option (Line × Line)) → Keeps r → Keeps (read_item r line m)
unfolding read_item
read_item-Keeps r line none h = h
read_item-Keeps r line (some (label, value)) h =
    if_cases Keeps _
      (λ full. record {
        bounded = record {
          few = h.bounded.few;
          cut = λ _. let few = h.bounded.few in ground arith;
          sound = h.bounded.sound;
        };
      })
      λ room. add_item-Keeps r _ _ room h (classify_verify_item-IsSound label value)

no_verification-IsLimited : (found : Bool) → IsLimited (no_verification found)
no_verification-IsLimited found = record { few = omega arith; cut = λ e. cc; sound = tt }

read_heading-Keeps :
    (r : PlanReader) (line : Line) (level : ℕ) → Keeps r → Keeps (read_heading r line level)
unfolding read_heading
read_heading-Keeps r line level h =
    if_elim Keeps _ (record { bounded = no_verification-IsLimited true })
      (record { bounded = h.bounded })

read_prose-Keeps :
    (r : PlanReader) (line : Line) (m : Option ℕ) → Keeps r → Keeps (read_prose r line m)
unfolding read_prose
read_prose-Keeps r line (some level) h = read_heading-Keeps r line level h
read_prose-Keeps r line none h = if_elim Keeps _ (read_item-Keeps r line _ h) h

read_fence-Keeps : (r : PlanReader) (line : Line) → Keeps r → Keeps (read_fence r line)
unfolding read_fence
read_fence-Keeps r line h =
    if_elim Keeps _
      (record {
        bounded = record { few = h.bounded.few; cut = h.bounded.cut; sound = h.bounded.sound };
      })
      h

read_entry-Keeps : (r : PlanReader) (e : ProseLine) → Keeps r → Keeps (read_entry r e)
unfolding read_entry
read_entry-Keeps r e h =
    if_elim Keeps _ (read_fence-Keeps r e.content h) (read_prose-Keeps r e.content _ h)

read_entries-Keeps : (r : PlanReader) (es : List ProseLine) → Keeps r → Keeps (read_entries r es)
unfolding read_entries
read_entries-Keeps r [] h = h
read_entries-Keeps r (e ∷ es) h = read_entries-Keeps (read_entry r e) es (read_entry-Keeps r e h)

-- What is read of a section, beside all its lines.
pub record IsBounded (all : List PlanStep) (v : PlanVerification) : Type 0 where
  pub few : length v.steps ≤ verify_max_steps
  pub cut : IsCut all v
  pub sound : All IsSound v.steps

-- Of the lines of the Verification section, as a reader without a cap finds them, the first 12 are read,
-- and the section is reported as truncated exactly where there are more; each line read is a command or
-- has a reason why it is none, never both, and a command has at most 300 characters, stands under no
-- label of manual steps and does not begin with `<`.
pub parse_plan_verification-IsBounded :
    (content : List ℕ) → IsBounded (all_steps content) (parse_plan_verification content)
unfolding parse_plan_verification
parse_plan_verification-IsBounded content =
    let start : Keeps initial_reader = record { bounded = no_verification-IsLimited false } in
    let read = (read_entries-Keeps initial_reader (handoff_prose_lines content) start).bounded in
    record { few = read.few; cut = parse_plan_verification-IsCut content; sound = read.sound }
