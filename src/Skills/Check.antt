-- ===== src/Skills/Check.antt =====
-- check of internal/skills/load.go: the frontmatter and the load policy of every candidate.
pub mod Distinct
use agentic_controller.Prelude.{
  ℕ, Bool, true, false, ◌||◌, Option, none, some, List, [], ◌∷◌, ◌++◌, Result, ok, err,
  if◌then◌else◌,
}
use agentic_controller.Text.{codes, equal_texts}
use agentic_controller.Text.Split.{is_nil}
use agentic_controller.Message.{Message, text, runes, format2, format3}
use agentic_controller.Skills.{Name, FilePath, Candidate, Frontmatter, Loaded, Disk}
use agentic_controller.Skills.Discover.{skill_file}

abbrev pub type_skill : List ℕ
type_skill = codes "skill"

abbrev pub type_rule : List ℕ
type_rule = codes "rule"

-- the names that are taken, the newest first, each with its candidate
abbrev pub ByName : Type 0
ByName = List (Name × Candidate)

unfoldable pub find_name : Name → ByName → Option Candidate
unfolding equal_texts
find_name name [] = none
find_name name ((key, c) ∷ rest) =
    let later = find_name name rest in if equal_texts key name then some c else later

-- `label`
unfoldable pub label : Candidate → List ℕ
label c = if is_nil c.source_path then c.source else c.source ++ b'/' ∷ c.source_path

pub record Checked : Type 0 where
  pub loaded : List Loaded
  pub by_name : ByName
  pub problems : List Message

abbrev add_problem : Message → Checked → Checked
add_problem m c = record c { problems = m ∷ c.problems }

abbrev add_loaded : Loaded → Checked → Checked
add_loaded l c = record c { loaded = l ∷ c.loaded }

-- the load policy, `none` for one that there is not
unfoldable pub settled_type : List ℕ → Option (List ℕ)
unfolding equal_texts
settled_type t =
    if is_nil t
    then some type_skill
    else if equal_texts t type_skill || equal_texts t type_rule
    then some t
    else none

-- What is made of a candidate: an error that leaves its name free, an error that takes it, or a skill.
pub data Finding : Type 0 where
  unusable : Message → Finding
  mistyped : Name → Message → Finding
  usable : Loaded → Finding

unfoldable pub typed : Candidate → Frontmatter → Option (List ℕ) → Finding
typed c fm none = mistyped fm.name (
    format3 "source %q sets type %q, want %v" (runes c.source) (runes c.type_name)
      (format2 "%q or %q" (runes type_skill) (runes type_rule)))
typed c fm (some t) = usable (record {
  name = fm.name;
  description = fm.description;
  skill_type = t;
  source = c.source;
  source_path = c.source_path;
})

unfoldable pub named : Candidate → Frontmatter → Option Candidate → Finding
unfolding typed settled_type label
named c fm (some previous) = unusable (
    format3 "duplicate skill name %q: %s and %s" (runes fm.name) (runes (label previous))
      (runes (label c)))
named c fm none = typed c fm (settled_type c.type_name)

unfoldable pub examine : ByName → Candidate → Result Message Frontmatter → Finding
unfolding named label
examine seen c (err e) = unusable (format2 "%s: %v" (runes (label c)) e)
examine seen c (ok fm) = named c fm (find_name fm.name seen)

-- what is added to the check of the candidates that follow, by the names that are taken
go_on : ByName → Candidate → (ByName → Checked) → Finding → Checked
go_on seen c rest (unusable m) = add_problem m (rest seen)
go_on seen c rest (mistyped name m) = add_problem m (rest ((name, c) ∷ seen))
go_on seen c rest (usable l) = add_loaded l (rest ((l.name, c) ∷ seen))

module _ (disk : Disk) where
  -- the loop over the candidates, with the names that are taken
  unfoldable pub check_from : ByName → List Candidate → Checked
  unfolding go_on examine
  check_from seen [] = record { loaded = []; by_name = seen; problems = [] }
  check_from seen (c ∷ cs) =
      go_on seen c (λ taken. check_from taken cs)
        (examine seen c (disk.read_frontmatter (c.dir ++ skill_file ∷ [])))

  -- `check`
  unfoldable pub check : List Candidate → Checked
  unfolding check_from
  check candidates = check_from [] candidates
