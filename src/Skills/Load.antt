-- ===== src/Skills/Load.antt =====
-- Load of internal/skills/load.go: the skills directory is assembled anew. Of the directory the model keeps
-- what its subdirectories were copied from, and the manifest; what its file operations answer is given.
pub mod Unchanged
pub mod Pruned
pub mod Whole
use agentic_controller.Prelude.{
  ℕ, Bool, true, false, not, ◌||◌, Option, none, some, List, [], ◌∷◌, ◌++◌, any, map, length,
  Result, ok, err, if◌then◌else◌,
}
use agentic_controller.Text.{codes, equal_texts}
use agentic_controller.Text.Split.{is_nil}
use agentic_controller.Message.{Message, text, count, runes, join, format1, format2, format3}
use agentic_controller.Skills.{Name, FilePath, Source, Candidate, Loaded, Manifest, Disk}
use agentic_controller.Skills.Discover.{collect, path_text}
use agentic_controller.Skills.Check.{ByName, Checked, check, find_name, type_rule}
use agentic_controller.Skills.Copy.{Tree, copy_tree}

-- a subdirectory, what it was copied from, and whether the copy went through
pub record Assembled : Type 0 where
  pub name : Name
  pub source : FilePath
  pub is_whole : Bool

-- the file of the manifest: not there, a manifest, or what a write that failed has left of one
pub data ManifestFile : Type 0 where
  no_manifest : ManifestFile
  listing : Manifest → ManifestFile
  cut_short : ManifestFile

pub record Destination : Type 0 where
  pub path : FilePath
  pub skills : List Assembled
  pub manifest : ManifestFile

-- How a write of the manifest ends: it succeeds; it fails before the file is opened, in MkdirAll or in the
-- encoding; the file cannot be opened; or the file has been truncated or created, and is not whole.
pub data ManifestWrite : Type 0 where
  manifest_written : ManifestWrite
  not_begun not_opened broken_off : Message → ManifestWrite

-- What the operations on the destination answer: the errors of clearing the manifest, of reading the
-- directory and of removing a subdirectory, and how the write of the manifest ends.
pub record Writes : Type 0 where
  pub clear_error : Option Message
  pub list_error : Option Message
  pub remove_error : Name → Option Message
  pub manifest_write : ManifestWrite

abbrev pub is_among_names : List Name → Name → Bool
is_among_names names n = any (equal_texts n) names

unfoldable pub without : Name → List Assembled → List Assembled
unfolding equal_texts
without n [] = []
without n (a ∷ rest) =
    let later = without n rest in if equal_texts a.name n then later else a ∷ later

abbrev names_of : List Loaded → List Name
names_of loaded = map (λ (l : Loaded). l.name) loaded

unfoldable pub rules_of : List Loaded → List Name
unfolding equal_texts
rules_of [] = []
rules_of (l ∷ rest) =
    let later = rules_of rest in
    if equal_texts l.skill_type type_rule then l.name ∷ later else later

-- a step on the subdirectories, and the error that ends it
abbrev Step : Type 0
Step = List Assembled × Option Message

dir_of : Option Candidate → FilePath
dir_of none = []
dir_of (some c) = c.dir

module _ (disk : Disk) (tree : Tree) (writes : Writes) where
  -- the loop of prune, by what it keeps; what comes after a failure is left as it is
  unfoldable pub prune_from : List Name → List Assembled → Step
  unfolding equal_texts
  prune_from keep [] = ([], none)
  prune_from keep (a ∷ rest) =
      let later = prune_from keep rest in
      if is_among_names keep a.name
      then (a ∷ later.0, later.1)
      else elim (writes.remove_error a.name) [
        | none ↦ later
        | some m ↦ (a ∷ rest, some (format2 "removing stale skill %q: %w" (runes a.name) m))
      ]

  prune_listed : Option Message → List Name → Destination → Step
  unfolding prune_from
  prune_listed (some m) keep d = (d.skills, some (format2 "reading %s: %w" (path_text d.path) m))
  prune_listed none keep d = prune_from keep d.skills

  -- `prune`
  unfoldable pub prune : List Name → Destination → Step
  unfolding prune_listed
  prune keep d = prune_listed writes.list_error keep d

  -- one skill: its old copy is removed, the new one made
  assemble_one :
      FilePath
      → Name
      → FilePath
      → List Assembled
      → (List Assembled → Step)
      → Option Message
      → Option Message
      → Step
  unfolding without
  assemble_one target name source skills go_on (some m) copied = (
    skills,
    some (format3 "clearing %s before assembling %q: %w" (path_text target) (runes name) m),
  )
  assemble_one target name source skills go_on none (some m) = (
    without name skills ++ record { name = name; source = source; is_whole = false } ∷ [],
    some (format3 "assembling skill %q from %s: %w" (runes name) (path_text source) m),
  )
  assemble_one target name source skills go_on none none =
      go_on (without name skills ++ record { name = name; source = source; is_whole = true } ∷ [])

  -- the loop that assembles the skills, over what is there
  unfoldable pub assemble : FilePath → ByName → List Loaded → List Assembled → Step
  unfolding assemble_one dir_of copy_tree find_name
  assemble path by_name [] skills = (skills, none)
  assemble path by_name (l ∷ ls) skills =
      let source = dir_of (find_name l.name by_name) in
      let target = path ++ l.name ∷ [] in
      assemble_one target l.name source skills (λ made. assemble path by_name ls made)
        (writes.remove_error l.name) (copy_tree tree source target).1

  -- `writeManifest`
  write_manifest : Manifest → ManifestWrite → Destination → Destination × Result Message Manifest
  write_manifest m (not_begun e) d = (d, err e)
  write_manifest m (not_opened e) d = (d, err (format1 "writing manifest: %w" e))
  write_manifest m (broken_off e) d =
      (record d { manifest = cut_short }, err (format1 "writing manifest: %w" e))
  write_manifest m manifest_written d = (record d { manifest = listing m }, ok m)

  -- the end of a step that may have failed
  finish : Manifest → Destination → Step → Destination × Result Message Manifest
  unfolding write_manifest
  finish m d (skills, some e) = (record d { skills = skills }, err e)
  finish m d (skills, none) = write_manifest m writes.manifest_write (record d { skills = skills })

  manifest_of : List Loaded → Manifest
  unfolding rules_of
  manifest_of loaded = record { skills = loaded; rules = rules_of loaded }

  assemble_pruned : Checked → Destination → Step → Destination × Result Message Manifest
  unfolding finish manifest_of assemble
  assemble_pruned c d (skills, some e) = (record d { skills = skills }, err e)
  assemble_pruned c d (skills, none) =
      finish (manifest_of c.loaded) d (assemble d.path c.by_name c.loaded skills)

  load_cleared : Checked → Destination → Option Message → Destination × Result Message Manifest
  unfolding assemble_pruned prune
  load_cleared c d (some e) = (d, err (format1 "clearing the previous manifest: %w" e))
  load_cleared c d none =
      let open_to = record d { manifest = no_manifest } in
      assemble_pruned c open_to (prune (names_of c.loaded) open_to)

  load_checked : Checked → List Message → Destination → Destination × Result Message Manifest
  unfolding load_cleared
  load_checked c [] d = load_cleared c d writes.clear_error
  load_checked c (m ∷ ms) d =
      (d, err (format2 "%d unusable skill(s):\n  %s" (count (length (m ∷ ms))) (join "\n  " m ms)))

  load_found : List Candidate → Destination → Destination × Result Message Manifest
  unfolding load_checked check prune finish
  load_found [] d = finish (record { skills = []; rules = [] }) d (prune [] d)
  load_found (c ∷ cs) d =
      let checked = check disk (c ∷ cs) in load_checked checked checked.problems d

  load_collected :
      Result Message (List Candidate) → Destination → Destination × Result Message Manifest
  unfolding load_found
  load_collected (err e) d = (d, err e)
  load_collected (ok candidates) d = load_found candidates d

  -- `Load`
  unfoldable pub load : FilePath → List Source → Destination → Destination × Result Message Manifest
  unfolding load_collected collect
  load src_dir sources d = load_collected (collect disk src_dir sources) d
