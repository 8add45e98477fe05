-- ===== src/Skills/Discover.antt =====
-- The candidates of internal/skills/load.go: discover, scanSrcDir and collect.
pub mod Declared
use agentic_controller.Prelude.{
  ℕ, Bool, true, false, not, ◌&&◌, ◌||◌, Option, none, some, List, [], ◌∷◌, ◌++◌, map, length, ltb,
  leb, eqb, Result, ok, err, ◌>>=◌, if◌then◌else◌,
}
use agentic_controller.Text.{codes, equal_texts, has_prefix}
use agentic_controller.Text.Split.{is_nil, join_texts}
use agentic_controller.Message.{Message, text, count, runes, format1, format2, format3}
use agentic_controller.Skills.{
  Name, FilePath, Source, GitSource, Candidate, Disk, default_branch, branch_ref, tag_ref, full,
}
use agentic_controller.Skills.Paths.{dot, dot_dot, clean_rooted, is_base}

abbrev pub skill_file : Name
skill_file = codes "SKILL.md"

-- `isKubernetesInternal`
unfoldable pub is_kubernetes_internal : Name → Bool
unfolding has_prefix
is_kubernetes_internal name = has_prefix name dot_dot

-- a path as one text
abbrev pub path_text : FilePath → Message
path_text path = runes (b'/' ∷ join_texts (b'/' ∷ []) path)

-- `strings.Compare`, as an order
unfoldable pub le_text : List ℕ → List ℕ → Bool
le_text [] t = true
le_text (a ∷ s) [] = false
le_text (a ∷ s) (b ∷ t) = let rest = le_text s t in if eqb a b then rest else ltb a b

unfoldable pub insert_candidate : Candidate → List Candidate → List Candidate
unfolding le_text
insert_candidate c [] = c ∷ []
insert_candidate c (d ∷ ds) =
    let later = d ∷ insert_candidate c ds in
    if le_text c.source_path d.source_path then c ∷ d ∷ ds else later

-- `slices.SortFunc` by the path in the source
unfoldable pub sort_candidates : List Candidate → List Candidate
unfolding insert_candidate
sort_candidates [] = []
sort_candidates (c ∷ cs) = insert_candidate c (sort_candidates cs)

-- a name that one directory can have
unfoldable pub is_usable_name : Name → Bool
unfolding is_base equal_texts
is_usable_name name =
    not (is_nil name)
    && is_base name
    && not (equal_texts name dot)
    && not (equal_texts name dot_dot)

module _ (disk : Disk) where
  found_in : FilePath → Name → List Name → List Candidate
  unfolding is_kubernetes_internal has_prefix
  found_in dir source [] = []
  found_in dir source (e ∷ entries) =
      let rest = found_in dir source entries in
      let sub = dir ++ e ∷ [] in
      if not (is_kubernetes_internal e || has_prefix e dot)
        && disk.is_dir sub
        && disk.exists (sub ++ skill_file ∷ [])
      then record { dir = sub; source = source; source_path = e; type_name = [] } ∷ rest
      else rest

  some_found : Name → List Candidate → Result Message (List Candidate)
  some_found source [] = err (
      format2
        "source %q contributed no skills: no %s at its root and no subdirectory containing one"
        (runes source) (runes skill_file))
  some_found source (c ∷ cs) = ok (c ∷ cs)

  discover_entries :
      FilePath → Name → Result Message (Option (List Name)) → Result Message (List Candidate)
  unfolding some_found found_in
  discover_entries dir source (err e) = err (format2 "reading source %s: %w" (runes source) e)
  discover_entries dir source (ok none) =
      err (format2 "reading source %s: %w" (runes source) (text "file does not exist"))
  discover_entries dir source (ok (some entries)) = some_found source (found_in dir source entries)

  -- `discover`: one skill, or those of a directory of skills
  unfoldable pub discover : FilePath → Name → Result Message (List Candidate)
  unfolding discover_entries
  discover dir source =
      if disk.exists (dir ++ skill_file ∷ [])
      then ok (record { dir = dir; source = source; source_path = []; type_name = [] } ∷ [])
      else discover_entries dir source (disk.read_dir dir)

  -- the error of a clone, with what was cloned
  clone_failed : Name → Message → Option Message → Option Message
  clone_failed name url none = none
  clone_failed name url (some m) = some (format3 "git source %q: cloning %s: %w" (runes name) url m)

  -- `cloneAndCheckout`: a full clone in a clean directory, and the ref checked out of it
  clone_and_checkout : GitSource → Option Message → Option Message → Option Message
  clone_and_checkout g (some m) cloned = some m
  clone_and_checkout g none (some m) = some m
  clone_and_checkout g none none = disk.checkout_error g

  clone_tag : Name → GitSource → Option Message → Option Message → Option Message
  unfolding clone_failed clone_and_checkout
  clone_tag name g (some m) tagged = some m
  clone_tag name g none none = none
  clone_tag name g none (some m) =
      clone_failed name (format2 "%s at ref %q" (runes g.url) (runes g.git_ref))
        (clone_and_checkout g (disk.clear_error g) (disk.clone_error g full))

  clone_branch : Name → GitSource → Option Message → Option Message
  unfolding clone_tag
  clone_branch name g none = none
  clone_branch name g (some m) = clone_tag name g (disk.clear_error g) (disk.clone_error g tag_ref)

  -- `clone`: the default branch, or the ref as a branch, as a tag, and at last as a commit
  unfoldable pub clone : Name → GitSource → Option Message
  unfolding clone_branch clone_failed
  clone name g =
      if is_nil g.git_ref
      then clone_failed name (runes g.url) (disk.clone_error g default_branch)
      else clone_branch name g (disk.clone_error g branch_ref)

  cloned : FilePath → Option Message → Result Message FilePath
  cloned dir none = ok dir
  cloned dir (some m) = err m

  source_root : FilePath → Source → Option GitSource → Result Message FilePath
  unfolding clean_rooted cloned clone
  source_root src_dir s (some g) = do dir ← disk.temp_dir s.name; cloned dir (clone s.name g)
  source_root src_dir s none =
      let root = src_dir ++ clean_rooted s.name in
      if disk.is_dir root
      then ok root
      else err (
          format2 "source %q was declared but nothing is staged at %s" (runes s.name)
            (path_text root))

  skill_root : Source → FilePath → Result Message FilePath
  unfolding clean_rooted
  skill_root s root =
      let sub = root ++ clean_rooted s.sub_path in
      if is_nil s.sub_path
      then ok root
      else if disk.is_dir sub
      then ok sub
      else err (
          format2 "source %q: subPath %q is not a directory in it" (runes s.name)
            (runes s.sub_path))

  abbrev names_of : List Candidate → List Name
  names_of found = map (λ (c : Candidate). c.source_path) (sort_candidates found)

  -- A SkillCard is one skill.
  one_skill : Bool → Source → List Candidate → Result Message (List Candidate)
  unfolding sort_candidates
  one_skill declared s found =
      if declared && ltb 1 (length found)
      then err (
          format3
            "source %q holds %d skills (%s); set subPath to select one, or use a SkillCollection"
            (runes s.name) (count (length found))
            (runes (join_texts (codes ", ") (names_of found))))
      else ok
          (sort_candidates (map (λ (c : Candidate). record c { type_name = s.source_type }) found))

  -- the body of the loop over the sources
  unfoldable pub collect_source : Bool → FilePath → Source → Result Message (List Candidate)
  unfolding one_skill source_root skill_root discover is_usable_name
  collect_source declared src_dir s =
      if not (is_usable_name s.name)
      then err (
          format1 "source %q is not a usable directory name; it must be a single path segment"
            (runes s.name))
      else do
        root ← source_root src_dir s s.git
        dir ← skill_root s root
        found ← discover dir s.name
        one_skill declared s found

  unfoldable pub collect_sources : Bool → FilePath → List Source → Result Message (List Candidate)
  unfolding collect_source
  collect_sources declared src_dir [] = ok []
  collect_sources declared src_dir (s ∷ sources) = do
    found ← collect_source declared src_dir s
    rest ← collect_sources declared src_dir sources
    ok (found ++ rest)

  staged : FilePath → List Name → List Source
  unfolding is_kubernetes_internal
  staged src_dir [] = []
  staged src_dir (e ∷ entries) =
      let rest = staged src_dir entries in
      if not (is_kubernetes_internal e) && disk.is_dir (src_dir ++ e ∷ [])
      then record { name = e; sub_path = []; source_type = []; git = none } ∷ rest
      else rest

  scan_entries : FilePath → Result Message (Option (List Name)) → Result Message (List Source)
  unfolding staged
  scan_entries src_dir (err e) = err (format2 "reading source dir %s: %w" (path_text src_dir) e)
  scan_entries src_dir (ok none) = ok []
  scan_entries src_dir (ok (some entries)) = ok (staged src_dir entries)

  -- `scanSrcDir`
  unfoldable pub scan_src_dir : FilePath → Result Message (List Source)
  unfolding scan_entries
  scan_src_dir src_dir = scan_entries src_dir (disk.read_dir src_dir)

  -- `collect`
  unfoldable pub collect : FilePath → List Source → Result Message (List Candidate)
  unfolding collect_sources scan_src_dir
  collect src_dir [] = do scanned ← scan_src_dir src_dir; collect_sources false src_dir scanned
  collect src_dir (s ∷ sources) = collect_sources true src_dir (s ∷ sources)
