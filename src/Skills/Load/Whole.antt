-- ===== src/Skills/Load/Whole.antt =====
-- The skills directory after a load that succeeds.
use agentic_controller.Prelude.{
  ◌≡◌, refl, sym, ap, ◌∙◌, true, Option, none, some, List, [], ◌∷◌, ◌++◌, map, Result, ok, ok_inj,
  err_ok, All, inl, inr, Bool-cases, Option-cases, none_some,
}
use mathlib.Core.Path.{subst}
use mathlib.Core.List.{append_assoc, append-nil, nil≢cons}
use agentic_controller.Message.{Message}
use agentic_controller.Skills.{Name, FilePath, Source, Candidate, Loaded, Manifest, Disk}
use agentic_controller.Skills.Discover.{collect}
use agentic_controller.Skills.Check.{ByName, Checked, find_name}
use agentic_controller.Skills.Check.Distinct.{
  Distinct, names, is_known_type, loaded_from, found_at, IsComplete, check-IsComplete,
}
use agentic_controller.Skills.Copy.{Tree}
use agentic_controller.Skills.Load.{
  no_manifest, listing, ManifestWrite, manifest_written, not_begun, not_opened, broken_off,
  Assembled, Destination, Writes, is_among_names, without, rules_of, Step, dir_of, prune_from,
  prune_listed, prune, assemble_one, assemble, write_manifest, finish, manifest_of, assemble_pruned,
  load_cleared, load_checked, load_found, load_collected, load,
}
use agentic_controller.Skills.Load.Pruned.{
  without_all, without_all-append, without_all_other, AllAmong, without_all-AllAmong,
}

-- a skill that has been copied from where its name was found
built : ByName → Loaded → Assembled
built by_name l = record {
  name = l.name;
  source = dir_of (find_name l.name by_name);
  is_whole = true;
}

-- what a load returns
abbrev Loading : Type 0
Loading = Destination × Result Message Manifest

-- the copies that a load makes of its candidates
unfoldable pub copies : List Loaded → List Candidate → List Assembled
copies [] cs = []
copies (l ∷ ls) [] = []
copies (l ∷ ls) (c ∷ cs) = record { name = l.name; source = c.dir; is_whole = true } ∷ copies ls cs

map-built :
    (by_name : ByName) (ls : List Loaded) (cs : List Candidate)
    → map (λ (l : Loaded). find_name l.name by_name) ls ≡ map some cs
    → map (built by_name) ls ≡ copies ls cs
unfolding copies built dir_of
map-built by_name [] cs e = refl
map-built by_name (l ∷ ls) [] e = absurd (nil≢cons (sym e))
map-built by_name (l ∷ ls) (c ∷ cs) e =
    let first : find_name l.name by_name ≡ some c = cc in
    let rest : map (λ (l : Loaded). find_name l.name by_name) ls ≡ map some cs = cc in
    rw (first, map-built by_name ls cs rest) refl

-- A destination that holds whole copies of the candidates and nothing else, and a manifest that
-- lists them in order, under distinct names, with the names of the rules.
pub record IsLoaded (cs : List Candidate) (d : Destination) (m : Manifest) : Type 0 where
  pub manifest : d.manifest ≡ listing m
  pub skills : d.skills ≡ copies m.skills cs
  pub origins : map loaded_from m.skills ≡ map found_at cs
  pub distinct : Distinct (names m.skills)
  pub known : All (λ (l : Loaded). is_known_type l.skill_type ≡ true) m.skills
  pub rules : m.rules ≡ rules_of m.skills

module _ (disk : Disk) (tree : Tree) (writes : Writes) where
  prune_from-AllAmong :
      (keep : List Name) (skills : List Assembled)
      → (prune_from disk tree writes keep skills).1 ≡ none
      → AllAmong keep (prune_from disk tree writes keep skills).0
  unfolding prune_from
  prune_from-AllAmong keep [] e = tt
  prune_from-AllAmong keep (a ∷ rest) e = elim (Bool-cases (is_among_names keep a.name)) [
    | inl there ↦ rw there (there, prune_from-AllAmong keep rest (rw there at e))
    | inr away ↦ elim (Option-cases (writes.remove_error a.name)) [
      | inl gone ↦ rw (away, gone) (prune_from-AllAmong keep rest (rw (away, gone) at e))
      | inr (m, stuck) ↦ none_some (sym (rw (away, stuck) at e))
    ]
  ]

  assemble_one-ok :
      (target : FilePath) (name : Name) (source : FilePath) (skills : List Assembled)
      (go_on : List Assembled → Step) (cleared copied : Option Message)
      → (assemble_one disk tree writes target name source skills go_on cleared copied).1 ≡ none
      → assemble_one disk tree writes target name source skills go_on cleared copied
        ≡ go_on
            (without name skills ++ record { name = name; source = source; is_whole = true } ∷ [])
  unfolding assemble_one
  assemble_one-ok target name source skills go_on (some m) copied e = none_some (sym e)
  assemble_one-ok target name source skills go_on none (some m) e = none_some (sym e)
  assemble_one-ok target name source skills go_on none none e = refl

  assemble-built :
      (path : FilePath) (by_name : ByName) (ls : List Loaded) (skills : List Assembled)
      → Distinct (names ls)
      → (assemble disk tree writes path by_name ls skills).1 ≡ none
      → (assemble disk tree writes path by_name ls skills).0
        ≡ without_all (names ls) skills ++ map (built by_name) ls
  unfolding assemble without_all built
  assemble-built path by_name [] skills h e = sym (append-nil skills)
  assemble-built path by_name (l ∷ ls) skills h e =
      let ns = names ls in
      let old = without l.name skills in
      let made = old ++ built by_name l ∷ [] in
      let step =
        assemble_one-ok _ l.name _ skills (λ s. assemble disk tree writes path by_name ls s) _ _
          e in
      ap (λ (s : Step). s.0) step
      ∙ assemble-built path by_name ls made h.1 (ap (λ (s : Step). s.1) (sym step) ∙ e)
      ∙ ap (λ s. s ++ map (built by_name) ls)
          (without_all-append ns old (built by_name l ∷ [])
            ∙ ap (λ s. without_all ns old ++ s) (without_all_other ns (built by_name l) h.0))
      ∙ append_assoc (without_all ns old) (built by_name l ∷ []) (map (built by_name) ls)

  write_manifest-ok :
      (m : Manifest) (o : ManifestWrite) (d d' : Destination) (m' : Manifest)
      → write_manifest disk tree writes m o d ≡ (d', ok m')
      → (record d { manifest = listing m } ≡ d') × (m ≡ m')
  unfolding write_manifest
  write_manifest-ok m (not_begun e) d d' m' h = err_ok (ap (λ (p : Loading). p.1) h)
  write_manifest-ok m (not_opened e) d d' m' h = err_ok (ap (λ (p : Loading). p.1) h)
  write_manifest-ok m (broken_off e) d d' m' h = err_ok (ap (λ (p : Loading). p.1) h)
  write_manifest-ok m manifest_written d d' m' h =
      (ap (λ (p : Loading). p.0) h, ok_inj (ap (λ (p : Loading). p.1) h))

  finish-ok :
      (m : Manifest) (d : Destination) (s : Step) (d' : Destination) (m' : Manifest)
      → finish disk tree writes m d s ≡ (d', ok m')
      → (s.1 ≡ none) × (record d { skills = s.0; manifest = listing m } ≡ d') × (m ≡ m')
  unfolding finish
  finish-ok m d (skills, some e) d' m' h = err_ok (ap (λ (p : Loading). p.1) h)
  finish-ok m d (skills, none) d' m' h =
      let (same, kept) =
        write_manifest-ok m writes.manifest_write (record d { skills = skills }) d' m' h in
      (refl, same, kept)

  prune-ok :
      (keep : List Name) (d : Destination)
      → (prune disk tree writes keep d).1 ≡ none
      → AllAmong keep (prune disk tree writes keep d).0
  unfolding prune prune_listed
  prune-ok keep d e = elim (Option-cases writes.list_error) [
    | inl listed ↦ rw listed (prune_from-AllAmong keep d.skills (rw listed at e))
    | inr (m, unread) ↦ none_some (sym (rw unread at e))
  ]

  assemble_pruned-ok :
      (c : Checked) (d : Destination) (s : Step) (d' : Destination) (m : Manifest)
      → assemble_pruned disk tree writes c d s ≡ (d', ok m)
      → (s.1 ≡ none)
        × (finish disk tree writes
              (manifest_of disk tree writes c.loaded)
              d
              (assemble disk tree writes d.path c.by_name c.loaded s.0)
            ≡ (d', ok m))
  unfolding assemble_pruned
  assemble_pruned-ok c d (skills, some e) d' m h = err_ok (ap (λ (p : Loading). p.1) h)
  assemble_pruned-ok c d (skills, none) d' m h = (refl, h)

  assemble_pruned-IsLoaded :
      (cs : List Candidate) (c : Checked) (d : Destination) (s : Step) (d' : Destination)
      (m : Manifest)
      → IsComplete cs c
      → c.problems ≡ []
      → (s.1 ≡ none → AllAmong (names c.loaded) s.0)
      → assemble_pruned disk tree writes c d s ≡ (d', ok m)
      → IsLoaded cs d' m
  unfolding manifest_of
  assemble_pruned-IsLoaded cs c d s d' m h clean among e =
      let ns = names c.loaded in
      let (pruned, f) = assemble_pruned-ok c d s d' m e in
      let a = assemble disk tree writes d.path c.by_name c.loaded s.0 in
      let (done, same, kept) = finish-ok _ d a d' m f in
      let made = assemble-built d.path c.by_name c.loaded s.0 h.distinct done in
      let gone = without_all-AllAmong ns s.0 (among pruned) in
      subst (λ n. IsLoaded cs d' n) kept
        (subst (λ e. IsLoaded cs e (manifest_of disk tree writes c.loaded)) same
          (record {
            manifest = refl;
            skills =
                made
                ∙ ap (λ l. l ++ map (built c.by_name) c.loaded) gone
                ∙ map-built c.by_name c.loaded cs (h.found clean);
            origins = h.sources clean;
            distinct = h.distinct;
            known = h.known;
            rules = refl;
          }))

  load_cleared-IsLoaded :
      (cs : List Candidate) (c : Checked) (d : Destination) (o : Option Message) (d' : Destination)
      (m : Manifest)
      → IsComplete cs c
      → c.problems ≡ []
      → load_cleared disk tree writes c d o ≡ (d', ok m)
      → IsLoaded cs d' m
  unfolding load_cleared
  load_cleared-IsLoaded cs c d (some e) d' m h clean f = err_ok (ap (λ (p : Loading). p.1) f)
  load_cleared-IsLoaded cs c d none d' m h clean f =
      assemble_pruned-IsLoaded cs c (record d { manifest = no_manifest }) _ d' m h clean
        (prune-ok (names c.loaded) (record d { manifest = no_manifest })) f

  load_checked-IsLoaded :
      (cs : List Candidate) (c : Checked) (problems : List Message) (d d' : Destination)
      (m : Manifest)
      → IsComplete cs c
      → c.problems ≡ problems
      → load_checked disk tree writes c problems d ≡ (d', ok m)
      → IsLoaded cs d' m
  unfolding load_checked
  load_checked-IsLoaded cs c [] d d' m h clean f =
      load_cleared-IsLoaded cs c d writes.clear_error d' m h clean f
  load_checked-IsLoaded cs c (p ∷ ps) d d' m h unclean f = err_ok (ap (λ (q : Loading). q.1) f)

  none_among : (skills : List Assembled) → AllAmong [] skills → skills ≡ []
  none_among [] h = refl
  none_among (a ∷ skills) h = cc (h.0)

  load_found-IsLoaded :
      (cs : List Candidate) (d d' : Destination) (m : Manifest)
      → load_found disk tree writes cs d ≡ (d', ok m)
      → IsLoaded cs d' m
  unfolding load_found rules_of copies
  load_found-IsLoaded [] d d' m f =
      let empty : Manifest = record { skills = []; rules = [] } in
      let (done, same, kept) = finish-ok empty d _ d' m f in
      subst (λ n. IsLoaded [] d' n) kept
        (subst (λ e. IsLoaded [] e empty) same
          (record {
            manifest = refl;
            skills = none_among _ (prune-ok [] d done);
            origins = refl;
            distinct = tt;
            known = tt;
            rules = refl;
          }))
  load_found-IsLoaded (c ∷ cs) d d' m f =
      load_checked-IsLoaded (c ∷ cs) _ _ d d' m (check-IsComplete disk (c ∷ cs)) refl f

  -- A load that succeeds leaves whole copies of all the candidates of its sources in the skills directory
  -- and nothing else of earlier loads, and a manifest that lists them in order, each under a name of
  -- its own and with a type that there is, with the names of the rules in the same order.
  pub load-IsLoaded :
      (src_dir : FilePath) (sources : List Source) (cs : List Candidate) (d d' : Destination)
      (m : Manifest)
      → collect disk src_dir sources ≡ ok cs
      → load disk tree writes src_dir sources d ≡ (d', ok m)
      → IsLoaded cs d' m
  unfolding load load_collected
  load-IsLoaded src_dir sources cs d d' m e f = load_found-IsLoaded cs d d' m (rw e at f)
