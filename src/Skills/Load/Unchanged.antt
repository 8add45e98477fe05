-- ===== src/Skills/Load/Unchanged.antt =====
-- What a load that fails leaves.
use agentic_controller.Prelude.{
  Bool, true, false, ◌≡◌, refl, sym, Option, none, some, List, [], ◌∷◌, ok, err, err_ok, ◌⊎◌, inl,
  inr,
}
use agentic_controller.Message.{Message}
use agentic_controller.Skills.{FilePath, Source, Candidate, Manifest, Disk}
use agentic_controller.Skills.Discover.{collect}
use agentic_controller.Skills.Check.{Checked, check}
use agentic_controller.Skills.Check.Distinct.{names}
use agentic_controller.Skills.Copy.{Tree}
use agentic_controller.Skills.Load.{
  ManifestFile, no_manifest, listing, cut_short, ManifestWrite, manifest_written, not_begun,
  not_opened, broken_off, Destination, Writes, Step, prune, assemble, write_manifest, finish,
  manifest_of, assemble_pruned, load_cleared, load_checked, load_found, load_collected, load,
}

-- no manifest stands there: the file is absent or not whole
abbrev pub is_listing : ManifestFile → Bool
is_listing (listing m) = true
is_listing no_manifest = false
is_listing cut_short = false

module _ (disk : Disk) (tree : Tree) (writes : Writes) where
  unwritten :
      (m : Manifest) (w : ManifestWrite) (d : Destination) {e : Message}
      → is_listing d.manifest ≡ false
      → (write_manifest disk tree writes m w d).1 ≡ err e
      → is_listing (write_manifest disk tree writes m w d).0.manifest ≡ false
  unfolding write_manifest
  unwritten m (not_begun e) d f h = f
  unwritten m (not_opened e) d f h = f
  unwritten m (broken_off e) d f h = refl
  unwritten m manifest_written d f h = err_ok (sym h)

  finish-err :
      (m : Manifest) (d : Destination) (s : Step) {e : Message}
      → is_listing d.manifest ≡ false
      → (finish disk tree writes m d s).1 ≡ err e
      → is_listing (finish disk tree writes m d s).0.manifest ≡ false
  unfolding finish
  finish-err m d (skills, some e) f h = f
  finish-err m d (skills, none) f h =
      unwritten m writes.manifest_write (record d { skills = skills }) f h

  assemble_pruned-err :
      (c : Checked) (d : Destination) (s : Step) {e : Message}
      → is_listing d.manifest ≡ false
      → (assemble_pruned disk tree writes c d s).1 ≡ err e
      → is_listing (assemble_pruned disk tree writes c d s).0.manifest ≡ false
  unfolding assemble_pruned
  assemble_pruned-err c d (skills, some e) f h = f
  assemble_pruned-err c d (skills, none) f h =
      finish-err (manifest_of disk tree writes c.loaded) d
        (assemble disk tree writes d.path c.by_name c.loaded skills) f h

  load_cleared-err :
      (c : Checked) (d : Destination) (o : Option Message) {e : Message}
      → (load_cleared disk tree writes c d o).1 ≡ err e
      → ((load_cleared disk tree writes c d o).0 ≡ d)
        ⊎ (is_listing (load_cleared disk tree writes c d o).0.manifest ≡ false)
  unfolding load_cleared
  load_cleared-err c d (some m) h = inl refl
  load_cleared-err c d none h = inr (
      assemble_pruned-err c (record d { manifest = no_manifest })
        (prune disk tree writes (names c.loaded) (record d { manifest = no_manifest })) refl h)

  load_checked-err :
      (c : Checked) (problems : List Message) (d : Destination) {e : Message}
      → (load_checked disk tree writes c problems d).1 ≡ err e
      → ((load_checked disk tree writes c problems d).0 ≡ d)
        ⊎ (is_listing (load_checked disk tree writes c problems d).0.manifest ≡ false)
  unfolding load_checked
  load_checked-err c [] d h = load_cleared-err c d writes.clear_error h
  load_checked-err c (m ∷ ms) d h = inl refl

  -- A load that fails although its sources hold skills has left the destination as it was, or no whole
  -- manifest there: the file is absent, or what is left of a write that was broken off, so that none
  -- names skills that are not whole.
  pub load-unchanged :
      (src_dir : FilePath) (sources : List Source) (c : Candidate) (cs : List Candidate)
      (d : Destination) (e : Message)
      → collect disk src_dir sources ≡ ok (c ∷ cs)
      → (load disk tree writes src_dir sources d).1 ≡ err e
      → ((load disk tree writes src_dir sources d).0 ≡ d)
        ⊎ (is_listing (load disk tree writes src_dir sources d).0.manifest ≡ false)
  unfolding load load_collected load_found
  load-unchanged src_dir sources c cs d e found h =
      rw found
        (load_checked-err (check disk (c ∷ cs)) (check disk (c ∷ cs)).problems d (rw found at h))
