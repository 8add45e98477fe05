-- ===== src/Skills/Discover/Declared.antt =====
-- The candidates of declared sources.
use agentic_controller.Prelude.{
  ℕ, ◌≡◌, refl, sym, ap, ◌∙◌, true, Option, none, some, List, [], ◌∷◌, ◌++◌, map, length, ltb,
  Result, ok, err, arith, Bool-cases, inl, inr, ok_inj, err_ok, All, chain_ok,
}
use mathlib.Core.Path.{subst}
use agentic_controller.Message.{Message}
use agentic_controller.Skills.{Name, FilePath, Source, Candidate, Disk}
use agentic_controller.Skills.Discover.{
  skill_file, insert_candidate, sort_candidates, found_in, some_found, discover_entries, discover,
  source_root, skill_root, one_skill, is_usable_name, collect_source, collect_sources, collect,
}

-- a candidate that comes from a source, with its type
record IsOf (s : Source) (c : Candidate) : Type 0 where
  source : c.source ≡ s.name
  type_name : c.type_name ≡ s.source_type

-- one candidate, of the source
data Single (s : Source) : List Candidate → Type 0 where
  single : (c : Candidate) → IsOf s c → Single s (c ∷ [])

-- some candidates, all of the source of a name
data Some (source : Name) : List Candidate → Type 0 where
  some_of :
      (c : Candidate) (cs : List Candidate)
      → c.source ≡ source
      → All (λ (d : Candidate). d.source ≡ source) cs
      → Some source (c ∷ cs)

abbrev pub sources_of : List Candidate → List (Name × List ℕ)
sources_of cs = map (λ (c : Candidate). (c.source, c.type_name)) cs

abbrev pub declared_of : List Source → List (Name × List ℕ)
declared_of sources = map (λ (s : Source). (s.name, s.source_type)) sources

module _ (disk : Disk) where
  found_in-All :
      (dir : FilePath) (source : Name) (entries : List Name)
      → All (λ (c : Candidate). c.source ≡ source) (found_in disk dir source entries)
  unfolding found_in
  found_in-All dir source [] = tt
  found_in-All dir source (e ∷ entries) = ground (arith, found_in-All dir source entries)

  some_found-Some :
      (source : Name) (found cs : List Candidate)
      → All (λ (c : Candidate). c.source ≡ source) found
      → some_found disk source found ≡ ok cs
      → Some source cs
  unfolding some_found
  some_found-Some source [] cs h e = err_ok e
  some_found-Some source (c ∷ found) cs h e =
      subst (Some source) (ok_inj e) (some_of c found h.0 h.1)

  discover_entries-Some :
      (dir : FilePath) (source : Name) (r : Result Message (Option (List Name)))
      (cs : List Candidate)
      → discover_entries disk dir source r ≡ ok cs
      → Some source cs
  unfolding discover_entries
  discover_entries-Some dir source (err m) cs e = err_ok e
  discover_entries-Some dir source (ok none) cs e = err_ok e
  discover_entries-Some dir source (ok (some entries)) cs e =
      some_found-Some source (found_in disk dir source entries) cs (found_in-All dir source entries)
        e

  discover-Some :
      (dir : FilePath) (source : Name) (cs : List Candidate)
      → discover disk dir source ≡ ok cs
      → Some source cs
  unfolding discover
  discover-Some dir source cs e = elim (Bool-cases (disk.exists (dir ++ skill_file ∷ []))) [
    | inl here ↦ subst (Some source) (ok_inj (rw here at e)) (some_of _ [] refl tt)
    | inr elsewhere ↦ discover_entries-Some dir source (disk.read_dir dir) cs (rw elsewhere at e)
  ]

  one_skill-Single :
      (s : Source) (found cs : List Candidate)
      → Some s.name found
      → one_skill disk true s found ≡ ok cs
      → Single s cs
  unfolding one_skill sort_candidates insert_candidate
  one_skill-Single s _ cs (some_of c [] h hs) e =
      subst (Single s) (ok_inj e) (single _ (record { source = h; type_name = refl }))
  one_skill-Single s _ cs (some_of c (d ∷ rest) h hs) e =
      let many : ltb 1 (length (c ∷ d ∷ rest)) ≡ true = ground arith in err_ok (rw many at e)

  collect_source-Single :
      (src_dir : FilePath) (s : Source) (cs : List Candidate)
      → collect_source disk true src_dir s ≡ ok cs
      → Single s cs
  unfolding collect_source
  collect_source-Single src_dir s cs e = elim (Bool-cases (is_usable_name s.name)) [
    | inr bad ↦ err_ok (rw bad at e)
    | inl good ↦
        let (root, from_root, _) = chain_ok (source_root disk src_dir s s.git) _ (rw good at e) in
        let (dir, from_dir, _) = chain_ok (skill_root disk s root) _ from_root in
        let (found, from_found, there) = chain_ok (discover disk dir s.name) _ from_dir in
        one_skill-Single s found cs (discover-Some dir s.name found there) from_found
  ]

  sources_of-append :
      {s : Source} {found : List Candidate} (rest : List Candidate)
      → Single s found
      → sources_of (found ++ rest) ≡ (s.name, s.source_type) ∷ sources_of rest
  sources_of-append rest (single c h) = rw (h.source, h.type_name) refl

  collect_sources-declared :
      (src_dir : FilePath) (sources : List Source) (cs : List Candidate)
      → collect_sources disk true src_dir sources ≡ ok cs
      → sources_of cs ≡ declared_of sources
  unfolding collect_sources
  collect_sources-declared src_dir [] cs e = ap sources_of (sym (ok_inj e))
  collect_sources-declared src_dir (s ∷ sources) cs e =
      let (found, from_found, here) = chain_ok (collect_source disk true src_dir s) _ e in
      let (rest, from_rest, there) =
        chain_ok (collect_sources disk true src_dir sources) _ from_found in
      ap sources_of (sym (ok_inj from_rest))
      ∙ sources_of-append rest (collect_source-Single src_dir s found here)
      ∙ ap (λ l. (s.name, s.source_type) ∷ l) (collect_sources-declared src_dir sources rest there)

  -- Where the controller declares the sources, a collection that succeeds has found exactly one skill in
  -- each of them, in the order of the declaration, with the declared type.
  pub collect-declared :
      (src_dir : FilePath) (s : Source) (sources : List Source) (cs : List Candidate)
      → collect disk src_dir (s ∷ sources) ≡ ok cs
      → sources_of cs ≡ declared_of (s ∷ sources)
  unfolding collect
  collect-declared src_dir s sources cs e = collect_sources-declared src_dir (s ∷ sources) cs e
