-- ===== src/Skills/Check/Distinct.antt =====
-- A check without problems: distinct names, known types, and nothing dropped.
use agentic_controller.Prelude.{
  ℕ, ◌≡◌, refl, sym, ap, ◌∙◌, Bool, true, false, ◌||◌, Option, none, some, List, [], ◌∷◌, map,
  Result, ok, err, All, inl, inr, Bool-cases, none_some, some_inj,
}
use mathlib.Core.Path.{subst}
use mathlib.Core.List.{nil≢cons}
use agentic_controller.Text.{equal_texts}
use agentic_controller.Text.Split.{is_nil}
use agentic_controller.Message.{Message}
use agentic_controller.Skills.{Name, Candidate, Frontmatter, Loaded, Disk}
use agentic_controller.Skills.Paths.{equal_texts_sound, equal_texts_self}
use agentic_controller.Skills.Check.{
  type_skill, type_rule, ByName, find_name, Checked, settled_type, Finding, unusable, mistyped,
  usable, typed, named, examine, go_on, check_from, check,
}

-- no two names are the same
abbrev pub Distinct : List Name → Type 0
Distinct [] = Unit
Distinct (n ∷ ns) = All (λ m. equal_texts n m ≡ false) ns × Distinct ns

abbrev pub names : List Loaded → List Name
names loaded = map (λ (l : Loaded). l.name) loaded

abbrev pub is_known_type : List ℕ → Bool
is_known_type t = equal_texts t type_skill || equal_texts t type_rule

-- a skill that is made of a candidate, under a name that is free
record IsMadeOf (seen : ByName) (c : Candidate) (l : Loaded) : Type 0 where
  free : find_name l.name seen ≡ none
  known : is_known_type l.skill_type ≡ true
  source : l.source ≡ c.source
  source_path : l.source_path ≡ c.source_path

data IsSound (seen : ByName) (c : Candidate) : Finding → Type 0 where
  unusable_lem : (m : Message) → IsSound seen c (unusable m)
  mistyped_lem :
      (name : Name) (m : Message) → find_name name seen ≡ none → IsSound seen c (mistyped name m)
  usable_lem : (l : Loaded) → IsMadeOf seen c l → IsSound seen c (usable l)

settled_type-known : (t : List ℕ) {k : List ℕ} → settled_type t ≡ some k → is_known_type k ≡ true
unfolding settled_type equal_texts
settled_type-known t {k} e = elim (Bool-cases (is_nil t)) [
  | inl f ↦ subst (λ u. is_known_type u ≡ true) (some_inj (rw f at e)) refl
  | inr f ↦ elim (Bool-cases (is_known_type t)) [
    | inl g ↦ subst (λ u. is_known_type u ≡ true) (some_inj (rw (f, g) at e)) g
    | inr g ↦ none_some (rw (f, g) at e)
  ]
]

typed-IsSound :
    (seen : ByName) (c : Candidate) (fm : Frontmatter) (o : Option (List ℕ))
    → find_name fm.name seen ≡ none
    → ((k : List ℕ) → o ≡ some k → is_known_type k ≡ true)
    → IsSound seen c (typed c fm o)
unfolding typed
typed-IsSound seen c fm none free known = mistyped_lem fm.name _ free
typed-IsSound seen c fm (some t) free known =
    usable_lem _ (record { free = free; known = known t refl; source = refl; source_path = refl })

named-IsSound :
    (seen : ByName) (c : Candidate) (fm : Frontmatter) (o : Option Candidate)
    → find_name fm.name seen ≡ o
    → IsSound seen c (named c fm o)
unfolding named
named-IsSound seen c fm none free =
    typed-IsSound seen c fm (settled_type c.type_name) free
      (λ k e. settled_type-known c.type_name e)
named-IsSound seen c fm (some previous) taken = unusable_lem _

examine-IsSound :
    (seen : ByName) (c : Candidate) (r : Result Message Frontmatter)
    → IsSound seen c (examine seen c r)
unfolding examine
examine-IsSound seen c (err e) = unusable_lem _
examine-IsSound seen c (ok fm) = named-IsSound seen c fm (find_name fm.name seen) refl

-- a name that is found stays, and is no other name that is free
find_name-cons :
    (k name : Name) (c d : Candidate) (seen : ByName)
    → find_name k seen ≡ some c
    → find_name name seen ≡ none
    → (find_name k ((name, d) ∷ seen) ≡ some c) × (equal_texts k name ≡ false)
unfolding find_name
find_name-cons k name c d seen there free =
    let differs =
      λ (h : name ≡ k). none_some {B = ⊥} (sym free ∙ ap (λ n. find_name n seen) h ∙ there) in
    elim (Bool-cases (equal_texts name k)) [
      | inl e ↦ absurd (differs (equal_texts_sound name k e))
      | inr e ↦ elim (Bool-cases (equal_texts k name)) [
        | inl f ↦ absurd (differs (sym (equal_texts_sound k name f)))
        | inr f ↦ (rw e there, f)
      ]
    ]

-- A check that knows a name by its candidate goes on to, and loads no other skill of that name.
record Keeps (k : Name) (c : Candidate) (r : Checked) : Type 0 where
  kept : find_name k r.by_name ≡ some c
  avoided : All (λ m. equal_texts k m ≡ false) (names r.loaded)

abbrev AllKeep : (ByName → Checked) → Type 0
AllKeep rest =
    (seen : ByName) (k : Name) (c : Candidate) → find_name k seen ≡ some c → Keeps k c (rest seen)

go_on-Keeps :
    (seen : ByName) (d : Candidate) (rest : ByName → Checked) (f : Finding) (k : Name)
    (c : Candidate)
    → IsSound seen d f
    → AllKeep rest
    → find_name k seen ≡ some c
    → Keeps k c (go_on seen d rest f)
unfolding go_on
go_on-Keeps seen d rest _ k c (unusable_lem m) all there =
    let h = all seen k c there in record { kept = h.kept; avoided = h.avoided }
go_on-Keeps seen d rest _ k c (mistyped_lem name m free) all there =
    let h = all _ k c (find_name-cons k name c d seen there free).0 in
    record { kept = h.kept; avoided = h.avoided }
go_on-Keeps seen d rest _ k c (usable_lem l made) all there =
    let (still, other) = find_name-cons k l.name c d seen there made.free in
    let h = all _ k c still in record { kept = h.kept; avoided = (other, h.avoided) }

-- where a skill comes from
abbrev pub loaded_from : Loaded → Name × Name
loaded_from l = (l.source, l.source_path)

abbrev pub found_at : Candidate → Name × Name
found_at c = (c.source, c.source_path)

-- Nothing is loaded twice; and without a problem every candidate is.
pub record IsComplete (cs : List Candidate) (r : Checked) : Type 0 where
  pub distinct : Distinct (names r.loaded)
  pub known : All (λ (l : Loaded). is_known_type l.skill_type ≡ true) r.loaded
  pub sources : r.problems ≡ [] → map loaded_from r.loaded ≡ map found_at cs
  pub found :
      r.problems ≡ [] → map (λ (l : Loaded). find_name l.name r.by_name) r.loaded ≡ map some cs

find_name_first : (k : Name) (c : Candidate) (seen : ByName) → find_name k ((k, c) ∷ seen) ≡ some c
unfolding find_name
find_name_first k c seen = rw (equal_texts_self k) refl

go_on-IsComplete :
    (seen : ByName) (c : Candidate) (cs : List Candidate) (rest : ByName → Checked) (f : Finding)
    → IsSound seen c f
    → AllKeep rest
    → ((taken : ByName) → IsComplete cs (rest taken))
    → IsComplete (c ∷ cs) (go_on seen c rest f)
unfolding go_on
go_on-IsComplete seen c cs rest _ (unusable_lem m) all ih =
    let h = ih seen in
    record {
      distinct = h.distinct;
      known = h.known;
      sources = λ e. absurd (nil≢cons (sym e));
      found = λ e. absurd (nil≢cons (sym e));
    }
go_on-IsComplete seen c cs rest _ (mistyped_lem name m free) all ih =
    let h = ih ((name, c) ∷ seen) in
    record {
      distinct = h.distinct;
      known = h.known;
      sources = λ e. absurd (nil≢cons (sym e));
      found = λ e. absurd (nil≢cons (sym e));
    }
go_on-IsComplete seen c cs rest _ (usable_lem l made) all ih =
    let taken = (l.name, c) ∷ seen in
    let h = ih taken in
    let k = all taken l.name c (find_name_first l.name c seen) in
    record {
      distinct = (k.avoided, h.distinct);
      known = (made.known, h.known);
      sources = λ e. rw (made.source, made.source_path, h.sources e) refl;
      found = λ e. rw (k.kept, h.found e) refl;
    }

module _ (disk : Disk) where
  check_from-Keeps : (cs : List Candidate) → AllKeep (λ seen. check_from disk seen cs)
  unfolding check_from
  check_from-Keeps [] seen k c there = record { kept = there; avoided = tt }
  check_from-Keeps (d ∷ cs) seen k c there =
      go_on-Keeps seen d (λ taken. check_from disk taken cs) _ k c (examine-IsSound seen d _)
        (check_from-Keeps cs) there

  check_from-IsComplete :
      (cs : List Candidate) (seen : ByName) → IsComplete cs (check_from disk seen cs)
  unfolding check_from
  check_from-IsComplete [] seen = record {
    distinct = tt;
    known = tt;
    sources = λ e. refl;
    found = λ e. refl;
  }
  check_from-IsComplete (c ∷ cs) seen =
      go_on-IsComplete seen c cs (λ taken. check_from disk taken cs) _ (examine-IsSound seen c _)
        (check_from-Keeps cs) (check_from-IsComplete cs)

  pub check-IsComplete : (cs : List Candidate) → IsComplete cs (check disk cs)
  unfolding check
  check-IsComplete cs = check_from-IsComplete cs []
