-- ===== src/Examples/Skills.antt =====
-- A source with one skill, loaded over an earlier run's skills.
use agentic_controller.Prelude.{
  ◌≡◌, refl, true, false, none, [], ◌∷◌, All, ok, err, ◌⊎◌, if◌then◌else◌,
}
use agentic_controller.Text.{codes}
use agentic_controller.Text.Split.{is_nil}
use agentic_controller.Message.{Message, text, format1}
use agentic_controller.Skills.{FilePath, Source, Candidate, Manifest, Disk}
use agentic_controller.Skills.Discover.{collect, skill_file}
use agentic_controller.Skills.Discover.Declared.{sources_of, declared_of, collect-declared}
use agentic_controller.Skills.Copy.{Tree, regular, not_exist, copy_tree}
use agentic_controller.Skills.Copy.Contained.{IsContained, copy_tree-IsContained}
use agentic_controller.Skills.Load.{
  no_manifest, listing, manifest_written, broken_off, Destination, Writes, load,
}
use agentic_controller.Skills.Load.Whole.{IsLoaded, load-IsLoaded}
use agentic_controller.Skills.Load.Unchanged.{is_listing, load-unchanged}

abbrev src_dir : FilePath
src_dir = codes "src" ∷ []

abbrev root : FilePath
root = codes "src" ∷ codes "java" ∷ []

abbrev disk : Disk
disk = record {
  read_dir = λ p. ok none;
  is_dir = λ p. true;
  exists = λ p. true;
  read_frontmatter = λ p. ok (record { name = codes "java-8"; description = codes "Java" });
  temp_dir = λ name. err (text "no space");
  clone_error = λ g r. none;
  clear_error = λ g. none;
  checkout_error = λ g. none;
}

-- a directory with the skill's file and a link out of it
abbrev tree : Tree
tree = record {
  read_dir = λ p. ok (
      record { name = skill_file; is_link = false }
      ∷ record { name = codes "notes"; is_link = true }
      ∷ []);
  eval_symlinks = λ p. if is_nil p then err not_exist else ok root;
  stat = λ p. ok regular;
  mkdir_error = λ p. none;
  copy_error = λ p q. none;
}

abbrev writes : Writes
writes = record {
  clear_error = none;
  list_error = none;
  remove_error = λ n. none;
  manifest_write = manifest_written;
}

abbrev source : Source
source = record { name = codes "java"; sub_path = []; source_type = codes "rule"; git = none }

abbrev candidate : Candidate
candidate = record { dir = root; source = codes "java"; source_path = []; type_name = codes "rule" }

abbrev before : Destination
before = record {
  path = codes "skills" ∷ [];
  skills =
      record { name = codes "old"; source = []; is_whole = true }
      ∷ record { name = codes "java-8"; source = []; is_whole = true }
      ∷ [];
  manifest = no_manifest;
}

collected : collect disk src_dir (source ∷ []) ≡ ok (candidate ∷ [])
unfolding collect
collected = refl

collect-declared_example : sources_of (candidate ∷ []) ≡ declared_of (source ∷ [])
collect-declared_example = collect-declared disk src_dir source [] (candidate ∷ []) collected

copied : (copy_tree tree root (codes "skills" ∷ [])).1 ≡ none
unfolding copy_tree
copied = refl

copy_tree-IsContained_example :
    All (IsContained root (codes "skills" ∷ []) 33) (copy_tree tree root (codes "skills" ∷ [])).0
copy_tree-IsContained_example = copy_tree-IsContained tree root (codes "skills" ∷ []) root refl

abbrev manifest : Manifest
manifest = record {
  skills =
      record {
        name = codes "java-8";
        description = codes "Java";
        skill_type = codes "rule";
        source = codes "java";
        source_path = [];
      }
      ∷ [];
  rules = codes "java-8" ∷ [];
}

abbrev after : Destination
after = record {
  path = codes "skills" ∷ [];
  skills = record { name = codes "java-8"; source = root; is_whole = true } ∷ [];
  manifest = listing manifest;
}

loaded : load disk tree writes src_dir (source ∷ []) before ≡ (after, ok manifest)
unfolding load
loaded = refl

load-IsLoaded_example : IsLoaded (candidate ∷ []) after manifest
load-IsLoaded_example =
    load-IsLoaded disk tree writes src_dir (source ∷ []) (candidate ∷ []) before after manifest
      collected loaded

-- a disk that is full
abbrev full : Writes
full = record writes { manifest_write = broken_off (text "no space") }

abbrev full_error : Message
full_error = format1 "writing manifest: %w" (text "no space")

unwritten : (load disk tree full src_dir (source ∷ []) before).1 ≡ err full_error
unfolding load
unwritten = refl

load-unchanged_example :
    ((load disk tree full src_dir (source ∷ []) before).0 ≡ before)
    ⊎ (is_listing (load disk tree full src_dir (source ∷ []) before).0.manifest ≡ false)
load-unchanged_example =
    load-unchanged disk tree full src_dir (source ∷ []) candidate [] before full_error collected
      unwritten
