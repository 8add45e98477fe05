-- ===== src/Skills/Copy/Contained.antt =====
-- What a copy of a skill reads and where it writes.
use agentic_controller.Prelude.{
  ℕ, zero, suc, ◌+◌, ◌≤◌, ◌≡◌, sym, Bool, true, false, Option, none, some, List, [], ◌∷◌, ◌++◌,
  length, length-append, Result, ok, err, All, All-append, arith, if_cases, if_elim, All-map,
}
use mathlib.Core.Path.{subst}
use mathlib.Core.List.{append_assoc}
use agentic_controller.Message.{Message}
use agentic_controller.Skills.{Name, FilePath}
use agentic_controller.Skills.Paths.{
  leaves, Within, below, Within-append, Within-self, leaves-Within,
}
use agentic_controller.Skills.Copy.{
  DiskError, not_exist, other_error, FileKind, directory, regular, special, DirEntry, Tree,
  CopiedFile, Copied, and_then, looked_at, followed, resolve_within, copy_file, copy_resolved,
  is_skipped, copy_entries, copy_read, copy_dir, copy_from_root, copy_tree,
}

-- A file that is read below `root`, and is written below `target`, by at most `levels` directories.
pub record IsContained (root target : FilePath) (levels : ℕ) (f : CopiedFile) : Type 0 where
  pub read : Within root f.source
  pub written : Within target f.target
  pub depth : length f.target ≤ length target + levels

-- all the files of a copy
record AllContained (root target : FilePath) (levels : ℕ) (c : Copied) : Type 0 where
  all : All (IsContained root target levels) c.0

module _ (tree : Tree) (root : FilePath) where
  -- what a path resolves to lies within the root
  data ResolvesWithin : Result DiskError (FilePath × FileKind) → Type 0 where
    fails : (e : DiskError) → ResolvesWithin (err e)
    resolves :
        (path : FilePath) (kind : FileKind) → Within root path → ResolvesWithin (ok (path, kind))

  looked_at-ResolvesWithin :
      (path : FilePath) (r : Result DiskError FileKind)
      → Within root path
      → ResolvesWithin (looked_at tree path r)
  unfolding looked_at
  looked_at-ResolvesWithin path (err e) h = fails e
  looked_at-ResolvesWithin path (ok kind) h = resolves path kind h

  followed-ResolvesWithin :
      (path : FilePath) (r : Result DiskError FilePath) → ResolvesWithin (followed tree root path r)
  unfolding followed
  followed-ResolvesWithin path (err e) = fails e
  followed-ResolvesWithin path (ok resolved) =
      if_cases ResolvesWithin (leaves root resolved) (λ e. fails _)
        (λ e.
          looked_at-ResolvesWithin resolved (tree.stat resolved) (leaves-Within root resolved e))

  resolve_within-ResolvesWithin :
      (path : FilePath) (is_link : Bool)
      → Within root path
      → ResolvesWithin (resolve_within tree root path is_link)
  unfolding resolve_within
  resolve_within-ResolvesWithin path true h = followed-ResolvesWithin path (tree.eval_symlinks path)
  resolve_within-ResolvesWithin path false h = looked_at-ResolvesWithin path (tree.stat path) h

  and_then-AllContained :
      (target : FilePath) (levels : ℕ) (c next : Copied)
      → AllContained root target levels c
      → AllContained root target levels next
      → AllContained root target levels (and_then c next)
  and_then-AllContained target levels (files, some m) next h k = h
  and_then-AllContained target levels (files, none) next h k = record {
    all = All-append (IsContained root target levels) files next.0 h.all k.all;
  }

  -- a copy below a directory is one of the directory
  raised :
      (target : FilePath) (name : Name) (levels : ℕ) (c : Copied)
      → AllContained root (target ++ name ∷ []) levels c
      → AllContained root target (suc levels) c
  raised target name levels c h = record {
    all =
        All-map
          (λ f (i : IsContained root (target ++ name ∷ []) levels f).
            let written : Within target f.target = Within-step i.written in
            record {
              read = i.read;
              written = written;
              depth = omega (arith, length-append {0} target (name ∷ []), i.depth);
            })
          c.0 h.all;
  }
    where
      Within-step : {path : FilePath} → Within (target ++ name ∷ []) path → Within target path
      Within-step (below rest) =
          subst (Within target) (sym (append_assoc target (name ∷ []) rest))
            (below (name ∷ [] ++ rest))

  copy_file-AllContained :
      (source target : FilePath) (name : Name) (levels : ℕ) (o : Option Message)
      → Within root source
      → AllContained root target (suc levels) (copy_file tree source (target ++ name ∷ []) o)
  unfolding copy_file
  copy_file-AllContained source target name levels (some m) h = record { all = tt }
  copy_file-AllContained source target name levels none h = record {
    all = (
      record {
        read = h;
        written = below (name ∷ []);
        depth = omega (arith, length-append {0} target (name ∷ []));
      },
      tt,
    );
  }

  -- `enter` copies the directories below
  module _ (enter : FilePath → FilePath → Copied) (levels : ℕ) where
    abbrev Enters : Type 0
    Enters =
        (dir target : FilePath)
        → Within root dir
        → AllContained root target levels (enter dir target)

    copy_resolved-AllContained :
        (path target : FilePath) (name : Name) (r : Result DiskError (FilePath × FileKind))
        → Enters
        → ResolvesWithin r
        → AllContained root target
            (suc levels)
            (copy_resolved tree enter path (target ++ name ∷ []) r)
    unfolding copy_resolved
    copy_resolved-AllContained path target name _ k (fails not_exist) = record { all = tt }
    copy_resolved-AllContained path target name _ k (fails (other_error m)) = record { all = tt }
    copy_resolved-AllContained path target name _ k (resolves resolved directory h) =
        raised target name levels (enter resolved (target ++ name ∷ []))
          (k resolved (target ++ name ∷ []) h)
    copy_resolved-AllContained path target name _ k (resolves resolved regular h) =
        copy_file-AllContained resolved target name levels _ h
    copy_resolved-AllContained path target name _ k (resolves resolved special h) = record {
      all = tt;
    }

    copy_entries-AllContained :
        (dir target : FilePath) (entries : List DirEntry)
        → Enters
        → Within root dir
        → AllContained root target (suc levels) (copy_entries tree enter root dir target entries)
    unfolding copy_entries
    copy_entries-AllContained dir target [] k h = record { all = tt }
    copy_entries-AllContained dir target (e ∷ entries) k h =
        let path = dir ++ e.name ∷ [] in
        let rest = copy_entries-AllContained dir target entries k h in
        if_elim (AllContained root target (suc levels)) (is_skipped tree e.name) rest (
          and_then-AllContained target (suc levels) _ _
            (copy_resolved-AllContained path target e.name (resolve_within tree root path e.is_link)
              k (resolve_within-ResolvesWithin path e.is_link (Within-append (e.name ∷ []) h)))
            rest)

    copy_read-AllContained :
        (dir target : FilePath) (r : Result Message (List DirEntry)) (made : Option Message)
        → Enters
        → Within root dir
        → AllContained root target (suc levels) (copy_read tree enter root dir target r made)
    unfolding copy_read
    copy_read-AllContained dir target (err m) made k h = record { all = tt }
    copy_read-AllContained dir target (ok entries) (some m) k h = record { all = tt }
    copy_read-AllContained dir target (ok entries) none k h =
        copy_entries-AllContained dir target entries k h

  copy_dir-AllContained :
      (levels : ℕ) (dir target : FilePath)
      → Within root dir
      → AllContained root target levels (copy_dir tree levels root dir target)
  unfolding copy_dir
  copy_dir-AllContained zero dir target h = record { all = tt }
  copy_dir-AllContained (suc levels) dir target h =
      copy_read-AllContained (copy_dir tree levels root) levels dir target (tree.read_dir dir)
        (tree.mkdir_error target) (copy_dir-AllContained levels) h

-- A copy of a skill ends whatever the links of its source are, reads no file outside the directory that
-- the source stands for, and writes only below its target, at most 33 names deep.
pub copy_tree-IsContained :
    (tree : Tree) (source target root : FilePath)
    → tree.eval_symlinks source ≡ ok root
    → All (IsContained root target 33) (copy_tree tree source target).0
unfolding copy_tree copy_from_root
copy_tree-IsContained tree source target root e =
    rw e (copy_dir-AllContained tree root 33 root target (Within-self root)).all
