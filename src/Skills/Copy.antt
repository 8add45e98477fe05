-- ===== src/Skills/Copy.antt =====
-- copyTree, copyDir and resolveWithin of internal/skills/load.go: the content of one skill is copied with
-- its symbolic links resolved.
pub mod Contained
use agentic_controller.Prelude.{
  ℕ, zero, suc, ◌+◌, Bool, true, false, not, ◌&&◌, ◌||◌, Option, none, some, List, [], ◌∷◌, ◌++◌,
  Result, ok, err, if◌then◌else◌,
}
use agentic_controller.Text.{codes, equal_texts}
use agentic_controller.Message.{Message, text, count, format1, format2}
use agentic_controller.Skills.{Name, FilePath}
use agentic_controller.Skills.Paths.{leaves}
use agentic_controller.Skills.Discover.{is_kubernetes_internal, path_text}

abbrev pub max_copy_depth : ℕ
max_copy_depth = 32

-- an error of the file system, by `errors.Is(err, fs.ErrNotExist)`
pub data DiskError : Type 0 where
  not_exist : DiskError
  other_error : Message → DiskError

pub data FileKind : Type 0 where
  directory regular special : FileKind

-- an entry of a directory, and whether it is a symbolic link
pub record DirEntry : Type 0 where
  pub name : Name
  pub is_link : Bool

-- What the file system answers: the entries of a directory, what a path leads to with its links
-- resolved, what is there, and whether a directory is made and a file is copied.
pub record Tree : Type 0 where
  pub read_dir : FilePath → Result Message (List DirEntry)
  pub eval_symlinks : FilePath → Result DiskError FilePath
  pub stat : FilePath → Result DiskError FileKind
  pub mkdir_error : FilePath → Option Message
  pub copy_error : FilePath → FilePath → Option Message

-- a file that is read, and where it is written
pub record CopiedFile : Type 0 where
  pub source : FilePath
  pub target : FilePath

-- what is copied, and the error that ends it
abbrev pub Copied : Type 0
Copied = List CopiedFile × Option Message

abbrev nothing : Copied
nothing = ([], none)

abbrev failed : Message → Copied
failed m = ([], some m)

-- what comes next, where nothing has failed
abbrev and_then : Copied → Copied → Copied
and_then (files, some m) next = (files, some m)
and_then (files, none) next = (files ++ next.0, next.1)

disk_message : FilePath → DiskError → Message
disk_message path not_exist =
    format2 "resolving %s: %w" (path_text path) (text "file does not exist")
disk_message path (other_error m) = format2 "resolving %s: %w" (path_text path) m

module _ (tree : Tree) where
  -- the path and what is there
  abbrev Resolved : Type 0
  Resolved = Result DiskError (FilePath × FileKind)

  looked_at : FilePath → Result DiskError FileKind → Resolved
  looked_at path (err e) = err e
  looked_at path (ok kind) = ok (path, kind)

  followed : FilePath → FilePath → Result DiskError FilePath → Resolved
  unfolding leaves looked_at
  followed root path (err e) = err e
  followed root path (ok resolved) =
      if leaves root resolved
      then err (
          other_error (
            format2
              "%s points at %s, outside the skill; a skill can only carry files its own source holds"
              (path_text path) (path_text resolved)))
      else looked_at resolved (tree.stat resolved)

  -- `resolveWithin`
  unfoldable pub resolve_within : FilePath → FilePath → Bool → Resolved
  unfolding followed looked_at
  resolve_within root path is_link =
      if is_link
      then followed root path (tree.eval_symlinks path)
      else looked_at path (tree.stat path)

  copy_file : FilePath → FilePath → Option Message → Copied
  copy_file source target none = (record { source = source; target = target } ∷ [], none)
  copy_file source target (some m) = failed m

  -- one entry; `enter` copies a directory below
  copy_resolved : (FilePath → FilePath → Copied) → FilePath → FilePath → Resolved → Copied
  unfolding copy_file disk_message
  copy_resolved enter path target (err not_exist) = nothing
  copy_resolved enter path target (err (other_error m)) = failed (disk_message path (other_error m))
  copy_resolved enter path target (ok (resolved, directory)) = enter resolved target
  copy_resolved enter path target (ok (resolved, regular)) =
      copy_file resolved target (tree.copy_error resolved target)
  copy_resolved enter path target (ok (resolved, special)) = nothing

  is_skipped : Name → Bool
  unfolding is_kubernetes_internal equal_texts
  is_skipped name = is_kubernetes_internal name || equal_texts name (codes ".git")

  copy_entries :
      (FilePath → FilePath → Copied) → FilePath → FilePath → FilePath → List DirEntry → Copied
  unfolding is_skipped copy_resolved resolve_within
  copy_entries enter root dir target [] = nothing
  copy_entries enter root dir target (e ∷ entries) =
      let path = dir ++ e.name ∷ [] in
      let rest = copy_entries enter root dir target entries in
      if is_skipped e.name
      then rest
      else and_then
          (copy_resolved enter path (target ++ e.name ∷ []) (resolve_within root path e.is_link))
          rest

  -- a directory that has been read, once its copy has been made
  copy_read :
      (FilePath → FilePath → Copied)
      → FilePath
      → FilePath
      → FilePath
      → Result Message (List DirEntry)
      → Option Message
      → Copied
  unfolding copy_entries
  copy_read enter root dir target (err m) made = failed m
  copy_read enter root dir target (ok entries) (some m) = failed m
  copy_read enter root dir target (ok entries) none = copy_entries enter root dir target entries

  -- `copyDir`, by the directories that it may still enter: `levels` is `max_copy_depth + 1 - depth`
  unfoldable pub copy_dir : ℕ → FilePath → FilePath → FilePath → Copied
  unfolding copy_read
  copy_dir zero root dir target =
      failed
        (format2 "%s nests more than %d directories deep" (path_text dir) (count max_copy_depth))
  copy_dir (suc levels) root dir target =
      copy_read (copy_dir levels root) root dir target (tree.read_dir dir) (tree.mkdir_error target)

  copy_from_root : FilePath → FilePath → Result DiskError FilePath → Copied
  unfolding copy_dir disk_message
  copy_from_root source target (err e) = failed (disk_message source e)
  copy_from_root source target (ok root) = copy_dir (suc max_copy_depth) root root target

  -- `copyTree`
  unfoldable pub copy_tree : FilePath → FilePath → Copied
  unfolding copy_from_root
  copy_tree source target = copy_from_root source target (tree.eval_symlinks source)
