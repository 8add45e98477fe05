-- ===== src/Skills.antt =====
-- internal/skills/load.go, the skill loader, with the types of api/skill: it assembles the skills
-- directory of a pod from the sources that the controller has staged. File names are code points, paths
-- are lists of names, and the answers of the file system and of git are given.
pub mod Paths
pub mod Discover
pub mod Check
pub mod Copy
pub mod Load
use agentic_controller.Prelude.{ℕ, Bool, Option, List, Result}
use agentic_controller.Message.{Message}

abbrev pub Name : Type 0
Name = List ℕ

-- an absolute path that is clean: no empty name, no `.` and no `..`
abbrev pub FilePath : Type 0
FilePath = List Name

pub record GitSource : Type 0 where
  pub url : Name
  pub git_ref : Name

pub record Source : Type 0 where
  pub name : Name
  pub sub_path : List ℕ
  pub source_type : List ℕ
  pub git : Option GitSource

pub record Frontmatter : Type 0 where
  pub name : Name
  pub description : List ℕ

-- a skill directory that was found in a source
pub record Candidate : Type 0 where
  pub dir : FilePath
  pub source : Name
  pub source_path : Name
  pub type_name : List ℕ

pub record Loaded : Type 0 where
  pub name : Name
  pub description : List ℕ
  pub skill_type : List ℕ
  pub source : Name
  pub source_path : Name

pub record Manifest : Type 0 where
  pub skills : List Loaded
  pub rules : List Name

-- what go-git is asked to clone: the default branch alone, a branch, a tag, or everything
pub data CloneRef : Type 0 where
  default_branch branch_ref tag_ref full : CloneRef

-- What the file system and git answer while the sources are read. `read_dir` is `none` where there is
-- no directory; `is_dir` and `exists` follow links, as os.Stat does. `temp_dir` makes the directory
-- of a clone, `clear_error` removes it again, `checkout_error` checks a ref out of a full clone.
pub record Disk : Type 0 where
  pub read_dir : FilePath → Result Message (Option (List Name))
  pub is_dir : FilePath → Bool
  pub exists : FilePath → Bool
  pub read_frontmatter : FilePath → Result Message Frontmatter
  pub temp_dir : Name → Result Message FilePath
  pub clone_error : GitSource → CloneRef → Option Message
  pub clear_error : GitSource → Option Message
  pub checkout_error : GitSource → Option Message
