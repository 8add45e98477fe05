-- ===== src/AgentRun/FileMounts.antt =====
-- The checks of a run's file mounts in internal/controller/agentrun_controller.go. Paths are lists of
-- bytes; `path.Clean` and `path.IsAbs` are those of Go's standard library.
pub mod Safe
use agentic_controller.Prelude.{
  ℕ, String, Bool, true, false, not, ◌&&◌, ◌||◌, Option, none, some, List, [], ◌∷◌, ◌++◌, ◌==◌, eqb,
  if◌then◌else◌,
}
use mathlib.Core.List.{reverse}
use agentic_controller.Api.{FileMount, KeyToPath, Message, text, runes, format1, format2, format3}
use agentic_controller.Text.{codes, equal_texts, has_prefix}

abbrev pub slash : ℕ
slash = b'/'

abbrev pub dot_path : List ℕ
dot_path = b'.' ∷ []

abbrev pub parent_path : List ℕ
parent_path = b'.' ∷ b'.' ∷ []

abbrev pub root_path : List ℕ
root_path = slash ∷ []

-- `path.IsAbs`
unfoldable pub is_abs : List ℕ → Bool
is_abs p = has_prefix p root_path

add_byte : ℕ → List (List ℕ) → List (List ℕ)
add_byte b [] = (b ∷ []) ∷ []
add_byte b (s ∷ ss) = (b ∷ s) ∷ ss

-- `strings.Split(p, "/")`
unfoldable pub split_path : List ℕ → List (List ℕ)
unfolding add_byte
split_path [] = [] ∷ []
split_path (b ∷ p) = let rest = split_path p in if eqb b slash then [] ∷ rest else add_byte b rest

unfoldable pub has_segment : List ℕ → List (List ℕ) → Bool
has_segment s [] = false
has_segment s (t ∷ ts) = equal_texts s t || has_segment s ts

join_path : List (List ℕ) → List ℕ
join_path [] = []
join_path (s ∷ []) = s
join_path (s ∷ t ∷ ts) = s ++ slash ∷ join_path (t ∷ ts)

-- `..` takes the last segment away; at the start it is dropped from a rooted path and kept otherwise
step_back : Bool → List (List ℕ) → List (List ℕ)
step_back rooted [] = if rooted then [] else parent_path ∷ []
step_back rooted (s ∷ ss) = if equal_texts s parent_path then parent_path ∷ s ∷ ss else ss

-- the segments of a cleaned path, the last one first
clean_segments : Bool → List (List ℕ) → List (List ℕ) → List (List ℕ)
unfolding step_back
clean_segments rooted out [] = out
clean_segments rooted out (s ∷ ss) =
    let next =
      if equal_texts s [] || equal_texts s dot_path
      then out
      else if equal_texts s parent_path
      then step_back rooted out
      else s ∷ out in
    clean_segments rooted next ss

or_dot : List ℕ → List ℕ
or_dot [] = dot_path
or_dot (b ∷ p) = b ∷ p

-- `path.Clean`
unfoldable pub clean : List ℕ → List ℕ
unfolding join_path clean_segments or_dot
clean p =
    let out = join_path (reverse (clean_segments (is_abs p) [] (split_path p))) in
    if is_abs p then slash ∷ out else or_dot out

unfoldable pub is_ancestor_or_equal : List ℕ → List ℕ → Bool
is_ancestor_or_equal ancestor p =
    equal_texts ancestor p
    || equal_texts ancestor root_path
    || has_prefix p (ancestor ++ slash ∷ [])

unfoldable pub paths_collide : List ℕ → List ℕ → Bool
paths_collide a b = is_ancestor_or_equal a b || is_ancestor_or_equal b a

abbrev pub reserved_mount_paths : List (List ℕ)
reserved_mount_paths =
    codes "/opt/skills"
    ∷ codes "/opt/skills-src"
    ∷ codes "/run/konveyor"
    ∷ codes "/workspace"
    ∷ codes "/tmp"
    ∷ codes "/var/run/secrets/kubernetes.io/serviceaccount"
    ∷ []

-- the first path of the list that collides
unfoldable pub colliding : List ℕ → List (List ℕ) → Option (List ℕ)
colliding p [] = none
colliding p (q ∷ qs) = let rest = colliding p qs in if paths_collide p q then some q else rest

unfoldable pub relative_error : List ℕ → Option Message
relative_error p =
    if is_abs p
    then some (text "must be relative")
    else if has_segment parent_path (split_path p)
    then some (text "must not contain '..'")
    else none

unfoldable pub item_error : FileMount → KeyToPath → Option Message
item_error m item =
    if equal_texts item.path []
    then some (format1 "file mount at %q: items path must not be empty" (runes m.mount_path))
    else elim (relative_error item.path) [
      | none ↦ none
      | some e ↦
          some
            (format3 "file mount at %q: items path %q %w" (runes m.mount_path) (runes item.path) e)
    ]

-- the error of the first thing that has one
unfoldable pub first_error : Option Message → Option Message → Option Message
first_error none e = e
first_error (some e) f = some e

unfoldable pub items_error : FileMount → List KeyToPath → Option Message
unfolding item_error
items_error m [] = none
items_error m (i ∷ is) = first_error (item_error m i) (items_error m is)

-- the two texts are both empty, or neither is
unfoldable pub alike : String → String → Bool
alike a b = if a == "" then b == "" else not (b == "")

unfoldable pub source_error : FileMount → Option Message
unfolding alike
source_error m =
    if alike m.secret_name m.config_map_name
    then some (
        format1 "file mount at %q must set exactly one of secretName or configMapName"
          (runes m.mount_path))
    else none

unfoldable pub absolute_error : FileMount → Option Message
absolute_error m =
    if is_abs m.mount_path
    then none
    else some (format1 "file mount path %q must be absolute" (runes m.mount_path))

unfoldable pub collision_error : String → FileMount → Option (List ℕ) → Option Message
collision_error f m none = none
collision_error f m (some q) = some (format2 f (runes m.mount_path) (runes q))

unfoldable pub mount_error : List (List ℕ) → FileMount → Option Message
unfolding first_error
mount_error seen m = first_error (source_error m) (
    first_error (absolute_error m) (
      first_error
        (collision_error "file mount path %q collides with file mount %q" m
          (colliding (clean m.mount_path) seen))
        (first_error (items_error m m.items) (
          collision_error "file mount path %q collides with reserved mount %q" m
            (colliding (clean m.mount_path) reserved_mount_paths)))))

unfoldable pub mounts_error : List (List ℕ) → List FileMount → Option Message
unfolding mount_error
mounts_error seen [] = none
mounts_error seen (m ∷ ms) =
    first_error (mount_error seen m) (mounts_error (seen ++ clean m.mount_path ∷ []) ms)

unfoldable pub validate_file_mounts : List FileMount → Option Message
unfolding mounts_error
validate_file_mounts ms = mounts_error [] ms
