-- ===== src/AgentRun/FileMounts/Safe.antt =====
-- What the file mounts of an admitted run are.
use agentic_controller.Prelude.{
  ℕ, String, ◌≡◌, refl, true, false, not, Option, none, some, List, [], ◌∷◌, ◌++◌, ◌==◌, arith, All,
}
use agentic_controller.Api.{FileMount, KeyToPath, Message}
use agentic_controller.Text.{equal_texts}
use agentic_controller.AgentRun.FileMounts.{
  parent_path, is_abs, split_path, has_segment, clean, paths_collide, reserved_mount_paths,
  colliding, relative_error, item_error, first_error, items_error, alike, source_error,
  absolute_error, collision_error, mount_error, mounts_error, validate_file_mounts,
}

-- the item's path stays inside the volume
pub record IsInside (item : KeyToPath) : Type 0 where
  pub nonempty : equal_texts item.path [] ≡ false
  pub relative : is_abs item.path ≡ false
  pub no_parent : has_segment parent_path (split_path item.path) ≡ false

-- no mount of the list is at, under or above the path
abbrev pub Avoids : List (List ℕ) → List ℕ → Type 0
Avoids qs p = All (λ q. paths_collide p q ≡ false) qs

pub record IsSound (m : FileMount) : Type 0 where
  pub one_source : (m.secret_name == "") ≡ not (m.config_map_name == "")
  pub absolute : is_abs m.mount_path ≡ true
  pub items_inside : All IsInside m.items
  pub unreserved : Avoids reserved_mount_paths (clean m.mount_path)

-- no two mounts are at, under or above each other
abbrev pub IsApart : List FileMount → Type 0
IsApart [] = Unit
IsApart (m ∷ ms) =
    All (λ n. paths_collide (clean n.mount_path) (clean m.mount_path) ≡ false) ms × IsApart ms

first_error-none : (a b : Option Message) → first_error a b ≡ none → (a ≡ none) × (b ≡ none)
unfolding first_error
first_error-none none b h = (refl, h)
first_error-none (some e) b h = cc

collision_error-none :
    (f : String) (m : FileMount) (o : Option (List ℕ)) → collision_error f m o ≡ none → o ≡ none
unfolding collision_error
collision_error-none f m none h = refl
collision_error-none f m (some q) h = cc

colliding-none : (p : List ℕ) (qs : List (List ℕ)) → colliding p qs ≡ none → Avoids qs p
unfolding colliding
colliding-none p [] h = tt
colliding-none p (q ∷ qs) h =
    let split : (paths_collide p q ≡ false) × (colliding p qs ≡ none) = ground arith in
    (split.0, colliding-none p qs split.1)

item_error-none : (m : FileMount) (i : KeyToPath) → item_error m i ≡ none → IsInside i
unfolding item_error relative_error
item_error-none m i h = record {
  nonempty = ground arith;
  relative = ground arith;
  no_parent = ground arith;
}

items_error-none : (m : FileMount) (is : List KeyToPath) → items_error m is ≡ none → All IsInside is
unfolding items_error
items_error-none m [] h = tt
items_error-none m (i ∷ is) h =
    let e = first_error-none (item_error m i) (items_error m is) h in
    (item_error-none m i e.0, items_error-none m is e.1)

source_error-none :
    (m : FileMount) → source_error m ≡ none → (m.secret_name == "") ≡ not (m.config_map_name == "")
unfolding source_error alike
source_error-none m h = ground arith

absolute_error-none : (m : FileMount) → absolute_error m ≡ none → is_abs m.mount_path ≡ true
unfolding absolute_error
absolute_error-none m h = ground arith

mount_error-none :
    (seen : List (List ℕ)) (m : FileMount)
    → mount_error seen m ≡ none
    → IsSound m × Avoids seen (clean m.mount_path)
unfolding mount_error
mount_error-none seen m h =
    let a = first_error-none _ _ h in
    let b = first_error-none _ _ a.1 in
    let c = first_error-none _ _ b.1 in
    let d = first_error-none _ _ c.1 in
    (
      record {
        one_source = source_error-none m a.0;
        absolute = absolute_error-none m b.0;
        items_inside = items_error-none m m.items d.0;
        unreserved =
            colliding-none (clean m.mount_path) reserved_mount_paths
              (collision_error-none _ m _ d.1);
      },
      colliding-none (clean m.mount_path) seen (collision_error-none _ m _ c.0),
    )

-- what avoids a list and one path more
Avoids-snoc :
    (seen : List (List ℕ)) (q p : List ℕ)
    → Avoids (seen ++ q ∷ []) p
    → Avoids seen p × (paths_collide p q ≡ false)
Avoids-snoc [] q p h = (tt, h.0)
Avoids-snoc (s ∷ seen) q p h = let rest = Avoids-snoc seen q p h.1 in ((h.0, rest.0), rest.1)

-- the mounts after one that has been seen
All-Avoids-snoc :
    (seen : List (List ℕ)) (q : List ℕ) (ms : List FileMount)
    → All (λ n. Avoids (seen ++ q ∷ []) (clean n.mount_path)) ms
    → All (λ n. Avoids seen (clean n.mount_path)) ms
      × All (λ n. paths_collide (clean n.mount_path) q ≡ false) ms
All-Avoids-snoc seen q [] h = (tt, tt)
All-Avoids-snoc seen q (m ∷ ms) h =
    let head = Avoids-snoc seen q (clean m.mount_path) h.0 in
    let rest = All-Avoids-snoc seen q ms h.1 in ((head.0, rest.0), (head.1, rest.1))

mounts_error-none :
    (seen : List (List ℕ)) (ms : List FileMount)
    → mounts_error seen ms ≡ none
    → All IsSound ms × IsApart ms × All (λ n. Avoids seen (clean n.mount_path)) ms
unfolding mounts_error
mounts_error-none seen [] h = (tt, tt, tt)
mounts_error-none seen (m ∷ ms) h =
    let e = first_error-none _ _ h in
    let head = mount_error-none seen m e.0 in
    let rest = mounts_error-none (seen ++ clean m.mount_path ∷ []) ms e.1 in
    let split = All-Avoids-snoc seen (clean m.mount_path) ms rest.2 in
    ((head.0, rest.0), (split.1, rest.1), (head.1, split.0))

-- Mounts that pass the check have one source each and an absolute path, their items stay inside the
-- volume, none is at, under or above a path that the controller mounts, and no two of them are at,
-- under or above each other.
pub validate_file_mounts-IsApart :
    (ms : List FileMount) → validate_file_mounts ms ≡ none → All IsSound ms × IsApart ms
unfolding validate_file_mounts
validate_file_mounts-IsApart ms h = let all = mounts_error-none [] ms h in (all.0, all.1)
