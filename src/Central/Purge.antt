-- ===== src/Central/Purge.antt =====
-- purge_zones and _walk_up_zones of storage/impl_sqlalchemy/__init__.py, on the ids and the parents of
-- the zones' rows. `dead` are the rows that the criterion finds, read once before the loop; an id is
-- the key of the table.
pub mod Ends
pub mod Rows
pub mod Links
mod Tests
use designate_private.Prelude.{
  ℕ, zero, suc, ◌+◌, Bool, true, false, Option, none, some, List, [], ◌∷◌, ◌==◌, if◌then◌else◌,
  length,
}

pub record Node : Type 0 where
  pub id : ℕ
  pub parent : Option ℕ

-- zones_by_id
pub find_node : ℕ → List Node → Option Node
find_node id [] = none
find_node id (z ∷ zs) = let rest = find_node id zs in if z.id == id then some z else rest

pub find_parent : Option ℕ → List Node → Option Node
unfolding find_node
find_parent none dead = none
find_parent (some id) dead = find_node id dead

-- _walk_up_zones from a zone with this parent: the outer `none` is IllegalParentZone.
pub walk_up_zones : List Node → ℕ → Option ℕ → Option (Option ℕ)
unfolding find_parent
walk_up_zones dead zero parent = none
walk_up_zones dead (suc steps) parent = elim (find_parent parent dead) [
  | none ↦ some parent
  | some z ↦ let rest = walk_up_zones dead steps z.parent in if steps == 0 then none else rest
]

pub is_parent : ℕ → Option ℕ → Bool
is_parent id none = false
is_parent id (some p) = p == id

-- The UPDATE of the rows whose parent is the zone.
pub reparent : ℕ → Option ℕ → List Node → List Node
unfolding is_parent
reparent id survivor [] = []
reparent id survivor (z ∷ zs) =
    let rest = reparent id survivor zs in
    if is_parent id z.parent then record z { parent = survivor } ∷ rest else z ∷ rest

-- purge_zone
pub delete_row : ℕ → List Node → List Node
delete_row id [] = []
delete_row id (z ∷ zs) = let rest = delete_row id zs in if z.id == id then rest else z ∷ rest

-- The loop over the zones: the table, and whether it came to its end.
pub purge_loop : ℕ → List Node → List Node → List Node → List Node × Bool
unfolding walk_up_zones reparent delete_row
purge_loop max_steps dead [] table = (table, true)
purge_loop max_steps dead (z ∷ zs) table = elim (walk_up_zones dead max_steps z.parent) [
  | none ↦ (table, false)
  | some survivor ↦ purge_loop max_steps dead zs (delete_row z.id (reparent z.id survivor table))
]

pub purge_zones : ℕ → List Node → List Node → List Node × Bool
unfolding purge_loop
purge_zones max_steps dead table = purge_loop max_steps dead dead table
