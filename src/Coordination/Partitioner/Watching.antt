-- ===== src/Coordination/Partitioner/Watching.antt =====
-- The state of a Partitioner of coordination.py: start, a change of the group, and the callbacks that
-- are told of this member's partitions. `calls` has what they were told, the last call first; what
-- `_partition` raises leaves the state as it is.
pub mod Told
mod Tests
use designate_private.Prelude.{
  ℕ, zero, suc, Bool, true, false, Option, none, some, List, [], ◌∷◌, ◌++◌, ◌==◌, ◌≡◌,
  if◌then◌else◌,
}
use designate_private.Coordination.Partitioner.{Share, ok, err, update_partitions}

pub record Partitioner {ℓ} (A : Type ℓ) : Type ℓ where
  pub my_partitions : Option (List A)
  pub callbacks : List ℕ
  pub started : Bool
  pub calls : List (ℕ × Option (List A))

-- list.remove; that of an absent callback raises and changes nothing.
unfoldable pub remove : ℕ → List ℕ → List ℕ
remove cb [] = []
remove cb (c ∷ cs) = let rest = remove cb cs in if c == cb then cs else c ∷ rest

module _ {ℓ} {A : Type ℓ} where
  abbrev pub init : Partitioner A
  init = record { my_partitions = none; callbacks = []; started = false; calls = [] }

  -- _run_callbacks
  unfoldable pub run_callbacks :
      List ℕ → Option (List A) → List (ℕ × Option (List A)) → List (ℕ × Option (List A))
  run_callbacks [] mine calls = calls
  run_callbacks (cb ∷ cbs) mine calls = run_callbacks cbs mine ((cb, mine) ∷ calls)

  unfoldable pub change_share : Share A → Partitioner A → Partitioner A
  unfolding run_callbacks
  change_share (ok mine) p = record p {
    my_partitions = some mine;
    calls = run_callbacks (p.callbacks) (some mine) (p.calls);
  }
  change_share (err e) p = p

  abbrev pub start_share : Share A → Partitioner A → Partitioner A
  start_share (ok mine) p = record p { my_partitions = some mine; started = true }
  start_share (err e) p = p

  -- The callbacks that are there already are told only when there is no coordinator.
  unfoldable pub start : Bool → List ℕ → ℕ → List A → Partitioner A → Partitioner A
  unfolding run_callbacks
  start true members my_id partitions p =
      start_share ((update_partitions members my_id partitions).1) p
  start false members my_id partitions p = record p {
    my_partitions = some partitions;
    started = true;
    calls = run_callbacks (p.callbacks) (some partitions) (p.calls);
  }

  unfoldable pub on_group_change : List ℕ → ℕ → List A → Partitioner A → Partitioner A
  unfolding change_share
  on_group_change members my_id partitions p =
      change_share ((update_partitions members my_id partitions).1) p

  unfoldable pub watch_partition_change : ℕ → Partitioner A → Partitioner A
  watch_partition_change cb p = record p {
    callbacks = p.callbacks ++ cb ∷ [];
    calls = if p.started then (cb, p.my_partitions) ∷ p.calls else p.calls;
  }

  unfoldable pub unwatch_partition_change : ℕ → Partitioner A → Partitioner A
  unfolding remove
  unwatch_partition_change cb p = record p { callbacks = remove cb (p.callbacks) }

  -- A partitioner is started once, and the group's changes are watched from then on.
  pub data Step (my_id : ℕ) (partitions : List A) : Partitioner A → Partitioner A → Type ℓ where
    starts :
        (coordinator : Bool) (members : List ℕ) (p : Partitioner A)
        → p.started ≡ false
        → Step my_id partitions p (start coordinator members my_id partitions p)
    changes :
        (members : List ℕ) (p : Partitioner A)
        → p.started ≡ true
        → Step my_id partitions p (on_group_change members my_id partitions p)
    watches : (cb : ℕ) (p : Partitioner A) → Step my_id partitions p (watch_partition_change cb p)
    unwatches :
        (cb : ℕ) (p : Partitioner A) → Step my_id partitions p (unwatch_partition_change cb p)

  pub data Reach (my_id : ℕ) (partitions : List A) : Partitioner A → Type ℓ where
    begins : Reach my_id partitions init
    then_step :
        (p q : Partitioner A)
        → Reach my_id partitions p
        → Step my_id partitions p q
        → Reach my_id partitions q
