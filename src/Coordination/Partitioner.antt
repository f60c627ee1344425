-- ===== src/Coordination/Partitioner.antt =====
-- Partitioner of coordination.py: `_partition` gives a member its contiguous share of the partitions,
-- `_update_partitions` sorts the members first. Identifiers are numbers; sorting is by their order.
-- `math.ceil(float(a) / float(b))` is the rounded-up quotient.
mod Tests
pub mod Cover
pub mod Agreement
pub mod Watching
use designate_private.Prelude.{
  ℕ, zero, suc, ◌+◌, ◌-◌, ◌*◌, ◌/◌, Bool, true, false, Option, none, some, List, [], ◌∷◌, ◌++◌,
  ◌==◌, leb, if◌then◌else◌, length, take, drop,
}

-- What `_partition` raises: `float / 0.0`, and `list.index` of an absent item.
pub data PartitionError : Type 0 where
  zero_division value_error : PartitionError

pub data Share {ℓ} (A : Type ℓ) : Type ℓ where
  ok : List A → Share A
  err : PartitionError → Share A

-- list.index
pub index : List ℕ → ℕ → Option ℕ
index [] me = none
index (m ∷ ms) me =
    let rest = index ms me in
    if m == me then some 0 else elim rest [ none ↦ none | some i ↦ some (suc i) ]

pub ceil_div : ℕ → ℕ → ℕ
ceil_div a b = (a + b - 1) / b

module _ {ℓ} {A : Type ℓ} where
  -- partitions[my_start:my_end], once `members.index(me)` is known.
  slice_at : ℕ → List A → Option ℕ → Share A
  slice_at size partitions none = err value_error
  slice_at size partitions (some my_index) = ok (take size (drop (size * my_index) partitions))

  pub partition : List ℕ → ℕ → List A → Share A
  unfolding slice_at index ceil_div
  partition [] me partitions = err zero_division
  partition (m ∷ ms) me partitions =
      let members = m ∷ ms in
      let size = ceil_div (length partitions) (length members) in
      slice_at size partitions (index members me)

insert : ℕ → List ℕ → List ℕ
insert a [] = a ∷ []
insert a (b ∷ bs) = if leb a b then a ∷ b ∷ bs else b ∷ insert a bs

-- sorted(list(members))
pub sorted : List ℕ → List ℕ
unfolding insert
sorted [] = []
sorted (a ∷ as') = insert a (sorted as')

-- `members` is what the group's backend answers.
pub update_partitions {ℓ} : {A : Type ℓ} → List ℕ → ℕ → List A → List ℕ × Share A
unfolding sorted partition
update_partitions members my_id partitions =
    (sorted members, partition (sorted members) my_id partitions)
