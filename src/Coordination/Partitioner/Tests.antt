-- ===== src/Coordination/Partitioner/Tests.antt =====
-- Runs of the partitioner, and its theorems at concrete groups.
use mathlib.Core.List.Perm
use designate_private.Prelude.{ℕ, ◌≡◌, refl, List, [], ◌∷◌, map, arith}
use designate_private.Coordination.Partitioner.{
  ok, err, value_error, zero_division, partition, update_partitions,
}
use designate_private.Coordination.Partitioner.Cover.{joined, joined-partition}
use designate_private.Coordination.Partitioner.Agreement.{update_partitions-perm}

abbrev shards : List ℕ
shards = 0 ∷ 1 ∷ 2 ∷ 3 ∷ 4 ∷ 5 ∷ 6 ∷ []

abbrev group : List ℕ
group = 21 ∷ 22 ∷ 23 ∷ []

partition_runs :
    (partition group 22 shards ≡ ok (3 ∷ 4 ∷ 5 ∷ []))
    × (partition group 23 shards ≡ ok (6 ∷ []))
    × (partition group 24 shards ≡ err value_error)
    × (partition [] 24 shards ≡ err zero_division)
unfolding partition
partition_runs = (refl, refl, refl, refl)

update_partitions_run :
    update_partitions (23 ∷ 21 ∷ 22 ∷ []) 21 shards ≡ (group, ok (0 ∷ 1 ∷ 2 ∷ []))
unfolding update_partitions
update_partitions_run = refl

joined-partition_example : joined (map (λ me. partition group me shards) group) ≡ ok shards
joined-partition_example = joined-partition 21 (22 ∷ 23 ∷ []) shards (omega arith)

update_partitions-perm_test :
    update_partitions (22 ∷ 21 ∷ []) 21 shards ≡ update_partitions (21 ∷ 22 ∷ []) 21 shards
update_partitions-perm_test =
    update_partitions-perm (22 ∷ 21 ∷ []) (21 ∷ 22 ∷ []) 21 shards (Perm.swap 21 22 [])
