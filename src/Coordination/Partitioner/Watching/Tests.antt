-- ===== src/Coordination/Partitioner/Watching/Tests.antt =====
-- A partitioner in a group that grows.
use mathlib.Core.Path.{subst}
use designate_private.Prelude.{ℕ, ◌≡◌, refl, true, false, none, some, List, [], ◌∷◌}
use designate_private.Coordination.Partitioner.{
  update_partitions, partition, sorted, insert, slice_at, index, ceil_div,
}
use designate_private.Coordination.Partitioner.Watching.{
  Partitioner, init, start, on_group_change, watch_partition_change, run_callbacks, change_share,
  Reach, begins, then_step, starts, changes, watches,
}
use designate_private.Coordination.Partitioner.Watching.Told.{AreCurrent, Reach-AreCurrent}

abbrev parts : List ℕ
parts = 0 ∷ 1 ∷ 2 ∷ 3 ∷ []

abbrev waiting : Partitioner ℕ
waiting = record { my_partitions = none; callbacks = 8 ∷ []; started = false; calls = [] }

abbrev alone : Partitioner ℕ
alone = record { my_partitions = some parts; callbacks = 8 ∷ []; started = true; calls = [] }

waiting_test : watch_partition_change 8 init ≡ waiting
unfolding watch_partition_change
waiting_test = refl

-- With a coordinator the start tells nobody.
alone_test : start true (5 ∷ []) 5 parts waiting ≡ alone
unfolding start update_partitions partition sorted insert slice_at index ceil_div
alone_test = refl

grown_test : (on_group_change (6 ∷ 5 ∷ []) 5 parts alone).calls ≡ (8, some (0 ∷ 1 ∷ [])) ∷ []
unfolding on_group_change run_callbacks change_share update_partitions partition sorted insert
    slice_at index ceil_div
grown_test = refl

Reach-AreCurrent_example : AreCurrent (on_group_change (6 ∷ 5 ∷ []) 5 parts alone)
Reach-AreCurrent_example = Reach-AreCurrent 5 parts (on_group_change (6 ∷ 5 ∷ []) 5 parts alone) (
    then_step alone _
      (subst (Reach 5 parts) alone_test (
        then_step waiting _
          (subst (Reach 5 parts) waiting_test (then_step init _ begins (watches 8 init)))
          (starts true (5 ∷ []) waiting refl)))
      (changes (6 ∷ 5 ∷ []) alone refl))
