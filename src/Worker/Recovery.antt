-- ===== src/Worker/Recovery.antt =====
-- RecoverShard and ExportZone of worker/tasks/zone.py. What storage finds, the clock, in seconds, and
-- whether the export is within its quota are parameters; a worker that has not run for the propagation
-- time is left out, so the time before which a zone is stale is no negative number.
mod Tests
use designate_private.Prelude.{ℕ, ◌-◌, Bool, true, false, List, [], ◌∷◌, ◌++◌}
use designate_private.Prelude.Texts.{Text, codes}
use designate_private.Prelude.Decimal.{show}
use designate_private.Objects.{Action, create, update, delete, no_action, Zone}
use designate_private.Storage.Criteria.{Value, one, text}

abbrev pub Criterion : Type 0
Criterion = List (Text × Value)

between_shards : ℕ → ℕ → Text × Value
between_shards begin_shard end_shard =
    (codes "shard", one (text (codes "BETWEEN " ++ (show begin_shard ++ b',' ∷ show end_shard))))

error_criterion : ℕ → ℕ → Criterion
unfolding between_shards
error_criterion begin_shard end_shard =
    between_shards begin_shard end_shard ∷ (codes "status", one (text (codes "ERROR"))) ∷ []

stale_criterion : ℕ → ℕ → ℕ → ℕ → Criterion
unfolding between_shards
stale_criterion begin_shard end_shard current max_prop_time =
    between_shards begin_shard end_shard
    ∷ (codes "status", one (text (codes "PENDING")))
    ∷ (codes "serial", one (text (codes "<" ++ show (current - max_prop_time))))
    ∷ []

-- create_zone, update_zone and delete_zone of the worker; a zone without an action has no call.
recover_zones : List Zone → List (Action × Zone)
recover_zones [] = []
recover_zones (zone ∷ zones) = elim (zone.action) [
  | no_action ↦ recover_zones zones
  | action ↦ (action, zone) ∷ recover_zones zones
]

-- The calls of one run; zones in ERROR come before stale ones.
pub recover_shard : (Criterion → List Zone) → ℕ → ℕ → ℕ → ℕ → List (Action × Zone)
unfolding error_criterion stale_criterion recover_zones
recover_shard find_zones begin_shard end_shard current max_prop_time = recover_zones (
    find_zones (error_criterion begin_shard end_shard)
    ++ find_zones (stale_criterion begin_shard end_shard current max_prop_time))

pub data Export : Type 0 where
  complete : ℕ → Export
  too_large no_method : Export

-- `id` is the export's; a complete one has the location that ends with it.
pub determine_export_method : Bool → Bool → ℕ → Export
determine_export_method true true id = complete id
determine_export_method true false id = too_large
determine_export_method false is_within_quota id = no_method
