-- ===== src/Producer/Tasks.antt =====
-- The tasks of producer/tasks.py: what each calls in one run. The shards are a member's partitions;
-- a call of central is a parameter, as are the clock, in seconds, the text of a time and
-- timeutils.parse_isotime, which reads a text and raises on what is none.
pub mod Purge
mod Tests
use designate_private.Prelude.{
  ℕ, suc, ◌+◌, Bool, true, false, Option, none, some, List, [], ◌∷◌, ◌++◌, ◌>>=◌, ltb,
  if◌then◌else◌, map,
}
use designate_private.Prelude.Texts.{Text, codes}
use designate_private.Storage.Criteria.{Value, one, text, number}
use designate_private.Producer.Sharding.{my_range, filter_between, iter_zones_criterion, shard}
use designate_private.Producer.Paging.{iter}

-- `transferred_at` is the value that the object answers, a datetime after a call.
pub record Zone : Type 0 where
  id : ℕ
  transferred_at : Option ℕ
  refresh : ℕ
  delayed_notify : Bool

abbrev pub Criterion : Type 0
Criterion = List (Text × Value)

pub data Call : Type 0 where
  purge_zones : Criterion → ℕ → Call
  xfr_zone : ℕ → Call
  notify_exists : Text → Zone → ℕ → ℕ → Call
  zone_api_update : Zone → Call
  central_update : Zone → Call
  recover_shard : ℕ → ℕ → Call

-- DeletedZonePurgeTask: `time_threshold` is now less the option of that name.
unfoldable pub purge_criterion : (ℕ → Text) → ℕ → List ℕ → Option Criterion
unfolding filter_between
purge_criterion text_of_time time_threshold my_partitions = do
  criterion ← filter_between shard my_partitions
  some (
      criterion
      ++ (codes "deleted", one (text (codes "!0")))
        ∷ (codes "deleted_at", one (text (codes "<=" ++ text_of_time time_threshold)))
        ∷ [])

deleted_zone_purge : (ℕ → Text) → ℕ → ℕ → List ℕ → Option (List Call)
unfolding purge_criterion
deleted_zone_purge text_of_time time_threshold batch_size my_partitions = do
  criterion ← purge_criterion text_of_time time_threshold my_partitions
  some (purge_zones criterion batch_size ∷ [])

exists_of : ℕ → ℕ → List Zone → List Call
exists_of start end [] = []
exists_of start end (zone ∷ zones) =
    notify_exists (codes "dns.domain.exists") zone start end
    ∷ notify_exists (codes "dns.zone.exists") zone start end
    ∷ exists_of start end zones

-- The last transfer is longer ago than the refresh interval.
abbrev is_overdue : ℕ → ℕ → ℕ → Bool
is_overdue now transferred refresh = ltb (transferred + refresh) now

-- A zone that was never transferred is passed over; `none` of `parse_isotime` is an exception, which
-- ends the loop: false. `clock` is the time at which the zone of a position is looked at.
refresh_of : (ℕ → Option ℕ) → (ℕ → ℕ) → ℕ → List Zone → List Call × Bool
refresh_of parse_isotime clock n [] = ([], true)
refresh_of parse_isotime clock n (zone ∷ zones) =
    let rest = refresh_of parse_isotime clock (suc n) zones in
    elim (zone.transferred_at) [
      | none ↦ rest
      | some at ↦ elim (parse_isotime at) [
        | none ↦ ([], false)
        | some transferred ↦
            if is_overdue (clock n) transferred (zone.refresh)
            then (xfr_zone (zone.id) ∷ rest.0, rest.1)
            else rest
      ]
    ]

module _ (find_zones : Criterion → Option ℕ → List Zone) (fuel : ℕ) where
  iter_zones : Criterion → List ℕ → Option (List Zone)
  iter_zones wanted my_partitions = do
    criterion ← iter_zones_criterion wanted my_partitions
    iter (λ (zone : Zone). zone.id) (find_zones criterion) fuel none

  -- The audit period ends at `now`.
  periodic_exists : ℕ → ℕ → List ℕ → Option (List Call)
  unfolding iter_zones exists_of
  periodic_exists start now my_partitions = do
    zones ← iter_zones [] my_partitions
    some (exists_of start now zones)

  pub periodic_secondary_refresh : (ℕ → Option ℕ) → (ℕ → ℕ) → List ℕ → Option (List Call × Bool)
  unfolding iter_zones refresh_of
  periodic_secondary_refresh parse_isotime clock my_partitions = do
    zones ← iter_zones ((codes "type", one (text (codes "SECONDARY"))) ∷ []) my_partitions
    some (refresh_of parse_isotime clock 0 zones)

notify_of : List Zone → List Call
notify_of [] = []
notify_of (zone ∷ zones) =
    zone_api_update zone ∷ central_update (record zone { delayed_notify = false }) ∷ notify_of zones

-- `find_zones` answers the first zones, those that were updated longest ago.
delayed_notify_task : (Criterion → List Zone) → List ℕ → Option (List Call)
unfolding filter_between notify_of
delayed_notify_task find_zones my_partitions = do
  criterion ← filter_between shard my_partitions
  some (notify_of (find_zones (criterion ++ (codes "delayed_notify", one (number 1)) ∷ [])))

worker_recovery : Bool → List ℕ → Option (List Call)
unfolding my_range
worker_recovery false my_partitions = some []
worker_recovery true my_partitions = do
  (start, end) ← my_range my_partitions
  some (recover_shard start end ∷ [])
