-- ===== src/PoolManager/Zones/Tests.antt =====
-- Three targets: the first takes a change at once, the second at its second attempt, the third never.
use designate_private.Prelude.{
  ℕ, ◌<◌, ◌≤◌, ◌≡◌, ◌⊎◌, ◌↔◌, Bool, true, false, Option, none, some, List, [], ◌∷◌, arith, ◌==◌,
  IsIn,
}
use designate_private.Objects.{create, update, delete, pending, error, Zone}
use designate_private.PoolManager.Statuses.{Cache, build_status_object}
use designate_private.PoolManager.Zones.{
  ZonePool, Event, polled, told_central, zone_on_target, update_zone_on_target, successes,
  create_zone, update_zone, delete_zone,
}
use designate_private.PoolManager.Zones.Targets.{Succeeds, zone_on_target-Succeeds}
use designate_private.PoolManager.Zones.Outcomes.{
  Suffice, spread, IsPrepared, create_zone_outcome, update_zone_outcome, delete_zone_outcome,
}

abbrev at_once : ℕ → Bool
at_once n = true

abbrev at_second : ℕ → Bool
at_second n = n == 1

abbrev never : ℕ → Bool
never n = false

abbrev pool : ZonePool
pool = record {
  targets = at_once ∷ at_second ∷ never ∷ [];
  also_notifies = 9 ∷ [];
  nameservers = 1 ∷ 2 ∷ [];
  threshold = 60;
  max_retries = 2;
}

abbrev zone : Zone
zone = record { id = 1; action = create; status = pending; serial = 20 }

abbrev nothing_cached : Cache
nothing_cached n a = none

abbrev events_of : Option (List Event × Cache) → Option (List Event)
events_of none = none
events_of (some (events, _)) = some events

zone_on_target-Succeeds_test : zone_on_target 2 at_second ≡ true ↔ Succeeds at_second 0 2
zone_on_target-Succeeds_test = zone_on_target-Succeeds 2 at_second

create_zone_outcome_test :
    (Suffice pool 60 (successes (zone_on_target 2) pool.targets)
      × ((cache' : Cache) × (create_zone pool zone nothing_cached ≡ some (spread pool 20, cache'))
          × ((k : ℕ)
              → IsIn k pool.nameservers
              → cache' k create ≡ some (build_status_object k create))))
    ⊎ ((¬ Suffice pool 60 (successes (zone_on_target 2) pool.targets))
        × (create_zone pool zone nothing_cached
            ≡ some (told_central error 20 ∷ [], nothing_cached)))
create_zone_outcome_test = create_zone_outcome pool zone nothing_cached (omega arith)

update_zone_outcome_test :
    (Suffice pool 60 (successes update_zone_on_target pool.targets)
      × ((cache' : Cache) × (update_zone pool zone nothing_cached
            ≡ some (true, spread pool 20, cache'))
          × IsPrepared pool update nothing_cached cache'))
    ⊎ ((¬ Suffice pool 60 (successes update_zone_on_target pool.targets))
        × (update_zone pool zone nothing_cached
            ≡ some (false, told_central error 20 ∷ [], nothing_cached)))
update_zone_outcome_test = update_zone_outcome pool zone nothing_cached (omega arith)

delete_zone_outcome_test :
    (cache' : Cache) × IsPrepared pool delete nothing_cached cache'
    × (((3 ≤ successes (zone_on_target 2) pool.targets)
          × (delete_zone pool zone nothing_cached ≡ some (polled 1 0 ∷ polled 2 0 ∷ [], cache')))
        ⊎ ((successes (zone_on_target 2) pool.targets < 3)
            × (delete_zone pool zone nothing_cached
                ≡ some (told_central error 20 ∷ polled 1 0 ∷ polled 2 0 ∷ [], cache'))))
delete_zone_outcome_test = delete_zone_outcome pool zone nothing_cached (omega arith)
