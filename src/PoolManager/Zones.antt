-- ===== src/PoolManager/Zones.antt =====
-- create_zone, update_zone and delete_zone of pool_manager/service.py: the change is made on each
-- target of the pool, and when enough of them took it, the nameservers are polled for it. A target is
-- its backend's answer by attempt, True where the call raises nothing. The other calls are events, in
-- order; `time.sleep` and the log are left out.
pub mod Targets
pub mod Outcomes
mod Tests
use designate_private.Prelude.{
  ℕ, zero, suc, Bool, true, false, not, Option, none, some, List, [], ◌∷◌, ◌++◌, map, ◌==◌,
  if◌then◌else◌, length, count, ◌>>=◌,
}
use designate_private.Objects.{Action, create, update, delete, Status, error, Zone}
use designate_private.PoolManager.Consensus.{NsStatus, exceed_or_meet_threshold}
use designate_private.PoolManager.Statuses.{Cache, build_status_object, store_status}

-- mdns's notify_zone_changed and poll_for_serial_number (with the zone's serial), and central's
-- update_status.
pub data Event : Type 0 where
  notified : ℕ → Event
  polled : ℕ → ℕ → Event
  told_central : Status → ℕ → Event

pub record ZonePool : Type 0 where
  pub targets : List (ℕ → Bool)
  pub also_notifies : List ℕ
  pub nameservers : List ℕ
  pub threshold : ℕ
  pub max_retries : ℕ

-- The loop of _create_zone_on_target and _delete_zone_on_target: the attempts left, and the next one.
attempts : (ℕ → Bool) → ℕ → ℕ → Bool
attempts backend zero retries = false
attempts backend (suc left) retries =
    let rest = attempts backend left (suc retries) in if backend retries then true else rest

pub zone_on_target : ℕ → (ℕ → Bool) → Bool
unfolding attempts
zone_on_target max_retries backend = attempts backend max_retries 0

-- _update_zone_on_target
pub update_zone_on_target : (ℕ → Bool) → Bool
update_zone_on_target backend = backend 0

-- `results.count(True)`
pub successes : ((ℕ → Bool) → Bool) → List (ℕ → Bool) → ℕ
successes try_target targets = count (λ ok. ok) (map try_target targets)

poll_all : ℕ → List ℕ → List Event
poll_all serial nameservers = map (λ n. polled n serial) nameservers

-- Every nameserver's status is stored anew.
pub store_all : Action → List ℕ → Cache → Cache
unfolding store_status build_status_object
store_all _ [] cache = cache
store_all action (n ∷ ns) cache =
    store_all action ns (store_status (build_status_object n action) cache)

store_if_missing : Option NsStatus → ℕ → Action → Cache → Cache
unfolding store_status build_status_object
store_if_missing (some s) _ _ cache = cache
store_if_missing none n change cache = store_status (build_status_object n change) cache

-- Only a nameserver without a status gets a new one.
pub store_missing : Action → List ℕ → Cache → Cache
unfolding store_if_missing
store_missing _ [] cache = cache
store_missing action (n ∷ ns) cache =
    store_missing action ns (store_if_missing (cache n action) n action cache)

module _ (pool : ZonePool) where
  pub enough : ℕ → ℕ → Option Bool
  unfolding exceed_or_meet_threshold
  enough occurrences threshold =
      exceed_or_meet_threshold pool.threshold (length pool.targets) occurrences threshold

  pub create_zone : Zone → Cache → Option (List Event × Cache)
  unfolding successes zone_on_target enough poll_all store_all
  create_zone zone cache = do
    met ← enough (successes (zone_on_target pool.max_retries) pool.targets) 0
    some (
        if met
        then (
          map notified pool.also_notifies ++ poll_all zone.serial pool.nameservers,
          store_all create pool.nameservers cache,
        )
        else (told_central error zone.serial ∷ [], cache))

  -- The Boolean is what update_zone returns.
  pub update_zone : Zone → Cache → Option (Bool × List Event × Cache)
  unfolding successes update_zone_on_target enough poll_all store_missing
  update_zone zone cache = do
    met ← enough (successes update_zone_on_target pool.targets) 0
    some (
        if met
        then (
          true,
          map notified pool.also_notifies ++ poll_all zone.serial pool.nameservers,
          store_missing update pool.nameservers cache,
        )
        else (false, told_central error zone.serial ∷ [], cache))

  -- Without consensus central is told, and the nameservers are polled all the same, for the serial 0.
  pub delete_zone : Zone → Cache → Option (List Event × Cache)
  unfolding successes zone_on_target enough poll_all store_missing
  delete_zone zone cache = do
    met ← enough (successes (zone_on_target pool.max_retries) pool.targets) 100
    some (
      (if met then [] else told_central error zone.serial ∷ []) ++ poll_all 0 pool.nameservers,
      store_missing delete pool.nameservers cache,
    )
