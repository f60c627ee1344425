-- ===== src/PoolManager/Zones/Outcomes.antt =====
-- How create_zone, update_zone and delete_zone end.
use native.Mathlib.Decide.{dec_le}
use designate_private.Prelude.{
  ℕ, ◌*◌, ◌<◌, ◌≤◌, ◌≡◌, ◌⊎◌, inl, inr, true, false, none, some, List, [], ◌∷◌, ◌++◌, map, arith,
  leb, length, IsIn,
}
use designate_private.Objects.{Action, create, update, delete, error, Zone}
use designate_private.PoolManager.Consensus.{NsStatus, exceed_or_meet_threshold}
use designate_private.PoolManager.Statuses.{Cache, build_status_object}
use designate_private.PoolManager.Zones.{
  ZonePool, Event, notified, polled, told_central, zone_on_target, update_zone_on_target, successes,
  poll_all, store_all, store_missing, enough, create_zone, update_zone, delete_zone,
}
use designate_private.PoolManager.Zones.Targets.{
  store_all-fresh, store_missing-keeps, store_missing-fills,
}

-- What the nameservers are asked when the change is on the targets.
abbrev pub spread : ZonePool → ℕ → List Event
spread pool serial = map notified pool.also_notifies ++ map (λ n. polled n serial) pool.nameservers

-- A nameserver with a status for the action keeps it, every other gets a new one.
abbrev pub IsPrepared : ZonePool → Action → Cache → Cache → Type 0
IsPrepared pool change cache cache' =
    ((k : ℕ) (s : NsStatus) → cache k change ≡ some s → cache' k change ≡ some s)
    × ((k : ℕ)
        → IsIn k pool.nameservers
        → cache k change ≡ none
        → cache' k change ≡ some (build_status_object k change))

store_missing-IsPrepared :
    (pool : ZonePool) (change : Action) (cache : Cache)
    → IsPrepared pool change cache (store_missing change pool.nameservers cache)
store_missing-IsPrepared pool change cache = (
  λ k s e. store_missing-keeps k change pool.nameservers cache s e,
  λ k h e. store_missing-fills k change pool.nameservers cache h e,
)

-- So many targets are the percentage of them.
abbrev pub Suffice : ZonePool → ℕ → ℕ → Type 0
Suffice pool threshold occurrences = threshold * length pool.targets ≤ 100 * occurrences

module _ (pool : ZonePool) (zone : Zone) (cache : Cache)
    (some_target : 0 < length pool.targets) where
  enough-default :
      (k : ℕ) → enough pool k 0 ≡ some (leb (pool.threshold * length pool.targets) (100 * k))
  unfolding enough exceed_or_meet_threshold
  enough-default k = ground arith

  enough-all : (k : ℕ) → enough pool k 100 ≡ some (leb (100 * length pool.targets) (100 * k))
  unfolding enough exceed_or_meet_threshold
  enough-all k = ground arith

  -- For a pool with targets create_zone raises nothing. When the targets that took the zone are at
  -- least the threshold's percentage, each also_notify is notified, then each nameserver is polled for
  -- the zone's serial, with a new status in the cache; otherwise central is told ERROR with the
  -- zone's serial, and nothing else happens.
  pub create_zone_outcome :
      let taken = successes (zone_on_target pool.max_retries) pool.targets in
      (Suffice pool pool.threshold taken
        × ((cache' : Cache) × (create_zone pool zone cache ≡ some (spread pool zone.serial, cache'))
            × ((k : ℕ)
                → IsIn k pool.nameservers
                → cache' k create ≡ some (build_status_object k create))))
      ⊎ ((¬ Suffice pool pool.threshold taken)
          × (create_zone pool zone cache ≡ some (told_central error zone.serial ∷ [], cache)))
  unfolding create_zone poll_all
  create_zone_outcome =
      let taken = successes (zone_on_target pool.max_retries) pool.targets in
      elim (dec_le (pool.threshold * length pool.targets) (100 * taken)) [
        | yes met ↦ inl (
          met,
          (
            store_all create pool.nameservers cache,
            rw (enough-default taken) (ground arith),
            λ k h. store_all-fresh k create pool.nameservers cache (inl h),
          ),
        )
        | no missed ↦ inr (missed, rw (enough-default taken) (ground arith))
      ]

  -- For a pool with targets update_zone raises nothing. When the targets that took the zone are at
  -- least the threshold's percentage it returns True, each also_notify is notified, then each
  -- nameserver is polled for the zone's serial, and a status that is already in the cache stays;
  -- otherwise it returns False, central is told ERROR with the zone's serial, and nothing else happens.
  pub update_zone_outcome :
      let taken = successes update_zone_on_target pool.targets in
      (Suffice pool pool.threshold taken
        × ((cache' : Cache) × (update_zone pool zone cache
              ≡ some (true, spread pool zone.serial, cache'))
            × IsPrepared pool update cache cache'))
      ⊎ ((¬ Suffice pool pool.threshold taken)
          × (update_zone pool zone cache
              ≡ some (false, told_central error zone.serial ∷ [], cache)))
  unfolding update_zone poll_all
  update_zone_outcome =
      let taken = successes update_zone_on_target pool.targets in
      elim (dec_le (pool.threshold * length pool.targets) (100 * taken)) [
        | yes met ↦ inl (
          met,
          (
            store_missing update pool.nameservers cache,
            rw (enough-default taken) (ground arith),
            store_missing-IsPrepared pool update cache,
          ),
        )
        | no missed ↦ inr (missed, rw (enough-default taken) (ground arith))
      ]

  -- For a pool with targets delete_zone raises nothing. Unless every target took the deletion, central
  -- is told ERROR with the zone's serial; in any case each nameserver is then polled for the serial 0,
  -- and a status that is already in the cache stays.
  pub delete_zone_outcome :
      let taken = successes (zone_on_target pool.max_retries) pool.targets in
      let polls = map (λ n. polled n 0) pool.nameservers in
      (cache' : Cache) × IsPrepared pool delete cache cache'
      × (((length pool.targets ≤ taken) × (delete_zone pool zone cache ≡ some (polls, cache')))
          ⊎ ((taken < length pool.targets)
              × (delete_zone pool zone cache
                  ≡ some (told_central error zone.serial ∷ polls, cache'))))
  unfolding delete_zone poll_all
  delete_zone_outcome =
      let taken = successes (zone_on_target pool.max_retries) pool.targets in
      (
        store_missing delete pool.nameservers cache,
        store_missing-IsPrepared pool delete cache,
        elim (dec_le (length pool.targets) taken) [
          | yes met ↦ inl (met, rw (enough-all taken) (ground arith))
          | no missed ↦ inr (omega arith, rw (enough-all taken) (ground arith))
        ],
      )
