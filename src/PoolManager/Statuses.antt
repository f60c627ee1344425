-- ===== src/PoolManager/Statuses.antt =====
-- The status cache of pool_manager/service.py and update_status, which mdns calls with what it heard
-- from a nameserver. Everything is about one zone: the cache is keyed by zone, nameserver and action,
-- and update_status holds the zone's lock. What get_serial_number answers when a nameserver is asked
-- is a parameter, `asked`, with the number of the retrieval in which it is asked; `none` is a
-- messaging exception. The reports are the calls of central's update_status, in order.
pub mod Reports
mod Tests
use designate_private.Prelude.{
  ℕ, zero, suc, ◌+◌, ◌*◌, Bool, true, false, not, ◌&&◌, ◌||◌, Option, none, some, List, [], ◌∷◌,
  ◌++◌, map, ◌==◌, ltb, leb, if◌then◌else◌, length, count, ◌>>=◌,
}
use designate_private.Objects.{
  Action, create, update, delete, no_action, Status, active, pending, error, deleted, success,
  no_zone, Zone,
}
use designate_private.PoolManager.Consensus.{
  NsStatus, exceed_or_meet_threshold, consensus_serial, error_serial,
}

pub record Pool : Type 0 where
  pub nameservers : List ℕ
  pub targets : ℕ
  pub threshold : ℕ

pub record NsAnswer : Type 0 where
  pub status : Status
  pub actual_serial : Option ℕ

abbrev pub Cache : Type 0
Cache = ℕ → Action → Option NsStatus

abbrev pub Report : Type 0
Report = Status × ℕ

unfoldable pub same_action : Action → Action → Bool
same_action create create = true
same_action update update = true
same_action delete delete = true
same_action no_action no_action = true
same_action _ _ = false

same_status : Status → Option Status → Bool
same_status success (some success) = true
same_status error (some error) = true
same_status active (some active) = true
same_status pending (some pending) = true
same_status deleted (some deleted) = true
same_status no_zone (some no_zone) = true
same_status _ _ = false

unfoldable pub build_status_object : ℕ → Action → NsStatus
build_status_object nameserver action = record {
  nameserver = nameserver;
  action = action;
  status = none;
  serial_number = 0;
}

unfoldable pub store_status : NsStatus → Cache → Cache
unfolding same_action
store_status s cache nameserver action =
    if (nameserver == s.nameserver) && same_action action s.action
    then some s
    else cache nameserver action

-- _clear_cache with an action.
pub clear_cache : List ℕ → Action → Cache → Cache
unfolding same_action
clear_cache [] _ cache = cache
clear_cache (n ∷ ns) action cache = clear_cache ns action (λ nameserver other.
    if (nameserver == n) && same_action other action then none else cache nameserver other)

-- An unexpectedly missing zone is an error, and after an update it is to be created.
pub interpret : Action → Status → Action × Option Status
interpret create no_zone = (create, some error)
interpret delete no_zone = (delete, some success)
interpret update no_zone = (create, some error)
interpret no_action no_zone = (no_action, none)
interpret action status = (action, some status)

serial_or_zero : Option ℕ → ℕ
serial_or_zero none = 0
serial_or_zero (some n) = n

pub answered : ℕ → Action → NsAnswer → NsStatus
unfolding interpret serial_or_zero
answered nameserver action answer =
    let (action', status) = interpret action answer.status in
    record {
      nameserver = nameserver;
      action = action';
      status = status;
      serial_number = serial_or_zero answer.actual_serial;
    }

pub retrieve_from_mdns : (ℕ → Option NsAnswer) → ℕ → Action → Cache → Option NsStatus × Cache
unfolding answered store_status
retrieve_from_mdns asked nameserver action cache = elim (asked nameserver) [
  | none ↦ (none, cache)
  | some answer ↦ let s = answered nameserver action answer in (some s, store_status s cache)
]

-- The loop body of _retrieve_statuses.
retrieve_status : (ℕ → Option NsAnswer) → ℕ → Action → Cache → Option NsStatus × Cache
unfolding retrieve_from_mdns
retrieve_status asked nameserver action cache = elim (cache nameserver action) [
  | none ↦ retrieve_from_mdns asked nameserver action cache
  | some s ↦ (some s, cache)
]

cons_found : Option NsStatus → List NsStatus → List NsStatus
cons_found none statuses = statuses
cons_found (some s) statuses = s ∷ statuses

pub retrieve_statuses : (ℕ → Option NsAnswer) → List ℕ → Action → Cache → List NsStatus × Cache
unfolding retrieve_status cons_found
retrieve_statuses asked [] _ cache = ([], cache)
retrieve_statuses asked (n ∷ ns) action cache =
    let (found, cache') = retrieve_status asked n action cache in
    let (rest, cache'') = retrieve_statuses asked ns action cache' in
    (cons_found found rest, cache'')

-- `UPDATE_ACTION if zone.action == 'NONE' else zone.action`
pub polled_action : Action → Action
polled_action no_action = update
polled_action action = action

module _ (pool : Pool) (asked : ℕ → ℕ → Option NsAnswer) where
  -- _is_consensus; the number is that of the retrieval.
  is_consensus : ℕ → Action → Status → ℕ → Cache → Option (Bool × Cache)
  unfolding retrieve_statuses same_status
  is_consensus retrieval action status threshold cache = do
    let (statuses, cache') = retrieve_statuses (asked retrieval) pool.nameservers action cache
    met ←
        exceed_or_meet_threshold pool.threshold pool.targets
          (count (λ s. same_status status s.status) statuses) threshold
    some (met, cache')

  get_error_serial : Action → ℕ → Cache → Option (ℕ × Cache)
  unfolding is_consensus
  get_error_serial action consensus cache = do
    (met, cache') ← is_consensus 1 action error pool.threshold cache
    let (statuses, cache'') = retrieve_statuses (asked 2) pool.nameservers action cache'
    some (if met then (error_serial consensus statuses, cache'') else (0, cache'))

-- The status that the cache has for the nameserver, or a new one, which is then stored.
current_status : ℕ → Action → Cache → NsStatus × Cache
unfolding store_status build_status_object
current_status nameserver action cache = elim (cache nameserver action) [
  | none ↦ let s = build_status_object nameserver action in (s, store_status s cache)
  | some s ↦ (s, cache)
]

-- `actual_serial and cache_serial <= actual_serial`: neither None nor 0 is an actual serial.
note_answer : NsStatus → Status → Option ℕ → Cache → Cache
unfolding store_status serial_or_zero
note_answer current status actual_serial cache =
    let actual = serial_or_zero actual_serial in
    if not (actual == 0) && leb current.serial_number actual
    then store_status (record current { status = some status; serial_number = actual }) cache
    else cache

success_report : Status → ℕ → ℕ → List Report
success_report active cache_serial consensus = []
success_report _ cache_serial consensus =
    if not (consensus == 0) && leb cache_serial consensus then (success, consensus) ∷ [] else []

error_report : ℕ → ℕ → List Report
error_report consensus e = if ltb consensus e || (e == 0) then (error, e) ∷ [] else []

no_zone_report : Status → List Report
no_zone_report no_zone = (no_zone, 0) ∷ []
no_zone_report _ = []

module _ (pool : Pool) (asked : ℕ → ℕ → Option NsAnswer) where
  -- The part of update_status under `status == ERROR_STATUS`.
  report_errors : Action → Status → ℕ → Cache → Option (List Report × Cache)
  unfolding get_error_serial error_report
  report_errors action error consensus cache = do
    (e, cache') ← get_error_serial pool asked action consensus cache
    some (error_report consensus e, cache')
  report_errors _ _ consensus cache = some ([], cache)

  -- The last statement of update_status.
  forget : Action → Bool → Cache → Option Cache
  unfolding is_consensus clear_cache
  forget _ false cache = some cache
  forget action true cache = do
    (met, cache') ← is_consensus pool asked 3 action success 100 cache
    some (if met then clear_cache pool.nameservers action cache' else cache')

  -- The statuses from which update_status takes the consensus, and the cache with them.
  pub consulted : Zone → ℕ → Status → Option ℕ → Cache → List NsStatus × Cache
  unfolding polled_action current_status note_answer retrieve_statuses
  consulted zone nameserver status actual_serial cache =
      let action = polled_action zone.action in
      let (current, cache') = current_status nameserver action cache in
      retrieve_statuses (asked 0) pool.nameservers action
        (note_answer current status actual_serial cache')

  -- Service.update_status
  pub update_status : Zone → ℕ → Status → Option ℕ → Cache → Option (List Report × Cache)
  unfolding polled_action current_status consulted success_report report_errors no_zone_report
      forget
  update_status zone nameserver status actual_serial cache = do
    let action = polled_action zone.action
    let cache_serial = (current_status nameserver action cache).0.serial_number
    let (statuses, cache') = consulted zone nameserver status actual_serial cache
    consensus ← consensus_serial pool.threshold pool.targets statuses
    (errors, cache'') ← report_errors action status consensus cache'
    last ← forget action (consensus == zone.serial) cache''
    some
        (success_report zone.status cache_serial consensus ++ errors ++ no_zone_report status, last)
