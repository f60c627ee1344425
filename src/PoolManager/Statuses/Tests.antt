-- ===== src/PoolManager/Statuses/Tests.antt =====
-- Three nameservers, two of which have to agree; the zone is to reach the serial 20.
use designate_private.Prelude.{
  ℕ, ◌≡◌, refl, ◌==◌, Option, none, some, List, [], ◌∷◌, arith, if◌then◌else◌,
}
use designate_private.Objects.{Zone, update, pending, success}
use designate_private.PoolManager.Consensus.{consensus_serial, exceed_or_meet_threshold}
use designate_private.PoolManager.Statuses.{Pool, NsAnswer, Cache, Report, consulted, update_status}
use designate_private.PoolManager.Statuses.Reports.{IsFair, update_status-IsFair}

abbrev pool : Pool
pool = record { nameservers = 1 ∷ 2 ∷ 3 ∷ []; targets = 3; threshold = 60 }

-- The nameserver 2 is at the serial 20, the others do not answer the manager.
abbrev asked : ℕ → ℕ → Option NsAnswer
asked retrieval n =
    if n == 2 then some (record { status = success; actual_serial = some 20 }) else none

abbrev zone : Zone
zone = record { id = 1; action = update; status = pending; serial = 20 }

abbrev nothing_cached : Cache
nothing_cached n a = none

abbrev reports_of : Option (List Report × Cache) → Option (List Report)
reports_of none = none
reports_of (some (reports, _)) = some reports

update_status_run :
    reports_of (update_status pool asked zone 1 success (some 20) nothing_cached)
    ≡ some ((success, 20) ∷ [])
unfolding update_status consensus_serial exceed_or_meet_threshold
update_status_run = refl

update_status-IsFair_example :
    IsFair pool
      (consulted pool asked zone 1 success (some 20) nothing_cached).0
      zone
      success
      (update_status pool asked zone 1 success (some 20) nothing_cached)
update_status-IsFair_example =
    update_status-IsFair pool asked zone 1 success (some 20) nothing_cached (omega arith)
