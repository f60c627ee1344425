-- ===== src/NotifyLimit.antt =====
-- ZoneLock of dnsutils.py, by which LimitNotifyMiddleware limits the NOTIFYs of a zone. `data` maps
-- zones to the times at which they were locked; zones and times are numbers, and the clock's answer
-- is an argument. The mutex around each method makes a history a sequence of calls.
pub mod Fair
mod Tests
use designate_private.Prelude.{
  ℕ, ◌+◌, Bool, true, false, Option, none, some, List, [], ◌∷◌, ◌==◌, ltb, if◌then◌else◌,
}

abbrev pub Locked : Type 0
Locked = List (ℕ × ℕ)

pub locked_at : ℕ → Locked → Option ℕ
locked_at zone [] = none
locked_at zone ((z, t) ∷ rest) =
    let other = locked_at zone rest in if z == zone then some t else other

-- self.data.pop(zone), also of the older entries that this list may have of the zone.
forget : ℕ → Locked → Locked
forget zone [] = []
forget zone ((z, t) ∷ rest) =
    let others = forget zone rest in if z == zone then others else (z, t) ∷ others

-- ZoneLock.acquire: the data and the answer.
pub acquire : ℕ → ℕ → ℕ → Locked → Locked × Bool
unfolding locked_at
acquire delay now zone locks = elim (locked_at zone locks) [
  | none ↦ ((zone, now) ∷ locks, true)
  | some locktime ↦
      if ltb (locktime + delay) now then ((zone, now) ∷ locks, true) else (locks, false)
]

-- ZoneLock.release
pub release : ℕ → Locked → Locked
unfolding forget
release zone locks = forget zone locks

pub data Call : Type 0 where
  acquiring : (zone now : ℕ) → Call
  releasing : (zone : ℕ) → Call

-- What happened, the last first.
pub data Entry : Type 0 where
  answered : (zone now : ℕ) → Bool → Entry
  released : (zone : ℕ) → Entry

step : ℕ → Call → Locked × List Entry → Locked × List Entry
unfolding acquire release
step delay (acquiring zone now) (locks, log) =
    let (after, granted) = acquire delay now zone locks in (after, answered zone now granted ∷ log)
step delay (releasing zone) (locks, log) = (release zone locks, released zone ∷ log)

pub serve : ℕ → List Call → Locked × List Entry → Locked × List Entry
unfolding step
serve delay [] s = s
serve delay (c ∷ cs) s = serve delay cs (step delay c s)
