-- ===== src/Worker/Poller.antt =====
-- PollForZone, parse_query_results and ZonePoller of worker/tasks/zone.py. What a nameserver answers
-- in a round of polling is a parameter; `time.sleep` and the log are left out.
mod Tests
pub mod Parse
pub mod Verdict
pub mod Rejected
pub mod Rounds
use designate_private.Prelude.{
  ℕ, zero, suc, ◌+◌, ◌-◌, Bool, true, false, not, ◌&&◌, ◌||◌, Option, none, some, List, [], ◌∷◌,
  map, ◌==◌, ltb, leb, if◌then◌else◌, length,
}
use designate_private.Objects.{Action, create, Status, error, success, no_zone, Zone, is_delete}
use designate_private.Worker.Threshold.{compare_threshold}

-- The reply to a SOA query: a serial, no answer section or an empty one, a timeout, or any other
-- exception.
pub data Reply : Type 0 where
  serial : ℕ → Reply
  empty_answer timeout failure : Reply

-- PollForZone.__call__ over wutils.get_serial
pub poll_for_zone : Reply → Option ℕ
poll_for_zone (serial n) = some n
poll_for_zone empty_answer = some 0
poll_for_zone timeout = none
poll_for_zone failure = none

pub record Tally : Type 0 where
  pub positives : ℕ
  pub no_zones : ℕ
  pub low_serial : ℕ

-- The body of the loop of parse_query_results, by zone.action == 'DELETE'.
count_result : Bool → ℕ → Tally → Option ℕ → Tally
count_result del wanted t none = t
count_result true wanted t (some n) =
    if n == 0 then record t { no_zones = t.no_zones + 1; positives = t.positives + 1 } else t
count_result false wanted t (some n) =
    if leb wanted n
    then record t {
      positives = t.positives + 1;
      low_serial = if (t.low_serial == 0) || ltb n t.low_serial then n else t.low_serial;
    }
    else if n == 0
    then record t { no_zones = t.no_zones + 1 }
    else t

count_results : Bool → ℕ → Tally → List (Option ℕ) → Tally
unfolding count_result
count_results del wanted t [] = t
count_results del wanted t (r ∷ rs) = count_results del wanted (count_result del wanted t r) rs

abbrev no_tally : Tally
no_tally = record { positives = 0; no_zones = 0; low_serial = 0 }

-- DNSQueryResult. `results` is `none` in the initial value, where the code has the number 0.
pub record QueryResult : Type 0 where
  pub positives : ℕ
  pub no_zones : ℕ
  pub consensus_serial : ℕ
  pub results : Option (List (Option ℕ))

pub parse_query_results : List (Option ℕ) → Zone → QueryResult
unfolding count_results
parse_query_results results zone =
    let t = count_results (is_delete zone.action) zone.serial no_tally results in
    record {
      positives = t.positives;
      no_zones = t.no_zones;
      consensus_serial = t.low_serial;
      results = some results;
    }

abbrev pub no_result : QueryResult
no_result = record { positives = 0; no_zones = 0; consensus_serial = 0; results = none }

-- `replies n` are the nameservers' replies in round `n`.
module _ (threshold : ℕ) (replies : ℕ → List Reply) (zone : Zone) where
  pub round_results : ℕ → List (Option ℕ)
  unfolding poll_for_zone
  round_results n = map poll_for_zone (replies n)

  -- The loop of ZonePoller._do_poll: the rounds left, the current round, the last result.
  poll_rounds : ℕ → ℕ → QueryResult → QueryResult
  unfolding round_results
  poll_rounds zero retry last = last
  poll_rounds (suc left) retry last =
      let results = round_results retry in
      let query_result = parse_query_results results zone in
      let rest = poll_rounds left (suc retry) query_result in
      if compare_threshold threshold query_result.positives (length results)
      then query_result
      else rest

  pub do_poll : ℕ → QueryResult
  unfolding poll_rounds
  do_poll max_retries = poll_rounds max_retries 0 no_result

-- ZonePoller._threshold_met: `none` is the TypeError of `len(0)`.
pub threshold_met : ℕ → Zone → QueryResult → Option (Bool × Status)
unfolding compare_threshold
threshold_met threshold zone q = elim q.results [
  | none ↦ none
  | some results ↦
      let total = length results in
      if not (compare_threshold threshold (total - q.no_zones) total) && not (is_delete zone.action)
      then some (false, no_zone)
      else if not (compare_threshold threshold q.positives total)
      then some (false, error)
      else some (true, success)
]

pub on_success : QueryResult → Status → Zone → Zone
on_success q status zone = record zone { status = status; serial = q.consensus_serial }

pub on_failure : Status → Zone → Zone
on_failure no_zone zone = record zone { status = no_zone; action = create }
on_failure status zone = record zone { status = status }

-- How ZonePoller.__call__ ends: with the exception, or with the zone that it hands to central's
-- update_zone_status and the result that it returns.
pub data Polled : Type 0 where
  type_error : Polled
  reported : Zone → Bool → Polled

pub finish : Zone → QueryResult → Option (Bool × Status) → Polled
unfolding on_success on_failure
finish zone q none = type_error
finish zone q (some (true, status)) = reported (on_success q status zone) true
finish zone q (some (false, status)) = reported (on_failure status zone) false

pub zone_poller : ℕ → (ℕ → List Reply) → ℕ → Zone → Polled
unfolding do_poll threshold_met finish parse_query_results
zone_poller threshold replies max_retries zone =
    let query_result = do_poll threshold replies zone max_retries in
    finish zone query_result (threshold_met threshold zone query_result)
