-- ===== src/Worker/Poller/Tests.antt =====
-- Three nameservers, a threshold of 60 percent, and a zone that is to reach the serial 20.
use designate_private.Prelude.{
  ℕ, zero, suc, ◌<◌, ◌≡◌, ◌≢◌, refl, true, false, List, [], ◌∷◌, Option, some, none, arith,
}
use designate_private.Objects.{Zone, create, update, delete, pending, success, no_zone}
use designate_private.Worker.Poller.{
  Reply, serial, empty_answer, timeout, parse_query_results, do_poll, zone_poller, reported,
  type_error,
}
use designate_private.Worker.Poller.Parse.{
  IsPollOf, parse_query_results-IsPollOf, parse_query_results_deleted,
}
use designate_private.Worker.Poller.Rounds.{EndedBy, do_poll-EndedBy}
use designate_private.Worker.Poller.Rejected.{IsRejected, zone_poller-IsRejected}
use designate_private.Worker.Poller.Verdict.{
  IsConfirmed, zone_poller-IsConfirmed, zone_poller-returns,
}

abbrev zone : Zone
zone = record { id = 1; action = update; status = pending; serial = 20 }

-- In the first round one nameserver is late enough, in the second two are.
abbrev replies : ℕ → List Reply
replies zero = serial 20 ∷ serial 19 ∷ timeout ∷ []
replies (suc n) = serial 22 ∷ serial 21 ∷ empty_answer ∷ []

abbrev absent : ℕ → List Reply
absent n = empty_answer ∷ serial 20 ∷ empty_answer ∷ []

abbrev confirmed : Zone
confirmed = record zone { status = success; serial = 21 }

abbrev rejected : Zone
rejected = record zone { status = no_zone; action = create }

confirmed_run : zone_poller 60 replies 3 zone ≡ reported confirmed true
unfolding zone_poller
confirmed_run = refl

rejected_run : zone_poller 60 absent 2 zone ≡ reported rejected false
unfolding zone_poller
rejected_run = refl

abbrev results : List (Option ℕ)
results = some 22 ∷ some 21 ∷ some 0 ∷ none ∷ []

parse_query_results-IsPollOf_test : IsPollOf 20 results (parse_query_results results zone)
parse_query_results-IsPollOf_test = parse_query_results-IsPollOf results zone refl (omega arith)

parse_query_results_deleted_test :
    parse_query_results results (record zone { action = delete })
    ≡ record { positives = 1; no_zones = 1; consensus_serial = 0; results = some results }
parse_query_results_deleted_test =
    parse_query_results_deleted results (record zone { action = delete }) refl

do_poll-EndedBy_test : EndedBy 60 replies zone 0 3 (do_poll 60 replies zone 3)
do_poll-EndedBy_test = do_poll-EndedBy 60 replies zone 3 (omega arith)

zone_poller-IsConfirmed_example : IsConfirmed 60 replies 3 zone confirmed
zone_poller-IsConfirmed_example =
    zone_poller-IsConfirmed 60 replies 3 zone confirmed refl (omega arith) (omega arith)
      (omega arith) confirmed_run

zone_poller-IsRejected_example : IsRejected 60 absent 2 zone rejected
zone_poller-IsRejected_example =
    zone_poller-IsRejected 60 absent 2 zone rejected refl (omega arith) (omega arith) rejected_run

zone_poller-returns_test :
    (zone_poller 60 replies 0 zone ≡ type_error)
    × (0 < 3 → zone_poller 60 replies 3 zone ≢ type_error)
zone_poller-returns_test = zone_poller-returns 60 replies 3 zone
