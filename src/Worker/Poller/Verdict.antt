-- ===== src/Worker/Poller/Verdict.antt =====
-- What ZonePoller reports to central.
use mathlib.Core.Path.{subst}
use designate_private.Prelude.{
  ℕ, zero, suc, ◌-◌, ◌*◌, ◌≤◌, ◌<◌, ◌≡◌, ◌≢◌, inl, inr, refl, sym, ap, ◌∙◌, Bool, true, false, not,
  List, [], ◌∷◌, Option, some, none, arith, length, IsIn, count, count-le-length, if◌then◌else◌,
}
use designate_private.Objects.{Zone, Status, success, error, no_zone, is_delete}
use designate_private.Worker.Threshold.{compare_threshold}
use designate_private.Worker.Poller.{
  Reply, QueryResult, round_results, parse_query_results, do_poll, threshold_met, on_success,
  finish, Polled, type_error, reported, zone_poller,
}
use designate_private.Worker.Poller.Parse.{
  has_serial, lacks_zone, IsPollOf, parse_query_results-IsPollOf,
}
use designate_private.Worker.Poller.Rounds.{EndedBy, do_poll-EndedBy}

-- No number of late serials changes when the wanted serial is raised to the lowest of them.
count-lowest :
    (wanted c : ℕ) (rs : List (Option ℕ))
    → wanted ≤ c
    → ((n : ℕ) → IsIn (some n) rs → wanted ≤ n → c ≤ n)
    → count (has_serial c) rs ≡ count (has_serial wanted) rs
count-lowest wanted c [] h low = refl
count-lowest wanted c (none ∷ rs) h low = count-lowest wanted c rs h (λ n m. low n (inr m))
count-lowest wanted c (some n ∷ rs) h low =
    ground (arith, count-lowest wanted c rs h (λ k m. low k (inr m)), low n (inl refl))

-- The verdict on a poll's answers `rs` for a zone that is not being deleted.
abbrev pub verdict : ℕ → ℕ → List (Option ℕ) → Bool × Status
verdict threshold wanted rs =
    if not (compare_threshold threshold (length rs - count lacks_zone rs) (length rs))
    then (false, no_zone)
    else if compare_threshold threshold (count (has_serial wanted) rs) (length rs)
    then (true, success)
    else (false, error)

threshold_met-verdict :
    (threshold : ℕ) (zone : Zone) (rs : List (Option ℕ)) (q : QueryResult)
    → is_delete zone.action ≡ false
    → IsPollOf zone.serial rs q
    → threshold_met threshold zone q ≡ some (verdict threshold zone.serial rs)
unfolding threshold_met
threshold_met-verdict threshold zone rs q keep p =
    rw (p.kept, p.positives, p.no_zones, keep, threshold_met) (ground arith)

module _ (threshold : ℕ) (replies : ℕ → List Reply) (max_retries : ℕ) (zone : Zone) where
  abbrev pub polled : Polled
  polled = zone_poller threshold replies max_retries zone

  -- The last round that is polled, by its answers.
  abbrev pub last :
      EndedBy threshold replies zone 0 max_retries (do_poll threshold replies zone max_retries)
      → List (Option ℕ)
  last e = round_results threshold replies zone e.round

  pub polled-verdict :
      is_delete zone.action ≡ false
      → 0 < zone.serial
      → (e : EndedBy threshold replies zone 0 max_retries
          (do_poll threshold replies zone max_retries))
      → polled
        ≡ finish zone
            (parse_query_results (last e) zone)
            (some (verdict threshold zone.serial (last e)))
  unfolding zone_poller
  polled-verdict keep pos e =
      let found = parse_query_results-IsPollOf (last e) zone keep pos in
      ap (λ q. finish zone q (threshold_met threshold zone q)) e.result
      ∙ ap (finish zone (parse_query_results (last e) zone))
          (threshold_met-verdict threshold zone (last e) _ keep found)

-- The zone that is reported after a successful poll.
pub record IsConfirmed (threshold : ℕ) (replies : ℕ → List Reply) (max_retries : ℕ) (zone z : Zone)
    : Type 0 where
  pub round : ℕ
  pub in_range : round < max_retries
  pub status : z.status ≡ success
  pub action : z.action ≡ zone.action
  pub not_older : zone.serial ≤ z.serial
  pub served :
      let rs = round_results threshold replies zone round in
      compare_threshold threshold (count (has_serial z.serial) rs) (length rs) ≡ true

finish-true :
    (zone z : Zone) (q : QueryResult) (v : Bool × Status)
    → finish zone q (some v) ≡ reported z true
    → (v.0 ≡ true) × (z ≡ on_success q v.1 zone)
unfolding finish
finish-true zone z q (true, s) e = ground arith
finish-true zone z q (false, s) e = cc

verdict-true :
    (threshold wanted : ℕ) (rs : List (Option ℕ))
    → (verdict threshold wanted rs).0 ≡ true
    → ((verdict threshold wanted rs).1 ≡ success)
      × (compare_threshold threshold (count (has_serial wanted) rs) (length rs) ≡ true)
verdict-true threshold wanted rs h = ground arith

pos_mul : (a b : ℕ) → 0 < a → 0 < b → 0 < a * b
pos_mul a b h k = grind arith

-- Nothing is confirmed by no answer: a positive threshold needs a positive count.
count_pos :
    (threshold n total : ℕ)
    → 0 < threshold
    → n ≤ total
    → compare_threshold threshold n total ≡ true
    → 0 < n
unfolding compare_threshold
count_pos threshold zero total pos le h = absurd (ground (arith, pos_mul threshold total pos))
count_pos threshold (suc n) total pos le h = omega arith

-- When polling a zone that is not being deleted, with a serial above 0, succeeds under a positive
-- threshold with at least one retry, the zone is
-- reported to central as SUCCESS, with the action that it had and a serial not older than the one
-- asked for; and in one of the rounds polled, that reported serial or a later one was served by at
-- least the threshold's percentage of the nameservers.
pub zone_poller-IsConfirmed :
    (threshold : ℕ) (replies : ℕ → List Reply) (max_retries : ℕ) (zone z : Zone)
    → is_delete zone.action ≡ false
    → 0 < zone.serial
    → 0 < threshold
    → 0 < max_retries
    → zone_poller threshold replies max_retries zone ≡ reported z true
    → IsConfirmed threshold replies max_retries zone z
unfolding on_success
zone_poller-IsConfirmed threshold replies max_retries zone z keep pos positive some_retry done =
    let e = do_poll-EndedBy threshold replies zone max_retries some_retry in
    let rs = last threshold replies max_retries zone e in
    let q = parse_query_results rs zone in
    let p = parse_query_results-IsPollOf rs zone keep pos in
    let (won, is_z) =
      finish-true zone z q (verdict threshold zone.serial rs)
        (sym (polled-verdict threshold replies max_retries zone keep pos e) ∙ done) in
    let (is_success, met) = verdict-true threshold zone.serial rs won in
    let some_served =
      count_pos threshold (count (has_serial zone.serial) rs) (length rs) positive
        (count-le-length (has_serial zone.serial) rs) met in
    let (served, not_older) = p.attained (omega (arith, p.positives, some_served)) in
    subst (IsConfirmed threshold replies max_retries zone) (sym is_z) (record {
      round = e.round;
      in_range = omega (arith, e.in_range);
      status = is_success;
      action = refl;
      not_older = not_older;
      served = rw (count-lowest zone.serial q.consensus_serial rs not_older p.lowest) met;
    })

finish-ne_type_error :
    (threshold : ℕ) (zone : Zone) (q : QueryResult) (rs : List (Option ℕ))
    → q.results ≡ some rs
    → finish zone q (threshold_met threshold zone q) ≢ type_error
unfolding finish threshold_met
finish-ne_type_error threshold zone q rs h = ground arith

results-parse :
    (rs : List (Option ℕ)) (zone : Zone) → (parse_query_results rs zone).results ≡ some rs
unfolding parse_query_results
results-parse rs zone = refl

-- The poller returns a result exactly when at least one retry is configured: with none, it raises a
-- TypeError whatever the nameservers would answer.
pub zone_poller-returns :
    (threshold : ℕ) (replies : ℕ → List Reply) (max_retries : ℕ) (zone : Zone)
    → (zone_poller threshold replies 0 zone ≡ type_error)
      × (0 < max_retries → zone_poller threshold replies max_retries zone ≢ type_error)
unfolding zone_poller
zone_poller-returns threshold replies max_retries zone = (
  refl,
  λ h.
      let e = do_poll-EndedBy threshold replies zone max_retries h in
      finish-ne_type_error threshold zone (do_poll threshold replies zone max_retries) _
        (ap (λ q. q.results) e.result ∙ results-parse _ zone),
)
