-- ===== src/Worker/Poller/Rejected.antt =====
-- What ZonePoller reports to central when the polling fails, and why.
use designate_private.Prelude.{
  ℕ, suc, ◌-◌, ◌<◌, ◌≡◌, ◌⊎◌, inl, inr, sym, ap, ◌∙◌, true, false, List, Option, some, arith,
  length, count,
}
use designate_private.Objects.{Zone, create, success, error, no_zone, is_delete}
use designate_private.Worker.Threshold.{compare_threshold}
use designate_private.Worker.Poller.{
  Reply, QueryResult, round_results, parse_query_results, finish, reported, zone_poller,
}
use designate_private.Worker.Poller.Parse.{has_serial, lacks_zone, parse_query_results-IsPollOf}
use designate_private.Worker.Poller.Verdict.{verdict, last, polled-verdict}
use designate_private.Worker.Poller.Rounds.{enough, do_poll-EndedBy}

-- The zone that is reported after a failed poll. The polling ended with one of the rounds; in it
-- either too many nameservers said that they lack the zone, which is then to be created again, or
-- not, but too few served the serial asked for or a later one.
pub record IsRejected (threshold : ℕ) (replies : ℕ → List Reply) (max_retries : ℕ) (zone z : Zone)
    : Type 0 where
  pub serial : z.serial ≡ zone.serial
  pub round : ℕ
  pub in_range : round < max_retries
  pub unserved :
      (n : ℕ)
      → n < round
      → let rs = round_results threshold replies zone n in
        compare_threshold threshold (count (has_serial zone.serial) rs) (length rs) ≡ false
  pub last_or_served :
      let rs = round_results threshold replies zone round in
      (suc round ≡ max_retries)
      ⊎ (compare_threshold threshold (count (has_serial zone.serial) rs) (length rs) ≡ true)
  pub why :
      let rs = round_results threshold replies zone round in
      let is_known = compare_threshold threshold (length rs - count lacks_zone rs) (length rs) in
      ((z.status ≡ no_zone) × (z.action ≡ create) × (is_known ≡ false))
      ⊎ ((z.status ≡ error)
          × (z.action ≡ zone.action)
          × (is_known ≡ true)
          × (compare_threshold threshold (count (has_serial zone.serial) rs) (length rs) ≡ false))

-- What a verdict that is no success says of the answers, and what is reported.
abbrev WasRejected : ℕ → Zone → Zone → List (Option ℕ) → Type 0
WasRejected threshold zone z rs =
    let is_known = compare_threshold threshold (length rs - count lacks_zone rs) (length rs) in
    (z.serial ≡ zone.serial)
    × (((z.status ≡ no_zone) × (z.action ≡ create) × (is_known ≡ false))
        ⊎ ((z.status ≡ error)
            × (z.action ≡ zone.action)
            × (is_known ≡ true)
            × (compare_threshold threshold (count (has_serial zone.serial) rs) (length rs)
                ≡ false)))

verdict_cases :
    (threshold wanted : ℕ) (rs : List (Option ℕ))
    → ((verdict threshold wanted rs ≡ (false, no_zone))
        × (compare_threshold threshold (length rs - count lacks_zone rs) (length rs) ≡ false))
      ⊎ ((verdict threshold wanted rs ≡ (false, error))
          × (compare_threshold threshold (length rs - count lacks_zone rs) (length rs) ≡ true)
          × (compare_threshold threshold (count (has_serial wanted) rs) (length rs) ≡ false))
      ⊎ (verdict threshold wanted rs ≡ (true, success))
verdict_cases threshold wanted rs = ground arith

finish_no_zone :
    (zone z : Zone) (q : QueryResult)
    → finish zone q (some (false, no_zone)) ≡ reported z false
    → (z.serial ≡ zone.serial) × (z.status ≡ no_zone) × (z.action ≡ create)
unfolding finish
finish_no_zone zone z q e = (ground arith, ground arith, ground arith)

finish_error :
    (zone z : Zone) (q : QueryResult)
    → finish zone q (some (false, error)) ≡ reported z false
    → (z.serial ≡ zone.serial) × (z.status ≡ error) × (z.action ≡ zone.action)
unfolding finish
finish_error zone z q e = (ground arith, ground arith, ground arith)

finish-false :
    (threshold : ℕ) (zone z : Zone) (q : QueryResult) (rs : List (Option ℕ))
    → finish zone q (some (verdict threshold zone.serial rs)) ≡ reported z false
    → WasRejected threshold zone z rs
unfolding finish
finish-false threshold zone z q rs h = elim (verdict_cases threshold zone.serial rs) [
  | inl (v, known) ↦
      let (serial, status, action) =
        finish_no_zone zone z q (ap (λ o. finish zone q (some o)) (sym v) ∙ h) in
      (serial, inl (status, action, known))
  | inr (inl (v, known, unserved)) ↦
      let (serial, status, action) =
        finish_error zone z q (ap (λ o. finish zone q (some o)) (sym v) ∙ h) in
      (serial, inr (status, action, known, unserved))
  | inr (inr v) ↦ absurd (
      let e : finish zone q (some (true, success)) ≡ reported z false =
        ap (λ o. finish zone q (some o)) (sym v) ∙ h in
      cc)
]

-- When polling a zone that is not being deleted, with a serial above 0, fails with at least one
-- retry, the reported zone keeps its serial. The polling ended with the first round in which enough
-- nameservers served that serial or a later one, or with the last round; if in that round the
-- threshold is not met by the nameservers that did not say that they lack the zone, the zone is
-- NO_ZONE and is to be created again, and otherwise it is ERROR with the action that it had, and
-- too few served the serial.
pub zone_poller-IsRejected :
    (threshold : ℕ) (replies : ℕ → List Reply) (max_retries : ℕ) (zone z : Zone)
    → is_delete zone.action ≡ false
    → 0 < zone.serial
    → 0 < max_retries
    → zone_poller threshold replies max_retries zone ≡ reported z false
    → IsRejected threshold replies max_retries zone z
zone_poller-IsRejected threshold replies max_retries zone z keep pos some_retry done =
    let e = do_poll-EndedBy threshold replies zone max_retries some_retry in
    let rs = last threshold replies max_retries zone e in
    let (serial, why) =
      finish-false threshold zone z (parse_query_results rs zone) rs
        (sym (polled-verdict threshold replies max_retries zone keep pos e) ∙ done) in
    record {
      serial = serial;
      round = e.round;
      in_range = omega (arith, e.in_range);
      unserved = λ n h. sym (enough-count n) ∙ e.earlier n (omega arith) h;
      last_or_served = elim e.ended [
        | inl met ↦ inr (sym (enough-count e.round) ∙ met)
        | inr end ↦ inl (omega arith)
      ];
      why = why;
    }
  where
    enough-count :
        (n : ℕ)
        → enough threshold replies zone n ≡ (
            let rs = round_results threshold replies zone n in
            compare_threshold threshold (count (has_serial zone.serial) rs) (length rs))
    enough-count n =
        let rs = round_results threshold replies zone n in
        ap (λ k. compare_threshold threshold k (length rs))
          (parse_query_results-IsPollOf rs zone keep pos).positives
