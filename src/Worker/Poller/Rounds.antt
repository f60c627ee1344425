-- ===== src/Worker/Poller/Rounds.antt =====
-- Which round's answers ZonePoller._do_poll returns.
use native.Mathlib.Decide.{ℕ_discrete}
use designate_private.Prelude.{
  ℕ, zero, suc, ◌+◌, ◌≤◌, ◌<◌, ◌≡◌, ◌⊎◌, inl, inr, refl, Bool, true, false, List, arith, length,
  Bool-cases,
}
use designate_private.Objects.{Zone}
use designate_private.Worker.Threshold.{compare_threshold}
use designate_private.Worker.Poller.{
  Reply, QueryResult, no_result, round_results, parse_query_results, poll_rounds, do_poll,
}

module _ (threshold : ℕ) (replies : ℕ → List Reply) (zone : Zone) where
  abbrev pub answers : ℕ → QueryResult
  answers n = parse_query_results (round_results threshold replies zone n) zone

  -- In round `n` enough nameservers answered as wanted.
  abbrev pub enough : ℕ → Bool
  enough n =
      compare_threshold threshold (answers n).positives
        (length (round_results threshold replies zone n))

  -- The round `n` of `max_retries` rounds from `first` on ended the polling with the result `q`.
  pub record EndedBy (first max_retries : ℕ) (q : QueryResult) : Type 0 where
    pub round : ℕ
    pub not_before : first ≤ round
    pub in_range : round < first + max_retries
    pub result : q ≡ answers round
    pub ended : (enough round ≡ true) ⊎ (suc round ≡ first + max_retries)
    pub earlier : (n : ℕ) → first ≤ n → n < round → enough n ≡ false

  this_round :
      (left first : ℕ) (last : QueryResult)
      → enough first ≡ true
      → EndedBy first (suc left) (poll_rounds threshold replies zone (suc left) first last)
  unfolding poll_rounds
  this_round left first last found = record {
    round = first;
    not_before = omega arith;
    in_range = omega arith;
    result = rw found refl;
    ended = inl found;
    earlier = λ n h k. absurd (omega arith);
  }

  poll_rounds-EndedBy :
      (left first : ℕ) (last : QueryResult)
      → EndedBy first (suc left) (poll_rounds threshold replies zone (suc left) first last)
  unfolding poll_rounds
  poll_rounds-EndedBy zero first last = elim (Bool-cases (enough first)) [
    | inl found ↦ this_round zero first last found
    | inr missed ↦ record {
      round = first;
      not_before = omega arith;
      in_range = omega arith;
      result = rw missed refl;
      ended = inr (omega arith);
      earlier = λ n h k. absurd (omega arith);
    }
  ]
  poll_rounds-EndedBy (suc left) first last = elim (Bool-cases (enough first)) [
    | inl found ↦ this_round (suc left) first last found
    | inr missed ↦
        let later = poll_rounds-EndedBy left (suc first) (answers first) in
        record {
          round = later.round;
          not_before = omega (arith, later.not_before);
          in_range = omega (arith, later.in_range);
          result = rw missed later.result;
          ended = elim later.ended [ inl e ↦ inl e | inr e ↦ inr (omega arith) ];
          earlier = λ n h k. elim (ℕ_discrete n first) [
            | yes same ↦ rw same missed
            | no other ↦ later.earlier n (omega arith) k
          ];
        }
  ]

-- With at least one retry configured, the result is that of the first round in which enough
-- nameservers answered as wanted, or of the last round if there is none; no later round is polled.
pub do_poll-EndedBy :
    (threshold : ℕ) (replies : ℕ → List Reply) (zone : Zone) (max_retries : ℕ)
    → 0 < max_retries
    → EndedBy threshold replies zone 0 max_retries (do_poll threshold replies zone max_retries)
unfolding do_poll
do_poll-EndedBy threshold replies zone zero h = absurd (omega arith)
do_poll-EndedBy threshold replies zone (suc k) h =
    poll_rounds-EndedBy threshold replies zone k 0 no_result
