-- ===== src/PoolManager/Statuses/Reports.antt =====
-- What the pool manager may tell central.
use designate_private.Prelude.{
  ℕ, ◌<◌, ◌≡◌, ◌≢◌, refl, sym, ap, ◌∙◌, Bool, true, false, Option, some, List, [], ◌∷◌, ◌++◌, arith,
  ◌==◌, if◌then◌else◌, All, ◌>>=◌,
}
use designate_private.Objects.{Action, Status, active, error, success, no_zone, Zone}
use designate_private.PoolManager.Consensus.{NsStatus, exceed_or_meet_threshold, consensus_serial}
use designate_private.PoolManager.Consensus.Greatest.{
  IsReached, consensus_serial-IsConsensus, exceed_or_meet_threshold-returns,
}
use designate_private.PoolManager.Statuses.{
  Pool, NsAnswer, Cache, Report, consulted, update_status, polled_action, current_status,
  is_consensus, get_error_serial, error_report, success_report, no_zone_report, report_errors,
  forget,
}

All-if {ℓ} :
    {A : Type ℓ} (P : A → Type 0) (x : A) (b : Bool)
    → (b ≡ true → P x)
    → All P (if b then x ∷ [] else [])
All-if P x true h = (h refl, tt)
All-if P x false h = tt

All-append {ℓ} :
    {A : Type ℓ} (P : A → Type 0) (xs ys : List A) → All P xs → All P ys → All P (xs ++ ys)
All-append P [] ys h k = k
All-append P (x ∷ xs) ys h k = (h.0, All-append P xs ys h.1 k)

module _ (pool : Pool) (statuses : List NsStatus) (zone : Zone) (status : Status) where
  -- SUCCESS is reported for a serial that enough nameservers have reached, of a zone that is not yet
  -- ACTIVE; ERROR and NO_ZONE only when a nameserver just said so.
  abbrev pub IsJustified : Report → Type 0
  IsJustified (success, serial) =
      (serial ≢ 0) × (zone.status ≢ active) × IsReached pool.threshold pool.targets statuses serial
  IsJustified (error, serial) = status ≡ error
  IsJustified (no_zone, serial) = (status ≡ no_zone) × (serial ≡ 0)
  IsJustified _ = ⊥

  success_report-IsJustified :
      (cache_serial consensus : ℕ) (own : Status)
      → zone.status ≡ own
      → (consensus ≢ 0 → IsReached pool.threshold pool.targets statuses consensus)
      → All IsJustified (success_report own cache_serial consensus)
  unfolding success_report
  success_report-IsJustified cache_serial consensus active e h = tt
  success_report-IsJustified cache_serial consensus _ e h =
      All-if IsJustified (success, consensus) _
        (λ k. (ground arith, (λ f. ground (arith, sym e ∙ f)), h (ground arith)))

  no_zone_report-IsJustified : (own : Status) → status ≡ own → All IsJustified (no_zone_report own)
  unfolding no_zone_report
  no_zone_report-IsJustified no_zone e = ((e, refl), tt)
  no_zone_report-IsJustified _ e = tt

  error_report-IsJustified :
      (consensus n : ℕ) → status ≡ error → All IsJustified (error_report consensus n)
  unfolding error_report
  error_report-IsJustified consensus n e = All-if IsJustified (error, n) _ (λ _. e)

-- A result, and what holds of it.
record Ends {A : Type 0} (P : A → Type 0) (end : Option A) : Type 0 where
  result : A
  returned : end ≡ some result
  holds : P result

bind-Ends :
    {A B : Type 0} {P : A → Type 0} (Q : B → Type 0) (m : Option A) (f : A → Option B)
    → Ends P m
    → ((a : A) → m ≡ some a → P a → Ends Q (f a))
    → Ends Q (m >>= f)
bind-Ends Q m f e k =
    let next = k e.result e.returned e.holds in
    record {
      result = next.result;
      returned = ap (λ o. o >>= f) e.returned ∙ next.returned;
      holds = next.holds;
    }

abbrev Anything : {A : Type 0} → A → Type 0
Anything _ = Unit

-- With targets in the pool none of the parts raises.
module _ (pool : Pool) (asked : ℕ → ℕ → Option NsAnswer) (some_target : 0 < pool.targets) where
  exceed-Ends :
      (k threshold : ℕ)
      → Ends Anything (exceed_or_meet_threshold pool.threshold pool.targets k threshold)
  exceed-Ends k threshold =
      let (met, e) =
        exceed_or_meet_threshold-returns pool.threshold pool.targets k threshold some_target in
      record { result = met; returned = e; holds = tt }

  is_consensus-Ends :
      (retrieval : ℕ) (polled : Action) (status : Status) (threshold : ℕ) (cache : Cache)
      → Ends Anything (is_consensus pool asked retrieval polled status threshold cache)
  unfolding is_consensus
  is_consensus-Ends retrieval polled status threshold cache =
      bind-Ends Anything _ _ (exceed-Ends _ threshold)
        (λ met e h. record { result = _; returned = refl; holds = tt })

  get_error_serial-Ends :
      (polled : Action) (consensus : ℕ) (cache : Cache)
      → Ends Anything (get_error_serial pool asked polled consensus cache)
  unfolding get_error_serial
  get_error_serial-Ends polled consensus cache =
      bind-Ends Anything _ _ (is_consensus-Ends 1 polled error pool.threshold cache)
        (λ r e h. record { result = _; returned = refl; holds = tt })

  forget-Ends :
      (polled : Action) (final : Bool) (cache : Cache)
      → Ends Anything (forget pool asked polled final cache)
  unfolding forget
  forget-Ends polled false cache = record { result = cache; returned = refl; holds = tt }
  forget-Ends polled true cache =
      bind-Ends Anything _ _ (is_consensus-Ends 3 polled success 100 cache)
        (λ r e h. record { result = _; returned = refl; holds = tt })

  report_errors-Ends :
      (statuses : List NsStatus) (zone : Zone) (status own : Status) (polled : Action)
      (consensus : ℕ) (cache : Cache)
      → status ≡ own
      → Ends
          (λ r. All (IsJustified pool statuses zone status) r.0)
          (report_errors pool asked polled own consensus cache)
  unfolding report_errors
  report_errors-Ends statuses zone status error polled consensus cache same =
      bind-Ends (λ r. All (IsJustified pool statuses zone status) r.0) _ _
        (get_error_serial-Ends polled consensus cache)
        (λ r e h. record {
          result = _;
          returned = refl;
          holds = error_report-IsJustified pool statuses zone status consensus r.0 same;
        })
  report_errors-Ends statuses zone status _ polled consensus cache same = record {
    result = ([], cache);
    returned = refl;
    holds = tt;
  }

  consensus-Ends :
      (statuses : List NsStatus)
      → Ends
          (λ c. c ≢ 0 → IsReached pool.threshold pool.targets statuses c)
          (consensus_serial pool.threshold pool.targets statuses)
  consensus-Ends statuses =
      let c = consensus_serial-IsConsensus pool.threshold pool.targets statuses some_target in
      record { result = c.serial; returned = c.returned; holds = c.reached }

-- How update_status ends.
pub record IsFair (pool : Pool) (statuses : List NsStatus) (zone : Zone) (status : Status)
    (end : Option (List Report × Cache)) : Type 0 where
  pub reports : List Report
  pub cache : Cache
  pub returned : end ≡ some (reports, cache)
  pub justified : All (IsJustified pool statuses zone status) reports

-- For a pool with targets update_status of the pool manager raises nothing, and it reports to central
-- only what is justified: SUCCESS, of a zone that is not yet ACTIVE, for a serial above 0 such that
-- the nameservers at that serial or a later one are at least the threshold's percentage of the
-- number of targets; ERROR when the nameserver's status is ERROR; and NO_ZONE, with the serial 0,
-- when it is NO_ZONE.
pub update_status-IsFair :
    (pool : Pool) (asked : ℕ → ℕ → Option NsAnswer) (zone : Zone) (nameserver : ℕ) (status : Status)
    (actual_serial : Option ℕ) (cache : Cache)
    → 0 < pool.targets
    → IsFair pool
        (consulted pool asked zone nameserver status actual_serial cache).0
        zone
        status
        (update_status pool asked zone nameserver status actual_serial cache)
unfolding update_status
update_status-IsFair pool asked zone nameserver status actual_serial cache some_target =
    let polled = polled_action zone.action in
    let start = (current_status nameserver polled cache).0.serial_number in
    let (statuses, cache') = consulted pool asked zone nameserver status actual_serial cache in
    let P = IsJustified pool statuses zone status in
    let end =
      bind-Ends (λ r. All P r.0) _ _ (consensus-Ends pool asked some_target statuses)
        (λ c _ reached.
          bind-Ends (λ r. All P r.0) _ _
            (report_errors-Ends pool asked some_target statuses zone status status polled c cache'
              refl)
            (λ errors _ fair.
              bind-Ends (λ r. All P r.0) _ _
                (forget-Ends pool asked some_target polled (c == zone.serial) errors.1)
                (λ last _ _. record {
                  result = _;
                  returned = refl;
                  holds =
                      All-append P _ _
                        (All-append P _ _
                          (success_report-IsJustified pool statuses zone status start c zone.status
                            refl reached)
                          fair)
                        (no_zone_report-IsJustified pool statuses zone status status refl);
                }))) in
    record {
      reports = end.result.0;
      cache = end.result.1;
      returned = end.returned;
      justified = end.holds;
    }
