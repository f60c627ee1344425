-- ===== src/Worker/Poller/Parse.antt =====
-- What parse_query_results counts.
use native.Mathlib.Decide.{dec_le}
use designate_private.Prelude.{
  ℕ, ◌+◌, ◌≤◌, ◌<◌, ◌≡◌, ◌⊎◌, inl, inr, refl, Bool, true, false, Option, none, some, List, [], ◌∷◌,
  arith, ◌==◌, leb, count, IsIn, ap, sym, ◌∙◌,
}
use designate_private.Objects.{Zone, is_delete}
use designate_private.Worker.Poller.{
  Tally, no_tally, count_result, count_results, QueryResult, parse_query_results,
}

-- A nameserver serves the zone at `wanted` or later.
abbrev pub has_serial : ℕ → Option ℕ → Bool
has_serial wanted none = false
has_serial wanted (some n) = leb wanted n

-- A nameserver answered that it has no such zone.
abbrev pub lacks_zone : Option ℕ → Bool
lacks_zone none = false
lacks_zone (some n) = n == 0

count_lower :
    (wanted : ℕ) (t : Tally) (rs : List (Option ℕ))
    → 0 < wanted
    → let s = count_results false wanted t rs in
      (s.positives ≡ t.positives + count (has_serial wanted) rs)
      × (s.no_zones ≡ t.no_zones + count lacks_zone rs)
unfolding count_results
count_lower wanted t [] h = (omega arith, omega arith)
count_lower wanted t (none ∷ rs) h = count_lower wanted t rs h
count_lower wanted t (some n ∷ rs) h =
    ground (arith, count_lower wanted (count_result false wanted t (some n)) rs h)

module _ (wanted : ℕ) (pos : 0 < wanted) where
  abbrev low : Tally → List (Option ℕ) → ℕ
  low t rs = (count_results false wanted t rs).low_serial

  abbrev after : Tally → ℕ → Tally
  after t n = count_result false wanted t (some n)

  low-after :
      (t : Tally) (n : ℕ)
      → wanted ≤ n
      → (0 < (after t n).low_serial)
        × ((after t n).low_serial ≤ n)
        × (((after t n).low_serial ≡ t.low_serial) ⊎ ((after t n).low_serial ≡ n))
        × (0 < t.low_serial → (after t n).low_serial ≤ t.low_serial)
  unfolding count_result
  low-after t n h = (ground arith, ground arith, ground arith, ground arith)

  low-after_same : (t : Tally) (n : ℕ) → n < wanted → (after t n).low_serial ≡ t.low_serial
  unfolding count_result
  low-after_same t n h = ground arith

  low-pos : (t : Tally) (rs : List (Option ℕ)) → 0 < t.low_serial → 0 < low t rs
  unfolding count_results
  low-pos t [] h = h
  low-pos t (none ∷ rs) h = low-pos t rs h
  low-pos t (some n ∷ rs) h = elim (dec_le wanted n) [
    | yes up ↦ low-pos (after t n) rs (low-after t n up).0
    | no down ↦ low-pos (after t n) rs (rw (low-after_same t n (omega arith)) h)
  ]

  low-le_start : (t : Tally) (rs : List (Option ℕ)) → 0 < t.low_serial → low t rs ≤ t.low_serial
  unfolding count_results
  low-le_start t [] h = omega arith
  low-le_start t (none ∷ rs) h = low-le_start t rs h
  low-le_start t (some n ∷ rs) h = elim (dec_le wanted n) [
    | yes up ↦
        omega (arith, low-le_start (after t n) rs (low-after t n up).0, (low-after t n up).3 h)
    | no down ↦
        let same = low-after_same t n (omega arith) in
        omega (arith, same, low-le_start (after t n) rs (rw same h))
  ]

  low-le : (t : Tally) (rs : List (Option ℕ)) (n : ℕ) → IsIn (some n) rs → wanted ≤ n → low t rs ≤ n
  unfolding count_results
  low-le t (none ∷ rs) n (inl e) h = cc
  low-le t (some m ∷ rs) n (inl e) h =
      let same : m ≡ n = cc in
      let facts = low-after t m (omega arith) in
      omega (arith, low-le_start (after t m) rs facts.0, facts.1)
  low-le t (r ∷ rs) n (inr m) h = low-le (count_result false wanted t r) rs n m h
  low-le t [] n m h = absurd m

  low-source :
      (t : Tally) (rs : List (Option ℕ))
      → (low t rs ≡ t.low_serial) ⊎ (IsIn (some (low t rs)) rs × (wanted ≤ low t rs))
  unfolding count_results
  low-source t [] = inl refl
  low-source t (none ∷ rs) = elim (low-source t rs) [ inl e ↦ inl e | inr (m, h) ↦ inr (inr m, h) ]
  low-source t (some n ∷ rs) = elim (low-source (after t n) rs) [
    | inr (m, h) ↦ inr (inr m, h)
    | inl e ↦ elim (dec_le wanted n) [
      | no down ↦ inl (e ∙ low-after_same t n (omega arith))
      | yes up ↦ elim (low-after t n up).2 [
        | inl old ↦ inl (e ∙ old)
        | inr new ↦ inr (inl (ap some (sym (e ∙ new))), omega (arith, e, new, up))
      ]
    ]
  ]

  low-zero :
      (t : Tally) (rs : List (Option ℕ))
      → count (has_serial wanted) rs ≡ 0
      → low t rs ≡ t.low_serial
  unfolding count_results
  low-zero t [] h = refl
  low-zero t (none ∷ rs) h = low-zero t rs h
  low-zero t (some n ∷ rs) h = elim (dec_le wanted n) [
    | yes up ↦ absurd (ground arith)
    | no down ↦ low-zero (after t n) rs (ground arith) ∙ low-after_same t n (omega arith)
  ]

  low-found : (t : Tally) (rs : List (Option ℕ)) → 0 < count (has_serial wanted) rs → 0 < low t rs
  unfolding count_results
  low-found t [] h = absurd (omega arith)
  low-found t (none ∷ rs) h = low-found t rs h
  low-found t (some n ∷ rs) h = elim (dec_le wanted n) [
    | yes up ↦ low-pos (after t n) rs (low-after t n up).0
    | no down ↦ low-found (after t n) rs (ground arith)
  ]

-- What a poll for a zone that is not being deleted finds: how many nameservers serve the wanted
-- serial or a later one, how many lack the zone, and the consensus serial, which is the lowest of
-- the serials that are late enough, and 0 where there is none.
pub record IsPollOf (wanted : ℕ) (rs : List (Option ℕ)) (q : QueryResult) : Type 0 where
  pub positives : q.positives ≡ count (has_serial wanted) rs
  pub no_zones : q.no_zones ≡ count lacks_zone rs
  pub lowest : (n : ℕ) → IsIn (some n) rs → wanted ≤ n → q.consensus_serial ≤ n
  pub attained : 0 < q.positives → IsIn (some q.consensus_serial) rs × (wanted ≤ q.consensus_serial)
  pub none_found : q.positives ≡ 0 → q.consensus_serial ≡ 0
  pub kept : q.results ≡ some rs

tally : ℕ → List (Option ℕ) → QueryResult
tally wanted rs =
    let t = count_results false wanted no_tally rs in
    record {
      positives = t.positives;
      no_zones = t.no_zones;
      consensus_serial = t.low_serial;
      results = some rs;
    }

tally-IsPollOf :
    (wanted : ℕ) (rs : List (Option ℕ)) → 0 < wanted → IsPollOf wanted rs (tally wanted rs)
unfolding tally
tally-IsPollOf wanted rs pos =
    let counts = count_lower wanted no_tally rs pos in
    record {
      positives = omega (arith, counts.0);
      no_zones = omega (arith, counts.1);
      lowest = λ n m h. low-le wanted pos no_tally rs n m h;
      attained = λ h. elim (low-source wanted pos no_tally rs) [
        | inr found ↦ found
        | inl zero_left ↦
            absurd
              (omega (arith, zero_left, low-found wanted pos no_tally rs (omega (arith, counts.0))))
      ];
      none_found = λ h. low-zero wanted pos no_tally rs (omega (arith, counts.0));
      kept = refl;
    }

-- For a zone that is not being deleted and whose serial is not 0, parse_query_results counts the
-- nameservers that serve the wanted serial or a later one and those that lack the zone, and its
-- consensus serial is the lowest of the serials that are late enough, and 0 where there is none.
pub parse_query_results-IsPollOf :
    (results : List (Option ℕ)) (zone : Zone)
    → is_delete zone.action ≡ false
    → 0 < zone.serial
    → IsPollOf zone.serial results (parse_query_results results zone)
unfolding parse_query_results tally
parse_query_results-IsPollOf results zone keep pos =
    rw keep (tally-IsPollOf zone.serial results pos)

count_deleted :
    (wanted : ℕ) (t : Tally) (rs : List (Option ℕ))
    → count_results true wanted t rs ≡ record {
      positives = t.positives + count lacks_zone rs;
      no_zones = t.no_zones + count lacks_zone rs;
      low_serial = t.low_serial;
    }
unfolding count_results
count_deleted wanted t [] = ground arith
count_deleted wanted t (none ∷ rs) = count_deleted wanted t rs
count_deleted wanted t (some n ∷ rs) =
    count_deleted wanted (count_result true wanted t (some n)) rs ∙ ground arith

-- For a zone that is being deleted, a positive answer is that the nameserver lacks the zone, and the
-- consensus serial is 0.
pub parse_query_results_deleted :
    (results : List (Option ℕ)) (zone : Zone)
    → is_delete zone.action ≡ true
    → parse_query_results results zone ≡ record {
      positives = count lacks_zone results;
      no_zones = count lacks_zone results;
      consensus_serial = 0;
      results = some results;
    }
unfolding parse_query_results
parse_query_results_deleted results zone del =
    rw del (rw (count_deleted zone.serial no_tally results) (ground arith))
