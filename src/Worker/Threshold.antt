-- ===== src/Worker/Threshold.antt =====
-- `percentage` and ThresholdMixin of worker/tasks/zone.py. The comparison of
-- `100 * float(part) / float(whole)` with an integral threshold is done on whole numbers: rounding
-- keeps the order, and for counts below 2 ** 46 no quotient below the threshold is rounded up to it.
use designate_private.Prelude.{ℕ, ◌*◌, ◌≤◌, ◌≡◌, Bool, true, ◌==◌, leb, if◌then◌else◌, arith}

-- percentage(successes, total) >= threshold; the percentage of nothing is 0.
unfoldable pub compare_threshold : ℕ → ℕ → ℕ → Bool
compare_threshold threshold successes total =
    if total == 0 then leb threshold 0 else leb (threshold * total) (100 * successes)

pub compare_threshold_mono :
    (threshold successes successes' total : ℕ)
    → successes ≤ successes'
    → compare_threshold threshold successes total ≡ true
    → compare_threshold threshold successes' total ≡ true
unfolding compare_threshold
compare_threshold_mono threshold successes successes' total h m = ground arith
