-- ===== src/Utils/Serials.antt =====
-- How the serial of a zone grows.
use designate_private.Prelude.{ℕ, suc, ◌+◌, ◌≤◌, ◌<◌, List, [], ◌∷◌, length, All, arith}
use designate_private.Utils.{increment_serial, increment_all}

increment_serial-step : (now serial : ℕ) → serial < increment_serial now serial
unfolding increment_serial
increment_serial-step now serial = ground arith

increment_serial-bound :
    (now serial top : ℕ) → now ≤ top → serial ≤ top → increment_serial now serial ≤ suc top
unfolding increment_serial
increment_serial-bound now serial top h k = ground arith

All-weaken :
    (times : List ℕ) (top : ℕ) → All (λ now. now ≤ top) times → All (λ now. now ≤ suc top) times
All-weaken [] top h = tt
All-weaken (now ∷ later) top (h, hs) = (omega arith, All-weaken later top hs)

grows : (times : List ℕ) (serial : ℕ) → serial + length times ≤ increment_all times serial
unfolding increment_all
grows [] serial = omega arith
grows (now ∷ later) serial =
    omega (arith, grows later (increment_serial now serial), increment_serial-step now serial)

stays :
    (times : List ℕ) (serial top : ℕ)
    → All (λ now. now ≤ top) times
    → serial ≤ top
    → increment_all times serial ≤ top + length times
unfolding increment_all
stays [] serial top h k = omega arith
stays (now ∷ later) serial top (h, hs) k = omega (
  arith,
  stays later (increment_serial now serial) (suc top) (All-weaken later top hs)
      (increment_serial-bound now serial top h k),
)

-- A serial that is incremented at times up to a bound, itself up to it, grows by one at least each
-- time and runs ahead of the bound by the number of increments at most.
pub increment_all-bounds :
    (times : List ℕ) (serial top : ℕ)
    → All (λ now. now ≤ top) times
    → serial ≤ top
    → (serial + length times ≤ increment_all times serial)
      × (increment_all times serial ≤ top + length times)
increment_all-bounds times serial top h k = (grows times serial, stays times serial top h k)
