-- ===== src/Prelude/Decimal.antt =====
-- "%s" % n and int(s) on the numbers from 0 on: the decimal digits.
use native.Mathlib.Nat.{div-add-mod}
use designate_private.Prelude.{
  ℕ, zero, suc, ◌+◌, ◌-◌, ◌*◌, ◌/◌, ◌%◌, ◌≤◌, ◌<◌, ◌≡◌, ap, ◌∙◌, ◌≢◌, inl, inr, Bool-cases, [], ◌∷◌,
  ltb, if◌then◌else◌, arith,
}
use designate_private.Prelude.Texts.{Text}
use designate_private.Prelude.Words.{IsFree}

abbrev digit : ℕ → ℕ
digit n = b'0' + n % 10

-- The digits of n before `acc`; n has no more than `fuel` of them.
unfoldable pub digits : ℕ → ℕ → Text → Text
digits zero n acc = acc
digits (suc fuel) n acc =
    let rest = digits fuel (n / 10) (digit n ∷ acc) in if ltb n 10 then digit n ∷ acc else rest

unfoldable pub show : ℕ → Text
unfolding digits
show n = digits (suc n) n []

-- int(s), for a text of digits.
unfoldable pub read_after : ℕ → Text → ℕ
read_after v [] = v
read_after v (c ∷ t) = read_after (10 * v + (c - b'0')) t

unfoldable pub read_number : Text → ℕ
unfolding read_after
read_number t = read_after 0 t

small_digit : (n : ℕ) → n < 10 → n % 10 ≡ n
small_digit n h = omega (arith, div-add-mod n 10)

quotient_less : (n fuel : ℕ) → 10 ≤ n → n < suc fuel → n / 10 < fuel
quotient_less n fuel h k = omega (arith, div-add-mod n 10)

last_digit : (n : ℕ) → 10 * (n / 10) + (digit n - b'0') ≡ n
last_digit n = omega (arith, div-add-mod n 10)

digit_free : (c n : ℕ) → c < b'0' → digit n ≢ c
digit_free c n h e = omega arith

read_after-digits :
    (fuel n : ℕ) (acc : Text) → n < fuel → read_after 0 (digits fuel n acc) ≡ read_after n acc
unfolding digits read_after
read_after-digits zero n acc h = absurd (omega arith)
read_after-digits (suc fuel) n acc h = elim (Bool-cases (ltb n 10)) [
  | inl e ↦ rw e (
      ap (λ v. read_after v acc)
        (ap (λ d. 10 * 0 + (b'0' + d - b'0')) (small_digit n (ground arith)) ∙ omega arith))
  | inr e ↦ rw e (
      read_after-digits fuel (n / 10) (digit n ∷ acc) (quotient_less n fuel (ground arith) h)
      ∙ ap (λ v. read_after v acc) (last_digit n))
]

-- A number that is written and read is the same number.
pub read_number-show : (n : ℕ) → read_number (show n) ≡ n
unfolding read_number show read_after
read_number-show n = read_after-digits (suc n) n [] (omega arith)

digits-IsFree : (c fuel n : ℕ) (acc : Text) → c < b'0' → IsFree c acc → IsFree c (digits fuel n acc)
unfolding digits
digits-IsFree c zero n acc h k = k
digits-IsFree c (suc fuel) n acc h k = elim (Bool-cases (ltb n 10)) [
  | inl e ↦ rw e (digit_free c n h, k)
  | inr e ↦ rw e (digits-IsFree c fuel (n / 10) (digit n ∷ acc) h (digit_free c n h, k))
]

-- What stands before '0' is in no number.
pub show-IsFree : (c n : ℕ) → c < b'0' → IsFree c (show n)
unfolding show
show-IsFree c n h = digits-IsFree c (suc n) n [] h tt
