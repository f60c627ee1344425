-- ===== src/Producer/Sharding/Cover.antt =====
-- A zone is seen by the task of one member.
use mathlib.Core.Path.{subst}
use designate_private.Prelude.{
  ℕ, zero, suc, ◌+◌, ◌≡◌, refl, ap, sym, ◌∙◌, Bool, true, false, ◌&&◌, ◌||◌, Option, some, List, [],
  ◌∷◌, ◌++◌, ◌>>=◌, map, ltb, leb, if◌then◌else◌, arith, AreDistinct, length, length-append,
}
use designate_private.Prelude.Texts.{Text}
use designate_private.Prelude.Decimal.{show}
use designate_private.Storage.Criteria.{
  Plain, Value, number, text, Order, order_of, one, between, apply_criterion, lets_through, is_less,
  is_same, is_greater,
}
use designate_private.Storage.Criteria.Reading.{
  read_value-write_value, write_between, IsSimple-show,
}
use designate_private.Coordination.Partitioner.{Share, ok, partition}
use designate_private.Coordination.Partitioner.Cover.{joined, joined-cons, joined-partition}
use designate_private.Producer.Sharding.{
  range_from, last_of, my_range, filter_between, shard, sees, one_if, visits,
}

-- Numbers one after the other, from `first` on.
abbrev IsRun : ℕ → List ℕ → Type 0
IsRun first [] = Unit
IsRun first (x ∷ xs) = (x ≡ first) × IsRun (suc first) xs

IsRun-range_from : (first n : ℕ) → IsRun first (range_from first n)
unfolding range_from
IsRun-range_from first zero = tt
IsRun-range_from first (suc n) = (refl, IsRun-range_from (suc first) n)

length-range_from : (first n : ℕ) → length (range_from first n) ≡ n
unfolding range_from
length-range_from first zero = refl
length-range_from first (suc n) = ap suc (length-range_from (suc first) n)

IsRun-append :
    (first : ℕ) (xs ys : List ℕ)
    → IsRun first (xs ++ ys)
    → IsRun first xs × IsRun (first + length xs) ys
IsRun-append first [] ys h = (tt, subst (λ k. IsRun k ys) (omega arith) h)
IsRun-append first (x ∷ xs) ys h =
    let rest = IsRun-append (suc first) xs ys h.1 in
    ((h.0, rest.0), subst (λ k. IsRun k ys) (omega arith) rest.1)

last_of_run :
    (first : ℕ) (x : ℕ) (xs : List ℕ) → IsRun first (x ∷ xs) → last_of x xs ≡ first + length xs
unfolding last_of
last_of_run first x [] h = omega (arith, h.0)
last_of_run first x (y ∷ ys) h = omega (arith, last_of_run (suc first) y ys h.1)

-- One if the run of `n` numbers from `first` on has it.
abbrev one_in : ℕ → ℕ → ℕ → ℕ
one_in first n s = if leb first s && ltb s (first + n) then 1 else 0

at_least_order :
    (s first : ℕ)
    → (is_greater (some (order_of s first)) || is_same (some (order_of s first))) ≡ leb first s
unfolding is_greater is_same
at_least_order s first = ground arith

at_most_order :
    (s last : ℕ)
    → (is_less (some (order_of s last)) || is_same (some (order_of s last))) ≡ leb s last
unfolding is_less is_same
at_most_order s last = ground arith

both_passed : (b c : Bool) → ((b && c) && true) ≡ (b && c)
both_passed true true = refl
both_passed true false = refl
both_passed false c = refl

one_in_cons :
    (x n first s : ℕ)
    → x ≡ first
    → one_if (some (leb x s && ltb s (first + suc n))) ≡ one_in first (suc n) s
one_in_cons x n first s e = ground arith

one_in_append :
    (first a b s : ℕ) → one_in first a s + one_in (first + a) b s ≡ one_in first (a + b) s
one_in_append first a b s = ground arith

module _ (compare_cells : Plain → Plain → Option Order) (is_like : Text → Plain → Bool)
    (row : Text → Plain) (s : ℕ)
    (compares : (a b : ℕ) → compare_cells (number a) (text (show b)) ≡ some (order_of a b))
    (is_shard : row shard ≡ number s) where
  -- BETWEEN on the shard comes down to comparing numbers.
  pub criterion_between :
      (first last : ℕ) (rest : List (Text × Value))
      → apply_criterion compare_cells is_like
          ((shard, one (text (write_between (show first) (show last)))) ∷ rest)
          row
        ≡ (apply_criterion compare_cells is_like rest row >>= λ others.
            some ((leb first s && leb s last) && others))
  unfolding apply_criterion lets_through
  criterion_between first last rest =
      rw
        (
          read_value-write_value (between (show first) (show last))
              (IsSimple-show first, IsSimple-show last),
          is_shard,
          compares s first,
          compares s last,
          at_least_order s first,
          at_most_order s last,
        )
        refl

  sees_run :
      (first : ℕ) (xs : List ℕ)
      → IsRun first xs
      → one_if (sees compare_cells is_like row xs) ≡ one_in first (length xs) s
  unfolding sees filter_between my_range apply_criterion
  sees_run first [] h = ground arith
  sees_run first (x ∷ xs) h =
      rw
        (
          last_of_run first x xs h,
          criterion_between x (first + length xs) [],
          both_passed (leb x s) (leb s (first + length xs)),
        )
        (ground (arith, h.0))

  visits_run :
      (ss : List (Share ℕ)) (first : ℕ) (xs : List ℕ)
      → joined ss ≡ ok xs
      → IsRun first xs
      → visits compare_cells is_like row ss ≡ one_in first (length xs) s
  unfolding visits joined
  visits_run [] first [] e h = ground arith
  visits_run [] first (x ∷ xs) e h = absurd cc
  visits_run (share ∷ ss) first xs e h =
      let (a, b, i, j, k) = joined-cons share ss xs e in
      let parts = IsRun-append first a b (subst (λ ys. IsRun first ys) k h) in
      rw (i) (
        ap (λ n. n + visits compare_cells is_like row ss) (sees_run first a parts.0)
        ∙ ap (λ n. one_in first (length a) s + n) (visits_run ss (first + length a) b j parts.1)
        ∙ one_in_append first (length a) (length b) s
        ∙ ap (λ n. one_in first n s) (sym (ap length k ∙ length-append a b)))

-- The partitions are the numbers below `n`, the members are distinct, and the database compares a
-- number in the shard column with the text of a number as numbers. Then a zone whose shard is below
-- `n` is seen by the tasks of exactly one member, and any other zone by those of none.
pub visits-partition :
    (compare_cells : Plain → Plain → Option Order) (is_like : Text → Plain → Bool)
    (row : Text → Plain) (s : ℕ) (m : ℕ) (ms : List ℕ) (n : ℕ)
    → ((a b : ℕ) → compare_cells (number a) (text (show b)) ≡ some (order_of a b))
    → row shard ≡ number s
    → AreDistinct (m ∷ ms)
    → visits compare_cells is_like row (map (λ me. partition (m ∷ ms) me (range_from 0 n)) (m ∷ ms))
      ≡ (if ltb s n then 1 else 0)
visits-partition compare_cells is_like row s m ms n compares is_shard h =
    visits_run compare_cells is_like row s compares is_shard
      (map (λ me. partition (m ∷ ms) me (range_from 0 n)) (m ∷ ms)) 0 (range_from 0 n)
      (joined-partition m ms (range_from 0 n) h) (IsRun-range_from 0 n)
    ∙ ap (λ k. one_in 0 k s) (length-range_from 0 n)
    ∙ ground arith
