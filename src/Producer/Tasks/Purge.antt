-- ===== src/Producer/Tasks/Purge.antt =====
-- The zones that the purge task's criterion lets through.
use designate_private.Prelude.{
  ℕ, ◌≡◌, ◌≢◌, ◌⊎◌, inl, inr, refl, ap, sym, ◌∙◌, Bool, true, false, ◌&&◌, ◌||◌, Option, none, some,
  List, [], ◌∷◌, ◌++◌, ◌>>=◌, leb, ◌≤◌, arith,
}
use designate_private.Prelude.Texts.{Text, codes}
use designate_private.Prelude.Decimal.{show}
use designate_private.Prelude.Words.{IsFree}
use designate_private.Storage.Criteria.{
  Plain, number, text, one, Order, less, same, greater, order_of, different, at_most, percent,
  apply_criterion, lets_through, is_less, is_same, is_greater,
}
use designate_private.Storage.Criteria.Reading.{apply_criterion-cons}
use designate_private.Producer.Sharding.{my_range, last_of, filter_between, shard}
use designate_private.Producer.Sharding.Cover.{criterion_between}
use designate_private.Producer.Tasks.{Criterion, purge_criterion}

unequal : (o : Option Order) → (is_less o || is_greater o) ≡ true → o ≢ some same
unfolding is_less is_greater
unequal none h e = cc
unequal (some less) h e = cc
unequal (some same) h e = cc
unequal (some greater) h e = cc

not_above : (o : Option Order) → (is_less o || is_same o) ≡ true → (o ≡ some less) ⊎ (o ≡ some same)
unfolding is_less is_same
not_above none h = absurd cc
not_above (some less) h = inl refl
not_above (some same) h = inr refl
not_above (some greater) h = absurd cc

some-true : (b : Bool) → some b ≡ some true → b ≡ true
some-true b h = cc

and_true : (b c : Bool) → (b && c) ≡ true → (b ≡ true) × (c ≡ true)
and_true true c h = (refl, h)
and_true false c h = absurd cc

module _ (compare_cells : Plain → Plain → Option Order) (is_like : Text → Plain → Bool)
    (row : Text → Plain) (s : ℕ) (text_of_time : ℕ → Text) (threshold x : ℕ) (xs : List ℕ)
    (compares : (a b : ℕ) → compare_cells (number a) (text (show b)) ≡ some (order_of a b))
    (free : IsFree percent (text_of_time threshold)) (is_shard : row shard ≡ number s) where
  abbrev deleted_order : Option Order
  deleted_order = compare_cells (row (codes "deleted")) (text (codes "0"))

  abbrev deleted_at_order : Option Order
  deleted_at_order = compare_cells (row (codes "deleted_at")) (text (text_of_time threshold))

  purge_row :
      (purge_criterion text_of_time threshold (x ∷ xs) >>= λ c.
      apply_criterion compare_cells is_like c row)
      ≡ some (
          (leb x s && leb s (last_of x xs))
          && ((is_less deleted_order || is_greater deleted_order)
              && ((is_less deleted_at_order || is_same deleted_at_order) && true)))
  unfolding purge_criterion filter_between my_range apply_criterion lets_through
  purge_row =
      criterion_between compare_cells is_like row s compares is_shard x (last_of x xs) (
        (codes "deleted", one (text (codes "!0")))
        ∷ (codes "deleted_at", one (text (codes "<=" ++ text_of_time threshold)))
        ∷ [])
      ∙ rw
          (
            apply_criterion-cons compare_cells is_like row (codes "deleted") (different (codes "0"))
                ((codes "deleted_at", one (text (codes "<=" ++ text_of_time threshold))) ∷ [])
                ((λ e. omega arith), tt),
            apply_criterion-cons compare_cells is_like row (codes "deleted_at")
                (at_most (text_of_time threshold)) [] free,
          )
          refl

  conditions :
      (criterion : Criterion)
      → purge_criterion text_of_time threshold (x ∷ xs) ≡ some criterion
      → apply_criterion compare_cells is_like criterion row ≡ some true
      → ((leb x s && leb s (last_of x xs)) ≡ true)
        × ((is_less deleted_order || is_greater deleted_order) ≡ true)
        × ((is_less deleted_at_order || is_same deleted_at_order) ≡ true)
  conditions criterion e passed =
      let whole =
        sym purge_row
        ∙ ap (λ o. o >>= λ c. apply_criterion compare_cells is_like c row) e
        ∙ passed in
      let (range, rest) = and_true _ _ (some-true _ whole) in
      let (marked, rest) = and_true _ _ rest in (range, marked, (and_true _ _ rest).0)

-- A row that the purge task's criterion lets through is in the shards from the member's first to its
-- last, its `deleted` is not the text "0" and its `deleted_at` is at the threshold or before it. The
-- text of a time has no '%', and the database compares numbers with their texts as numbers.
pub purge_criterion-safe :
    (compare_cells : Plain → Plain → Option Order) (is_like : Text → Plain → Bool)
    (row : Text → Plain) (s : ℕ) (text_of_time : ℕ → Text) (threshold x : ℕ) (xs : List ℕ)
    (criterion : Criterion)
    → ((a b : ℕ) → compare_cells (number a) (text (show b)) ≡ some (order_of a b))
    → IsFree percent (text_of_time threshold)
    → row shard ≡ number s
    → purge_criterion text_of_time threshold (x ∷ xs) ≡ some criterion
    → apply_criterion compare_cells is_like criterion row ≡ some true
    → (x ≤ s)
      × (s ≤ last_of x xs)
      × (compare_cells (row (codes "deleted")) (text (codes "0")) ≢ some same)
      × ((compare_cells (row (codes "deleted_at")) (text (text_of_time threshold)) ≡ some less)
          ⊎ (compare_cells (row (codes "deleted_at")) (text (text_of_time threshold)) ≡ some same))
unfolding purge_criterion filter_between my_range apply_criterion lets_through
purge_criterion-safe compare_cells is_like row s text_of_time threshold x xs criterion compares free
      is_shard e passed =
    let (range, marked, in_time) =
      conditions compare_cells is_like row s text_of_time threshold x xs compares free is_shard
        criterion e passed in
    let (first, last) = and_true (leb x s) (leb s (last_of x xs)) range in
    (ground arith, ground arith, unequal _ marked, not_above _ in_time)
