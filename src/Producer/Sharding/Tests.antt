-- ===== src/Producer/Sharding/Tests.antt =====
-- Two members that share five partitions.
use designate_private.Prelude.{
  ℕ, ◌≡◌, refl, ap, Bool, false, Option, some, none, [], ◌∷◌, map, arith,
}
use designate_private.Prelude.Texts.{Text, codes}
use designate_private.Prelude.Decimal.{show, read_number, read_number-show}
use designate_private.Storage.Criteria.{Plain, number, text, one, Order, order_of}
use designate_private.Coordination.Partitioner.{partition}
use designate_private.Producer.Sharding.{range_from, my_range, filter_between, shard, visits}
use designate_private.Producer.Sharding.Cover.{visits-partition}

abbrev compare_numbers : Plain → Plain → Option Order
compare_numbers (number a) (text t) = some (order_of a (read_number t))
compare_numbers _ _ = none

compares_numbers : (a b : ℕ) → compare_numbers (number a) (text (show b)) ≡ some (order_of a b)
compares_numbers a b = ap (λ k. some (order_of a k)) (read_number-show b)

abbrev no_like : Text → Plain → Bool
no_like t cell = false

abbrev third : Text → Plain
third column = number 3

visits-partition_example :
    visits compare_numbers no_like third
      (map (λ me. partition (1 ∷ 2 ∷ []) me (range_from 0 5)) (1 ∷ 2 ∷ []))
    ≡ 1
visits-partition_example =
    visits-partition compare_numbers no_like third 3 1 (2 ∷ []) 5 compares_numbers refl
      ((((λ e. omega arith)), tt), (tt, tt))

filter_between_test :
    filter_between shard (7 ∷ 8 ∷ 12 ∷ [])
    ≡ some ((codes "shard", one (text (codes "BETWEEN 7,12"))) ∷ [])
unfolding filter_between my_range show
filter_between_test = refl

-- A member without a share: IndexError.
no_share_test : filter_between shard [] ≡ none
unfolding filter_between my_range
no_share_test = refl
