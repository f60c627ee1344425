-- ===== src/Producer/Tasks/Tests.antt =====
-- Rows for the purge, two secondary zones, one of them due.
use designate_private.Prelude.{
  ℕ, ◌≡◌, refl, Bool, true, false, Option, some, none, [], ◌∷◌, arith, ap, ◌≤◌, ◌≢◌, ◌⊎◌,
  if◌then◌else◌,
}
use designate_private.Prelude.Texts.{Text, codes, text_eq}
use designate_private.Prelude.Decimal.{show, digits, read_after, read_number, read_number-show}
use designate_private.Prelude.Words.{cut, split_on, trim, trim_left, trim_right}
use designate_private.Storage.Criteria.{
  Plain, number, text, one, Order, less, same, order_of, apply_criterion, lets_through, read_value,
  read_text, read_between, is_less, is_same, is_greater,
}
use designate_private.Producer.Sharding.{my_range, last_of, filter_between}
use designate_private.Producer.Tasks.{Zone, xfr_zone, Criterion, purge_criterion, refresh_of}
use designate_private.Producer.Tasks.Purge.{purge_criterion-safe}

abbrev due_zone : Zone
due_zone = record { id = 1; transferred_at = some 100; refresh = 50; delayed_notify = false }

abbrev new_zone : Zone
new_zone = record { id = 2; transferred_at = none; refresh = 50; delayed_notify = false }

-- A column of texts is compared as a whole, a column of numbers as numbers.
abbrev compare_whole : Plain → Plain → Option Order
compare_whole (number a) (text t) = some (order_of a (read_number t))
compare_whole (text u) (text t) = some (if text_eq u t then same else less)
compare_whole _ _ = none

abbrev compares_whole : (a b : ℕ) → compare_whole (number a) (text (show b)) ≡ some (order_of a b)
compares_whole a b = ap (λ k. some (order_of a k)) (read_number-show b)

abbrev old_zone : Text → Plain
old_zone column = if text_eq column (codes "shard") then number 4 else text (codes "2015")

abbrev no_like : Text → Plain → Bool
no_like t cell = false

abbrev year : ℕ → Text
year t = codes "2016"

abbrev purged : Criterion
purged =
    (codes "shard", one (text (codes "BETWEEN 3,4")))
    ∷ (codes "deleted", one (text (codes "!0")))
    ∷ (codes "deleted_at", one (text (codes "<=2016")))
    ∷ []

purged_test : purge_criterion year 7 (3 ∷ 4 ∷ []) ≡ some purged
unfolding purge_criterion filter_between my_range last_of show digits
purged_test = refl

old_zone_test : apply_criterion compare_whole no_like purged old_zone ≡ some true
unfolding apply_criterion lets_through read_value read_text read_between is_less is_same is_greater
    cut split_on trim trim_left trim_right read_number read_after
old_zone_test = refl

purge_criterion-safe_example :
    (3 ≤ 4)
    × (4 ≤ 4)
    × (compare_whole (old_zone (codes "deleted")) (text (codes "0")) ≢ some same)
    × ((compare_whole (old_zone (codes "deleted_at")) (text (codes "2016")) ≡ some less)
        ⊎ (compare_whole (old_zone (codes "deleted_at")) (text (codes "2016")) ≡ some same))
unfolding last_of
purge_criterion-safe_example =
    purge_criterion-safe compare_whole no_like old_zone 4 year 7 3 (4 ∷ []) purged compares_whole
      ((λ e. omega arith), ((λ e. omega arith), ((λ e. omega arith), ((λ e. omega arith), tt))))
      refl purged_test old_zone_test

-- A clock that stands at 200; a text of a time is its number.
refreshed_test :
    refresh_of (λ t. some t) (λ n. 200) 0 (new_zone ∷ due_zone ∷ []) ≡ (xfr_zone 1 ∷ [], true)
unfolding refresh_of
refreshed_test = refl

-- Where the time is not read, the run ends with the exception at the first zone that has one.
not_read_test :
    refresh_of (λ t. none) (λ n. 200) 0 (new_zone ∷ due_zone ∷ new_zone ∷ []) ≡ ([], false)
unfolding refresh_of
not_read_test = refl
