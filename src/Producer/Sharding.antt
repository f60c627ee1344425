-- ===== src/Producer/Sharding.antt =====
-- The shards that a periodic task of producer/tasks.py works on: its partitions, as a condition on the
-- zones. Only the first and the last partition are in it. The row of a zone is a parameter.
pub mod Cover
mod Tests
use designate_private.Prelude.{
  ℕ, zero, suc, ◌+◌, Bool, true, false, Option, none, some, List, [], ◌∷◌, ◌++◌, ◌>>=◌,
  if◌then◌else◌,
}
use designate_private.Prelude.Texts.{Text, codes, text_eq}
use designate_private.Prelude.Decimal.{show}
use designate_private.Storage.Criteria.{Plain, Value, one, text, Order, apply_criterion}
use designate_private.Coordination.Partitioner.{Share, ok, err, partition}

-- range(first, first + n)
unfoldable pub range_from : ℕ → ℕ → List ℕ
range_from first zero = []
range_from first (suc n) = first ∷ range_from (suc first) n

-- xs[-1] of x ∷ xs
unfoldable pub last_of : ℕ → List ℕ → ℕ
last_of x [] = x
last_of x (y ∷ ys) = last_of y ys

-- `none` is IndexError.
unfoldable pub my_range : List ℕ → Option (ℕ × ℕ)
unfolding last_of
my_range [] = none
my_range (x ∷ xs) = some (x, last_of x xs)

abbrev pub shard : Text
shard = codes "shard"

unfoldable pub filter_between : Text → List ℕ → Option (List (Text × Value))
unfolding my_range
filter_between col my_partitions = do
  (start, end) ← my_range my_partitions
  some ((col, one (text (codes "BETWEEN " ++ (show start ++ b',' ∷ show end)))) ∷ [])

-- dict.update, one key at a time.
put : Text → Value → List (Text × Value) → List (Text × Value)
put k v [] = (k, v) ∷ []
put k v ((l, w) ∷ rest) =
    let others = put k v rest in if text_eq k l then (k, v) ∷ rest else (l, w) ∷ others

update : List (Text × Value) → List (Text × Value) → List (Text × Value)
unfolding put
update criterion [] = criterion
update criterion ((k, v) ∷ rest) = update (put k v criterion) rest

-- What `_iter_zones` looks for.
unfoldable pub iter_zones_criterion : List (Text × Value) → List ℕ → Option (List (Text × Value))
unfolding update filter_between
iter_zones_criterion criterion my_partitions = do
  between ← filter_between shard my_partitions
  some (update criterion between)

abbrev pub one_if : Option Bool → ℕ
one_if (some true) = 1
one_if _ = 0

module _ (compare_cells : Plain → Plain → Option Order) (is_like : Text → Plain → Bool)
    (row : Text → Plain) where
  -- Whether the task of a member with these partitions sees the zone; `none` is an exception.
  unfoldable pub sees : List ℕ → Option Bool
  unfolding filter_between
  sees my_partitions = do
    criterion ← filter_between shard my_partitions
    apply_criterion compare_cells is_like criterion row

  -- How many members with these shares see the zone in one run of their tasks.
  unfoldable pub visits : List (Share ℕ) → ℕ
  unfolding sees
  visits [] = 0
  visits (err e ∷ shares) = visits shares
  visits (ok my_partitions ∷ shares) = one_if (sees my_partitions) + visits shares
