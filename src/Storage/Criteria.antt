-- ===== src/Storage/Criteria.antt =====
-- _apply_criterion of sqlalchemy/base.py: a service writes a condition on a column as a text, and
-- storage reads it back. The WHERE clause is what it lets through. How the database compares a column
-- with a value, and its LIKE, are parameters.
pub mod Reading
mod Tests
use designate_private.Prelude.{
  ℕ, zero, suc, Bool, true, false, ◌&&◌, ◌||◌, Option, none, some, List, [], ◌∷◌, ◌++◌, ◌==◌, ltb,
  if◌then◌else◌, map, ◌>>=◌,
}
use designate_private.Prelude.Texts.{Text, codes}
use designate_private.Prelude.Words.{contains_code, starts_with, cut, split_on, trim}

-- A value in a column, or one that it is compared with; `null` is None.
pub data Plain : Type 0 where
  null : Plain
  number : ℕ → Plain
  text : Text → Plain

pub data Value : Type 0 where
  one : Plain → Value
  many : List Plain → Value

pub data Condition : Type 0 where
  like different at_most below at_least above : Text → Condition
  between : Text → Text → Condition
  among : List Plain → Condition
  equals : Plain → Condition

abbrev pub percent : ℕ
percent = b'%'

abbrev pub space : ℕ
space = b' '

abbrev pub comma : ℕ
comma = b','

-- value[n:], where the text is so long.
abbrev drop_codes : ℕ → Text → Text
drop_codes zero t = t
drop_codes (suc n) [] = []
drop_codes (suc n) (c ∷ t) = drop_codes n t

-- `elements[0], elements[1]`; `none` is IndexError.
abbrev pub pair_of : List Text → Option Condition
pair_of (a ∷ b ∷ rest) = some (between a b)
pair_of _ = none

-- The branch of a value that starts with BETWEEN.
unfoldable pub read_between : Text → Option Condition
unfolding cut split_on trim
read_between value = do
  (_, rest) ← cut space value
  pair_of (map (trim space) (split_on comma (trim space rest)))

unfoldable pub read_text : Text → Option Condition
unfolding read_between
read_text value =
    if contains_code percent value
    then some (like value)
    else (if starts_with value (codes "!")
        then some (different (drop_codes 1 value))
        else (if starts_with value (codes "<=")
            then some (at_most (drop_codes 2 value))
            else (if starts_with value (codes "<")
                then some (below (drop_codes 1 value))
                else (if starts_with value (codes ">=")
                    then some (at_least (drop_codes 2 value))
                    else (if starts_with value (codes ">")
                        then some (above (drop_codes 1 value))
                        else (if starts_with value (codes "BETWEEN")
                            then read_between value
                            else some (equals (text value))))))))

unfoldable pub read_value : Value → Option Condition
unfolding read_text
read_value (one (text t)) = read_text t
read_value (one null) = some (equals null)
read_value (one (number n)) = some (equals (number n))
read_value (many vs) = some (among vs)

pub data Order : Type 0 where
  less same greater : Order

abbrev pub order_of : ℕ → ℕ → Order
order_of a b = if a == b then same else (if ltb a b then less else greater)

unfoldable pub is_less : Option Order → Bool
is_less (some less) = true
is_less _ = false

unfoldable pub is_same : Option Order → Bool
is_same (some same) = true
is_same _ = false

unfoldable pub is_greater : Option Order → Bool
is_greater (some greater) = true
is_greater _ = false

-- `none` is SQL's NULL.
module _ (compare_cells : Plain → Plain → Option Order) (is_like : Text → Plain → Bool) where
  is_among : Plain → List Plain → Bool
  unfolding is_same
  is_among cell [] = false
  is_among cell (v ∷ vs) = let rest = is_among cell vs in is_same (compare_cells cell v) || rest

  -- `column = value`, or `column IS NULL` for None.
  equals_cell : Plain → Plain → Bool
  unfolding is_same
  equals_cell null null = true
  equals_cell (number n) null = false
  equals_cell (text t) null = false
  equals_cell cell v = is_same (compare_cells cell v)

  abbrev is_at_most : Plain → Text → Bool
  unfolding is_less is_same
  is_at_most cell t = let o = compare_cells cell (text t) in is_less o || is_same o

  abbrev is_at_least : Plain → Text → Bool
  unfolding is_greater is_same
  is_at_least cell t = let o = compare_cells cell (text t) in is_greater o || is_same o

  unfoldable pub lets_through : Condition → Plain → Bool
  unfolding is_less is_same is_greater is_among equals_cell
  lets_through (like p) cell = is_like p cell
  lets_through (different t) cell = let o = compare_cells cell (text t) in is_less o || is_greater o
  lets_through (at_most t) cell = is_at_most cell t
  lets_through (below t) cell = is_less (compare_cells cell (text t))
  lets_through (at_least t) cell = is_at_least cell t
  lets_through (above t) cell = is_greater (compare_cells cell (text t))
  lets_through (between a b) cell = is_at_least cell a && is_at_most cell b
  lets_through (among vs) cell = is_among cell vs
  lets_through (equals v) cell = equals_cell cell v

  -- The rows that the query selects are those that pass every condition; a row is what its columns
  -- hold. `none` is an exception.
  unfoldable pub apply_criterion : List (Text × Value) → (Text → Plain) → Option Bool
  unfolding read_value lets_through
  apply_criterion [] row = some true
  apply_criterion ((column, value) ∷ rest) row = do
    condition ← read_value value
    others ← apply_criterion rest row
    some (lets_through condition (row column) && others)
