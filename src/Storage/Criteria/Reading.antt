-- ===== src/Storage/Criteria/Reading.antt =====
-- What a condition is written as, and that storage reads the same condition back.
use designate_private.Prelude.{
  ℕ, ◌≡◌, ◌∙◌, refl, Bool, true, false, Option, some, List, ◌∷◌, ◌++◌, ◌>>=◌, ◌&&◌, arith,
}
use designate_private.Prelude.Texts.{Text, codes}
use designate_private.Prelude.Decimal.{show, show-IsFree}
use designate_private.Prelude.Words.{
  contains_code, contains_code-append, contains_code_free, starts_with, split_on-append,
  split_on_free, trim_free, trim_between, IsFree,
}
use designate_private.Storage.Criteria.{
  Plain, null, number, text, Value, one, many, Condition, like, different, at_most, below, at_least,
  above, between, among, equals, percent, space, comma, Order, lets_through, apply_criterion,
  read_value, read_text, read_between,
}

abbrev pub write_between : Text → Text → Text
write_between a b = codes "BETWEEN " ++ (a ++ comma ∷ b)

-- The text of a condition, "<=%s" and the like.
abbrev pub write_value : Condition → Value
write_value (like p) = one (text p)
write_value (different t) = one (text (codes "!" ++ t))
write_value (at_most t) = one (text (codes "<=" ++ t))
write_value (below t) = one (text (codes "<" ++ t))
write_value (at_least t) = one (text (codes ">=" ++ t))
write_value (above t) = one (text (codes ">" ++ t))
write_value (between a b) = one (text (write_between a b))
write_value (among vs) = many vs
write_value (equals v) = one v

-- A text that no operator starts.
abbrev IsUnmarked : Text → Type 0
IsUnmarked t =
    (starts_with t (codes "!") ≡ false)
    × (starts_with t (codes "<") ≡ false)
    × (starts_with t (codes ">") ≡ false)
    × (starts_with t (codes "BETWEEN") ≡ false)

abbrev pub IsSimple : Text → Type 0
IsSimple t = IsFree percent t × IsFree space t × IsFree comma t

-- The conditions that a text can stand for.
abbrev pub IsWritable : Condition → Type 0
IsWritable (like p) = contains_code percent p ≡ true
IsWritable (different t) = IsFree percent t
IsWritable (at_most t) = IsFree percent t
IsWritable (below t) = IsFree percent t × (starts_with t (codes "=") ≡ false)
IsWritable (at_least t) = IsFree percent t
IsWritable (above t) = IsFree percent t × (starts_with t (codes "=") ≡ false)
IsWritable (between a b) = IsSimple a × IsSimple b
IsWritable (among vs) = Unit
IsWritable (equals null) = Unit
IsWritable (equals (number n)) = Unit
IsWritable (equals (text t)) = IsFree percent t × IsUnmarked t

pub IsSimple-show : (n : ℕ) → IsSimple (show n)
IsSimple-show n = (
  show-IsFree percent n (omega arith),
  show-IsFree space n (omega arith),
  show-IsFree comma n (omega arith),
)

between_free :
    (a b : Text) → IsSimple a → IsSimple b → contains_code percent (write_between a b) ≡ false
between_free a b h k =
    contains_code-append percent a (comma ∷ b)
    ∙ rw (contains_code_free percent a h.0) (contains_code_free percent b k.0)

read_between-write :
    (a b : Text) → IsSimple a → IsSimple b → read_between (write_between a b) ≡ some (between a b)
unfolding read_between
read_between-write a b h k =
    rw
      (
        trim_between space comma a b h.1 k.1 (λ e. omega arith),
        split_on-append comma a b h.2,
        split_on_free comma b k.2,
        trim_free space a h.1,
        trim_free space b k.1,
      )
      refl

below_equal : (t : Text) → starts_with t (codes "<") ≡ false → starts_with t (codes "<=") ≡ false
below_equal t h = ground arith

above_equal : (t : Text) → starts_with t (codes ">") ≡ false → starts_with t (codes ">=") ≡ false
above_equal t h = ground arith

-- Storage reads back the condition that a service wrote, under these conditions: a text has no '%'
-- where the condition is not a LIKE; the text of `<` and `>` does not start with '='; the ends of
-- BETWEEN have no space and no comma; and a plain text starts with no operator.
pub read_value-write_value : (c : Condition) → IsWritable c → read_value (write_value c) ≡ some c
unfolding read_value read_text
read_value-write_value (like p) h = rw h refl
read_value-write_value (different t) h = rw (contains_code_free percent t h) refl
read_value-write_value (at_most t) h = rw (contains_code_free percent t h) refl
read_value-write_value (below t) h = rw (contains_code_free percent t (h.0), h.1) refl
read_value-write_value (at_least t) h = rw (contains_code_free percent t h) refl
read_value-write_value (above t) h = rw (contains_code_free percent t (h.0), h.1) refl
read_value-write_value (between a b) h =
    rw (between_free a b h.0 h.1) (read_between-write a b h.0 h.1)
read_value-write_value (among vs) h = refl
read_value-write_value (equals null) h = refl
read_value-write_value (equals (number n)) h = refl
read_value-write_value (equals (text t)) h =
    rw
      (
        contains_code_free percent t (h.0),
        h.1.0,
        below_equal t h.1.1,
        h.1.1,
        above_equal t h.1.2,
        h.1.2,
        h.1.3,
      )
      refl

-- A written condition, on a column, and further conditions.
pub apply_criterion-cons :
    (compare_cells : Plain → Plain → Option Order) (is_like : Text → Plain → Bool)
    (row : Text → Plain) (column : Text) (c : Condition) (rest : List (Text × Value))
    → IsWritable c
    → apply_criterion compare_cells is_like ((column, write_value c) ∷ rest) row ≡ (
        apply_criterion compare_cells is_like rest row >>= λ others.
        some (lets_through compare_cells is_like c (row column) && others))
unfolding apply_criterion
apply_criterion-cons compare_cells is_like row column c rest h =
    rw (read_value-write_value c h) refl
