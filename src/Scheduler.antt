-- ===== src/Scheduler.antt =====
-- The scheduler, which chooses the pool of a new zone: scheduler/base.py and scheduler/filters.
-- Attribute names, attribute values and ids are numbers: they are only compared. The parameter
-- `as_bool` is bool_from_string, which is the value itself where the value names no Boolean.
pub mod Filters
pub mod Choice
mod Tests
use designate_private.Prelude.{
  ℕ, zero, suc, Bool, true, false, not, ◌&&◌, Option, none, some, List, [], ◌∷◌, ◌==◌, ltb,
  if◌then◌else◌, length,
}
use designate_private.Central.Checks.{
  Refusal, multiple_pools, no_valid_pool, no_filters, forbidden, Checked, passed, refused, ◌>>=◌,
  ◌>>◌, refuse_if,
}

-- `none` where the relation is not loaded.
pub record Pool : Type 0 where
  pub id : ℕ
  pub attributes : Option (List (ℕ × ℕ))

abbrev pub Attributes : Type 0
Attributes = List (ℕ × ℕ)

-- to_dict(), or {} on RelationNotLoaded.
pub to_dict : Option Attributes → Attributes
to_dict none = []
to_dict (some attributes) = attributes

pub get_value : ℕ → Attributes → Option ℕ
get_value key [] = none
get_value key ((k, v) ∷ rest) = let other = get_value key rest in if k == key then some v else other

same_attributes : Attributes → Attributes → Bool
same_attributes [] [] = true
same_attributes [] ((k, v) ∷ rest) = false
same_attributes ((k, v) ∷ rest) [] = false
same_attributes ((k, v) ∷ rest) ((j, w) ∷ more) = (k == j) && (v == w) && same_attributes rest more

-- DesignateObject.__eq__ of pools.
pub same_pool : Pool → Pool → Bool
unfolding same_attributes
same_pool p q = (p.id == q.id) && (elim p.attributes [
  | none ↦ elim q.attributes [ none ↦ true | some b ↦ false ]
  | some a ↦ elim q.attributes [ none ↦ false | some b ↦ same_attributes a b ]
])

is_member : Pool → List Pool → Bool
unfolding same_pool
is_member p [] = false
is_member p (q ∷ qs) = let rest = is_member p qs in if same_pool q p then true else rest

-- Does the pool hold every requested key with the requested value?
module _ (as_bool : ℕ → ℕ) where
  evaluate_pool : Attributes → Attributes → Bool
  unfolding get_value
  evaluate_pool [] pool = true
  evaluate_pool ((key, wanted) ∷ rest) pool =
      let others = evaluate_pool rest pool in
      elim (get_value key pool) [ none ↦ false | some v ↦ (as_bool v == as_bool wanted) && others ]

  -- AttributeFilter.filter
  pub attribute_filter : Attributes → List Pool → List Pool
  unfolding evaluate_pool to_dict
  attribute_filter wanted [] = []
  attribute_filter wanted (p ∷ ps) =
      let rest = attribute_filter wanted ps in
      if evaluate_pool wanted (to_dict p.attributes) then p ∷ rest else rest

-- objects.Pool(id=default_pool_id)
default_pool : ℕ → Pool
default_pool default_id = record { id = default_id; attributes = none }

-- FallbackFilter.filter
fallback_filter : ℕ → List Pool → List Pool
unfolding default_pool
fallback_filter default_id [] = default_pool default_id ∷ []
fallback_filter default_id (p ∷ ps) = p ∷ ps

-- DefaultPoolFilter.filter
default_pool_filter : ℕ → List Pool → List Pool
unfolding default_pool
default_pool_filter default_id pools = default_pool default_id ∷ []

-- InDoubtDefaultPoolFilter.filter; `get_pool` is storage's, `none` when it raises.
in_doubt_default_pool_filter : (ℕ → Option Pool) → ℕ → List Pool → List Pool
unfolding is_member
in_doubt_default_pool_filter get_pool default_id pools =
    if ltb 1 (length pools)
    then (elim (get_pool default_id) [
      | none ↦ pools
      | some pool ↦ if is_member pool pools then pool ∷ [] else pools
    ])
    else pools

-- PoolIDAttributeFilter.filter
pool_id_attribute_filter :
    (ℕ → Option Pool) → (Pool → Bool) → Option ℕ → List Pool → Checked (List Pool)
unfolding is_member
pool_id_attribute_filter get_pool may_force none pools = passed pools
pool_id_attribute_filter get_pool may_force (some id) pools = elim (get_pool id) [
  | none ↦ passed []
  | some pool ↦ do
    refuse_if (not (may_force pool)) forbidden
    passed (if is_member pool pools then pool ∷ [] else pools)
]

nth : ℕ → Pool → List Pool → Pool
nth n p [] = p
nth n p (q ∷ qs) = elim n [ zero ↦ p | suc m ↦ nth m q qs ]

-- RandomFilter.filter, with the index that random.choice draws.
random_filter : ℕ → List Pool → List Pool
unfolding nth
random_filter drawn [] = []
random_filter drawn (p ∷ ps) = nth drawn p ps ∷ []

pub data Filter : Type 0 where
  attribute fallback default_only in_doubt pool_id_attribute : Filter
  random : ℕ → Filter

-- What the filters read: storage, the policy, the configuration and the zone's attributes.
pub record Context : Type 0 where
  pub as_bool : ℕ → ℕ
  pub get_pool : ℕ → Option Pool
  pub may_force : Pool → Bool
  pub default_pool_id : ℕ
  pub wanted : Attributes
  pub wanted_pool_id : Option ℕ

run_filter : Context → Filter → List Pool → Checked (List Pool)
unfolding attribute_filter fallback_filter default_pool_filter in_doubt_default_pool_filter
    pool_id_attribute_filter random_filter
run_filter c attribute pools = passed (attribute_filter c.as_bool c.wanted pools)
run_filter c fallback pools = passed (fallback_filter c.default_pool_id pools)
run_filter c default_only pools = passed (default_pool_filter c.default_pool_id pools)
run_filter c in_doubt pools =
    passed (in_doubt_default_pool_filter c.get_pool c.default_pool_id pools)
run_filter c pool_id_attribute pools =
    pool_id_attribute_filter c.get_pool c.may_force c.wanted_pool_id pools
run_filter c (random drawn) pools = passed (random_filter drawn pools)

-- The loop over the filters.
pub run_filters : Context → List Filter → List Pool → Checked (List Pool)
unfolding run_filter
run_filters c [] pools = passed pools
run_filters c (f ∷ fs) pools = run_filter c f pools >>= λ left. run_filters c fs left

pick : List Pool → Checked ℕ
pick [] = refused no_valid_pool
pick (p ∷ []) = passed p.id
pick _ = refused multiple_pools

-- Scheduler.schedule_zone
pub schedule_zone : Context → List Filter → List Pool → Checked ℕ
unfolding run_filters pick
schedule_zone c [] pools = refused no_filters
schedule_zone c (f ∷ fs) pools = run_filters c (f ∷ fs) pools >>= pick
