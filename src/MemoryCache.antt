-- ===== src/MemoryCache.antt =====
-- common/memorycache.py: the in-process stand-in for a memcached client. The dict is a function from
-- keys to entries, each a timeout (0: never expires) and a value. `now` is `timeutils.utcnow_ts()`.
mod Tests
pub mod Expiry
use designate_private.Prelude.{
  ℕ, zero, ◌+◌, Bool, true, false, not, ◌&&◌, Option, none, some, ◌==◌, leb, if◌then◌else◌,
}

-- The outcomes of `incr`: None, an exception, or the new value.
pub data Incremented : Type 0 where
  missing value_error : Incremented
  new_value : ℕ → Incremented

abbrev pub Cache {ℓ} : Type ℓ → Type ℓ
Cache V = ℕ → Option (ℕ × V)

-- `timeout and now >= timeout`
is_expired : ℕ → ℕ → Bool
is_expired now timeout = not (timeout == 0) && leb timeout now

module _ {ℓ} {V : Type ℓ} where
  abbrev pub empty : Cache V
  empty k = none

  expunge_entry : ℕ → Option (ℕ × V) → Option (ℕ × V)
  unfolding is_expired
  expunge_entry now none = none
  expunge_entry now (some (timeout, value)) =
      if is_expired now timeout then none else some (timeout, value)

  -- The loop of `get`: every expired key is deleted.
  expunge : ℕ → Cache V → Cache V
  unfolding expunge_entry
  expunge now cache k = expunge_entry now (cache k)

  value_of : Option (ℕ × V) → Option V
  value_of none = none
  value_of (some (timeout, value)) = some value

  store : ℕ → ℕ × V → Cache V → Cache V
  store key entry cache k = if k == key then some entry else cache k

  pub get : ℕ → ℕ → Cache V → Option V × Cache V
  unfolding expunge value_of
  get now key cache = let cache' = expunge now cache in (value_of (cache' key), cache')

  pub set : ℕ → ℕ → V → ℕ → Cache V → Bool × Cache V
  unfolding store
  set now key value time cache =
      let timeout : ℕ = if time == 0 then 0 else now + time in
      (true, store key (timeout, value) cache)

  pub add : ℕ → ℕ → V → ℕ → Cache V → Bool × Cache V
  unfolding get set
  add now key value time cache =
      let (found, cache') = get now key cache in
      elim found [ some _ ↦ (false, cache') | none ↦ set now key value time cache' ]

  pub delete : ℕ → Cache V → Cache V
  delete key cache k = if k == key then none else cache k

  -- `int` and `str` are Python's conversions; `int` raises ValueError on what is no number.
  incr_entry : (V → Option ℕ) → (ℕ → V) → ℕ → ℕ → Option (ℕ × V) → Cache V → Incremented × Cache V
  unfolding store
  incr_entry int str key delta none cache = (missing, cache)
  incr_entry int str key delta (some (timeout, value)) cache = elim (int value) [
    | none ↦ (value_error, cache)
    | some n ↦ (new_value (n + delta), store key (timeout, str (n + delta)) cache)
  ]

  pub incr : (V → Option ℕ) → (ℕ → V) → ℕ → ℕ → ℕ → Cache V → Incremented × Cache V
  unfolding incr_entry expunge
  incr int str now key delta cache =
      let cache' = expunge now cache in incr_entry int str key delta (cache' key) cache'
