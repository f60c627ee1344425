-- ===== src/MemoryCache/Expiry.antt =====
-- When a value is there, and that the lazy deletion of expired keys cannot be seen.
use mathlib.Core.Option
use designate_private.Prelude.{
  ℕ, ◌+◌, ◌≤◌, ◌≡◌, refl, true, false, Option, none, some, arith, ◌==◌, ltb, if◌then◌else◌,
}
use designate_private.MemoryCache.{
  Cache, expunge_entry, value_of, get, set, add, delete, incr, new_value,
}

module _ {V : Type 0} where
  -- What a client that asks at the time `now` sees under a key.
  abbrev pub view : ℕ → Cache V → ℕ → Option V
  view now cache key = (get now key cache).0

  -- A value is set for `time` seconds, or for ever when `time` is 0, and its key alone changes.
  pub view-set :
      (now later key k time : ℕ) (value : V) (cache : Cache V)
      → view later (set now key value time cache).1 k ≡ (
          if k == key
          then (if time == 0
              then some value
              else if ltb later (now + time)
              then some value
              else none)
          else view later cache k)
  unfolding get set
  view-set now later key k time value cache = ground arith

  expunge_entry_twice :
      (now later : ℕ) (entry : Option (ℕ × V))
      → now ≤ later
      → value_of (expunge_entry later (expunge_entry now entry))
        ≡ value_of (expunge_entry later entry)
  unfolding expunge_entry value_of
  expunge_entry_twice now later none h = refl
  expunge_entry_twice now later (some (timeout, value)) h = ground arith

  -- Whatever key is asked for, `get` deletes nothing that could be read at that time or later.
  pub view-get :
      (now later key k : ℕ) (cache : Cache V)
      → now ≤ later
      → view later (get now key cache).1 k ≡ view later cache k
  unfolding get
  view-get now later key k cache h = expunge_entry_twice now later (cache k) h

  pub view-delete :
      (now key k : ℕ) (cache : Cache V)
      → view now (delete key cache) k ≡ (if k == key then none else view now cache k)
  unfolding get delete
  view-delete now key k cache = ground arith

  -- On a key with a live value `add` answers False, and nothing that can be read then or later
  -- changes.
  pub add_live :
      (now later key k time : ℕ) (value old : V) (cache : Cache V)
      → now ≤ later
      → view now cache key ≡ some old
      → ((add now key value time cache).0 ≡ false)
        × (view later (add now key value time cache).1 k ≡ view later cache k)
  unfolding add get set
  add_live now later key k time value old cache h live =
      (ground arith, ground (arith, expunge_entry_twice now later (cache k) h))

  -- On a key with no live value `add` answers True, and afterwards the value is there for `time` seconds, or
  -- for ever when `time` is 0; no other key changes.
  pub add_new :
      (now later key k time : ℕ) (value : V) (cache : Cache V)
      → now ≤ later
      → view now cache key ≡ none
      → ((add now key value time cache).0 ≡ true)
        × (view later (add now key value time cache).1 k ≡ (
            if k == key
            then (if time == 0
                then some value
                else if ltb later (now + time)
                then some value
                else none)
            else view later cache k))
  unfolding add get set
  add_new now later key k time value cache h free =
      (ground arith, ground (arith, expunge_entry_twice now later (cache k) h))

  -- `incr` on a live value that is a number answers the sum, keeps the time at which the key
  -- expires, and changes no other key.
  pub incr_live :
      (int : V → Option ℕ) (str : ℕ → V) (now later key k delta n : ℕ) (old : V) (cache : Cache V)
      → now ≤ later
      → view now cache key ≡ some old
      → int old ≡ some n
      → ((incr int str now key delta cache).0 ≡ new_value (n + delta))
        × (view later (incr int str now key delta cache).1 k ≡ (
            if k == key
            then Option.map (λ _. str (n + delta)) (view later cache key)
            else view later cache k))
  unfolding incr get
  incr_live int str now later key k delta n old cache h live number =
      (ground arith, ground (arith, expunge_entry_twice now later (cache k) h))
