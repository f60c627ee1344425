-- ===== src/Central/Locks.antt =====
-- synchronized_zone of central/service.py. A thread runs nested calls of decorated methods; the lock
-- of a zone is lockutils.lock('zone-<id>'), which a thread cannot take twice.
pub mod Reentry
pub mod Exclusion
mod Tests
use designate_private.Prelude.{
  ℕ, zero, suc, Bool, true, false, not, ◌&&◌, Option, none, some, List, [], ◌∷◌, ◌++◌, ◌==◌,
  if◌then◌else◌, ◌>>=◌,
}

-- An argument: a Zone with its id, an object with its zone_id, or another value, perhaps an id.
pub data Argument : Type 0 where
  zone child plain : Option ℕ → Argument

-- The keyword arguments by which the zone is found, in the order in which they are tried, and the
-- values of all of them.
pub record Keywords : Type 0 where
  pub zone_id : Option (Option ℕ)
  pub zone : Option (Option ℕ)
  pub recordset : Option (Option ℕ)
  pub record_zone : Option (Option ℕ)
  pub values : List Argument

-- The ladder of `if 'zone_id' in kwargs`.
from_keywords : Keywords → Option ℕ
from_keywords k = elim k.zone_id [
  | some id ↦ id
  | none ↦ elim k.zone [
    | some id ↦ id
    | none ↦ elim k.recordset [
      | some id ↦ id
      | none ↦ elim k.record_zone [ some id ↦ id | none ↦ none ]
    ]
  ]
]

object_id : Argument → Option ℕ
object_id (zone id) = id
object_id (child id) = id
object_id (plain v) = none

-- The loop over the arguments.
from_objects : List Argument → Option ℕ
unfolding object_id
from_objects [] = none
from_objects (a ∷ rest) =
    let later = from_objects rest in elim (object_id a) [ some id ↦ some id | none ↦ later ]

argument_id : Argument → Option ℕ
argument_id (zone id) = id
argument_id (child id) = id
argument_id (plain v) = v

-- `args[zone_arg]`, if there are so many.
from_position : ℕ → List Argument → Option ℕ
unfolding argument_id
from_position n [] = none
from_position zero (a ∷ rest) = argument_id a
from_position (suc n) (a ∷ rest) = from_position n rest

or_else : Option ℕ → Option ℕ → Option ℕ
or_else (some id) other = some id
or_else none other = other

pub find_zone_id : ℕ → Keywords → List Argument → Option ℕ
unfolding from_keywords from_objects from_position or_else
find_zone_id zone_arg k args =
    or_else (or_else (from_keywords k) (from_objects (k.values ++ args)))
      (from_position zone_arg args)

pub same_key : Option ℕ → Option ℕ → Bool
same_key none none = true
same_key none (some b) = false
same_key (some a) none = false
same_key (some a) (some b) = a == b

pub holds : Option ℕ → List (Option ℕ) → Bool
unfolding same_key
holds key [] = false
holds key (k ∷ ks) = let rest = holds key ks in if same_key k key then true else rest

pub remove : Option ℕ → List (Option ℕ) → List (Option ℕ)
unfolding same_key
remove key [] = []
remove key (k ∷ ks) = let rest = remove key ks in if same_key k key then ks else k ∷ rest

-- What a thread does: it returns, raises, or calls a decorated method, whose body is a program, and
-- goes on; `caught` is whether the caller catches what the method raises.
pub data Program : Type 0 where
  return raise : Program
  call : (new_zone caught : Bool) (zone_id : Option ℕ) (body next : Program) → Program

pub data End : Type 0 where
  returned raised : End

-- `held` is ZONE_LOCKS.held, `owned` are the locks that the thread has, and `log` says for each body
-- that started, the last first, whether the thread had the lock of its zone.
pub record Thread : Type 0 where
  pub held : List (Option ℕ)
  pub owned : List (Option ℕ)
  pub log : List Bool

pub enter : Option ℕ → Thread → Thread
unfolding holds
enter id t = record t { log = holds id t.owned ∷ t.log }

pub take_lock : Option ℕ → Thread → Thread
take_lock id t = record t { held = id ∷ t.held; owned = id ∷ t.owned }

-- The lock is released however the body ends; `held` is reset only after it has returned.
pub leave : Option ℕ → End → Thread → Thread
unfolding remove
leave id returned t = record t { held = remove id t.held; owned = remove id t.owned }
leave id raised t = record t { owned = remove id t.owned }

close : Option ℕ → Thread × End → Option (Thread × End)
unfolding leave
close id (t, end) = some (leave id end t, end)

-- The end of sync_wrapper, which calls the method; `none` is a thread that waits for itself.
pub locked : Option ℕ → (Thread → Option (Thread × End)) → Thread → Option (Thread × End)
unfolding enter take_lock close holds
locked id body t =
    if holds id t.held
    then body (enter id t)
    else (if holds id t.owned then none else body (enter id (take_lock id t)) >>= close id)

sync_wrapper : Bool → Option ℕ → (Thread → Option (Thread × End)) → Thread → Option (Thread × End)
unfolding locked
sync_wrapper false none body t = some (t, raised)
sync_wrapper false (some id) body t = locked (some id) body t
sync_wrapper true id body t = locked id body t

-- What follows a call.
resume : Bool → (Thread → Option (Thread × End)) → Thread × End → Option (Thread × End)
resume caught next (t, returned) = next t
resume true next (t, raised) = next t
resume false next (t, raised) = some (t, raised)

pub run : Program → Thread → Option (Thread × End)
unfolding sync_wrapper resume
run return t = some (t, returned)
run raise t = some (t, raised)
run (call new_zone caught zone_id body next) t =
    sync_wrapper new_zone zone_id (λ u. run body u) t >>= resume caught (λ u. run next u)
