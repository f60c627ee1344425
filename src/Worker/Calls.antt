-- ===== src/Worker/Calls.antt =====
-- A worker task is a sequence of calls to other services, any of which may raise. The task's state is
-- the log of the calls made, each with its outcome; what the other services do is a parameter, the
-- world, which decides from the log so far whether the next call succeeds.
use designate_private.Prelude.{Bool, true, false, Option, none, some, List, [], ◌∷◌, ◌++◌}
use designate_private.Objects.{Action, Status}

-- The calls that the tasks of worker/tasks/zone.py make: central's get_view,
-- get_record_association, get_zdns_record and update_recordset_callback; the backend's
-- <action>_zone, _recordset, _record, _acl or _view; central's <action>_zdns_... ; and central's
-- status update of the task's object.
pub data Call : Type 0 where
  get_view get_association get_zdns_record recordset_callback : Call
  backend zdns : Action → Call
  report : Status → Call

abbrev pub Log : Type 0
Log = List (Call × Bool)

abbrev pub World : Type 0
World = Log → Call → Bool

-- `none` is an exception.
abbrev pub Task : Type 0 → Type 0
Task A = Log → Option A × Log

module _ {A : Type 0} where
  abbrev pub pure : A → Task A
  pure a log = (some a, log)

  abbrev pub raise : Task A
  raise log = (none, log)

  abbrev pub try_except : Task A → Task A → Task A
  try_except body handler log =
      let (result, log') = body log in elim result [ none ↦ handler log' | some a ↦ (some a, log') ]

module _ {A B : Type 0} where
  infixl 5 ◌>>=◌ ◌>>◌
  abbrev pub ◌>>=◌ : Task A → (A → Task B) → Task B
  ◌>>=◌ m f log =
      let (result, log') = m log in elim result [ none ↦ (none, log') | some a ↦ f a log' ]

  abbrev pub ◌>>◌ : Task A → Task B → Task B
  m >> n = m >>= λ _. n

abbrev outcome : Bool → Option (Unit {0})
outcome true = some tt
outcome false = none

abbrev pub perform : World → Call → Task (Unit {0})
perform world call log = let ok = world log call in (outcome ok, log ++ (call, ok) ∷ [])
