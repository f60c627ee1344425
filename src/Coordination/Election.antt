-- ===== src/Coordination/Election.antt =====
-- LeaderElection of coordination.py. The record holds the object's fields and, beside them, what the
-- coordinator and the callbacks have seen: how many hooks for this node the coordinator runs when it
-- elects it, how often it was told to stand down, and the callbacks in the order of their calls.
mod Tests
pub mod Leader
use designate_private.Prelude.{
  ℕ, zero, suc, ◌<◌, Bool, true, false, not, ◌&&◌, Option, none, some, List, [], ◌∷◌, ◌++◌, ◌==◌,
  ◌≡◌, if◌then◌else◌,
}

pub record Election : Type 0 where
  pub coordinator : Bool
  pub callbacks : List ℕ
  pub started : Bool
  pub leader : Bool
  pub hooks : ℕ
  pub stood_down : ℕ
  pub called : List ℕ

-- __init__
abbrev pub init : Bool → Election
init coordinator = record {
  coordinator = coordinator;
  callbacks = [];
  started = false;
  leader = false;
  hooks = 0;
  stood_down = 0;
  called = [];
}

start_with : Bool → Election → Election
start_with true e = record e { started = true; hooks = suc e.hooks }
start_with false e = record e { started = true; leader = true; called = e.called ++ e.callbacks }

pub start : Election → Election
unfolding start_with
start e = start_with e.coordinator e

-- The coordinator removes one hook, and raises when it has none.
pub data Stopped : Type 0 where
  done hook_not_found : Election → Stopped

-- By the tests on `_leader` and on what the coordinator answered.
stand_down : Bool → Election → Election
stand_down true e = record e { leader = false; stood_down = suc e.stood_down }
stand_down false e = e

unwatch_election : ℕ → Bool → Election → Stopped
unfolding stand_down
unwatch_election zero leads e = hook_not_found (record e { started = false })
unwatch_election (suc left) leads e =
    done (stand_down leads (record e { started = false; hooks = left }))

stop_with : Bool → Election → Stopped
unfolding unwatch_election
stop_with true e = unwatch_election e.hooks e.leader e
stop_with false e = done (record e { started = false; leader = false })

pub stop : Election → Stopped
unfolding stop_with
stop e = stop_with e.coordinator e

pub on_elected_leader : Election → Election
on_elected_leader e = record e { leader = true; called = e.called ++ e.callbacks }

-- Whether the new callback is called at once.
trigger : Bool → ℕ → Election → Election
trigger true callback e = record e { called = e.called ++ callback ∷ [] }
trigger false callback e = e

pub watch_elected_as_leader : ℕ → Election → Election
unfolding trigger
watch_elected_as_leader callback e =
    let triggered : Bool =
      if e.started && e.leader
      then true
      else if e.started && not e.coordinator
      then true
      else false in
    trigger triggered callback (record e { callbacks = e.callbacks ++ callback ∷ [] })

-- list.remove: the first equal item goes; `none` is the ValueError.
remove : ℕ → List ℕ → Option (List ℕ)
remove c [] = none
remove c (d ∷ ds) =
    let rest = remove c ds in
    if d == c then some ds else elim rest [ none ↦ none | some l ↦ some (d ∷ l) ]

pub unwatch_elected_as_leader : ℕ → Election → Option Election
unfolding remove
unwatch_elected_as_leader callback e = elim (remove callback e.callbacks) [
  | none ↦ none
  | some l ↦ some (record e { callbacks = l })
]

-- What may happen to the object: its methods are called, but a node is started only while it is not,
-- as the services do; and a coordinator that runs a hook for this node elects it. `stop` without a hook
-- raises after `_started` was reset.
pub data Step : Election → Election → Type 0 where
  started : (e : Election) → e.started ≡ false → Step e (start e)
  stopped : (e e' : Election) → stop e ≡ done e' → Step e e'
  not_stopped : (e e' : Election) → stop e ≡ hook_not_found e' → Step e e'
  elected : (e : Election) → 0 < e.hooks → Step e (on_elected_leader e)
  watched : (c : ℕ) (e : Election) → Step e (watch_elected_as_leader c e)
  unwatched : (c : ℕ) (e e' : Election) → unwatch_elected_as_leader c e ≡ some e' → Step e e'

pub data Reach (e : Election) : Election → Type 0 where
  here : Reach e e
  next : {f g : Election} → Reach e f → Step f g → Reach e g
