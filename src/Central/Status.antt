-- ===== src/Central/Status.antt =====
-- The status updates of central/service.py: _update_zone_or_record_status and update_status, which the
-- pool manager calls, and update_zone_status and update_recordset_status, which the worker calls. All
-- of them go through the records that a query found and write or delete them one by one.
pub mod Settle
pub mod Transition
pub mod Acknowledged
pub mod Reported
pub mod Finished
mod Tests
use designate_private.Prelude.{
  ◌>>=◌, ℕ, Bool, true, false, ◌&&◌, ◌||◌, Option, none, some, List, [], ◌∷◌, ◌==◌, leb,
  if◌then◌else◌,
}
use designate_private.Objects.{
  Action, create, update, delete, no_action, Status, active, pending, error, deleted, success,
  no_zone, Zone,
}
use designate_private.Central.Store.{
  Record, Store, select, update_record, delete_record, delete_if_empty, take_association,
  delete_zdns_record, update_zone, delete_zone, get_zone,
}

-- What _update_zone_or_record_status does to the object: nothing, assign to action and status, or
-- mark it DELETED and have it deleted.
pub data Change : Type 0 where
  unchanged removed : Change
  assign : Action → Status → Change

-- `status in ['PENDING', 'ERROR']`
pub is_open : Status → Bool
is_open pending = true
is_open error = true
is_open _ = false

pub on_acknowledged : Action → Change
on_acknowledged create = assign no_action active
on_acknowledged update = assign no_action active
on_acknowledged delete = removed
on_acknowledged no_action = unchanged

-- The reported status and serial, and the object's action, status and serial.
pub transition : Status → ℕ → Action → Status → ℕ → Change
unfolding is_open on_acknowledged
transition success serial action status own =
    if is_open status && leb own serial then on_acknowledged action else unchanged
transition error serial action pending own =
    if leb own serial || (serial == 0) then assign action error else unchanged
transition no_zone _ _ _ _ = removed
transition _ _ _ _ _ = unchanged

-- What a loop over records does with one of them.
pub data Verdict : Type 0 where
  leave drop drop_associated : Verdict
  put put_and_drop : Record → Verdict

drop_record : Record → Store → Option Store
drop_record r s = do s' ← delete_record r.id s; delete_if_empty r.recordset_id s'

-- _delete_record_with_zone_delete
drop_with_association : Record → Store → Option Store
drop_with_association r s = elim (take_association r.id s) [
  | none ↦ none
  | some (zdns_id, s') ↦ (do
    s₁ ← delete_record r.id s'
    s₂ ← delete_if_empty r.recordset_id s₁
    delete_zdns_record zdns_id s₂)
]

settle : Verdict → Record → Store → Option Store
unfolding drop_record drop_with_association
settle leave r s = some s
settle (put r') r s = update_record r' s
settle drop r s = drop_record r s
settle (put_and_drop r') r s = do s' ← update_record r' s; drop_record r s'
settle drop_associated r s = drop_with_association r s

pub settle_all : (Record → Verdict) → List Record → Store → Option Store
unfolding settle
settle_all judge [] s = some s
settle_all judge (r ∷ rs) s = do s' ← settle (judge r) r s; settle_all judge rs s'

is_pending : Status → Bool
is_pending pending = true
is_pending _ = false

-- The criterion of _update_record_status.
pub is_selected : Status → ℕ → Record → Bool
unfolding is_open is_pending
is_selected success serial r = is_open r.status && leb r.serial serial
is_selected error serial r = is_pending r.status && ((serial == 0) || leb r.serial serial)
is_selected _ serial r = true

judge_change : Record → Change → Verdict
judge_change r unchanged = leave
judge_change r (assign action status) = put (record r { action = action; status = status })
judge_change r removed = put_and_drop (record r { action = no_action; status = deleted })

pub judge_record : Status → ℕ → Record → Verdict
unfolding transition judge_change
judge_record status serial r = judge_change r (transition status serial r.action r.status r.serial)

pub update_record_status : ℕ → Status → ℕ → Store → Option Store
unfolding select is_selected judge_record settle_all
update_record_status zone_id status serial s =
    settle_all (judge_record status serial)
      (select (λ r. (r.zone_id == zone_id) && is_selected status serial r) s.records) s

-- `zone.status != 'DELETED'`: a row with that status is not written.
keep_zone_with : Status → Zone → Store → Option Store
keep_zone_with deleted z s = some s
keep_zone_with _ z s = update_zone z s

keep_zone : Zone → Store → Option Store
unfolding keep_zone_with
keep_zone z s = keep_zone_with z.status z s

change_zone : Zone → Change → Store → Option Store
unfolding keep_zone
change_zone z unchanged s = keep_zone z s
change_zone z (assign action status) s = keep_zone (record z { action = action; status = status }) s
change_zone z removed s = delete_zone z.id s

pub update_own_zone_status : ℕ → Status → ℕ → Store → Option Store
unfolding change_zone transition
update_own_zone_status zone_id status serial s = do
  z ← get_zone zone_id s
  change_zone z (transition status serial z.action z.status z.serial) s

-- Service.update_status
pub update_status : ℕ → Status → ℕ → Store → Option Store
unfolding update_record_status update_own_zone_status
update_status zone_id status serial s = do
  s' ← update_record_status zone_id status serial s
  update_own_zone_status zone_id status serial s'

abbrev activated : Record → Record
activated r = record r { action = no_action; status = active }

-- The loop body of update_zone_status.
judge_with_zone : Action → Status → Record → Verdict
judge_with_zone create success r = put (activated r)
judge_with_zone create error r = drop
judge_with_zone delete success r = drop_associated
judge_with_zone _ _ r = leave

finish_zone : Zone → Action → Status → Store → Option Store
finish_zone z delete success s = delete_zone z.id s
finish_zone z _ success s = update_zone (record z { action = no_action; status = active }) s
finish_zone z create error s = delete_zone z.id s
finish_zone z _ error s = update_zone (record z { action = no_action; status = active }) s
finish_zone z _ _ s = some s

-- Service.update_zone_status
pub update_zone_status : Zone → Store → Option Store
unfolding judge_with_zone finish_zone settle_all select
update_zone_status z s = do
  s' ← settle_all (judge_with_zone z.action z.status) (select (λ r. r.zone_id == z.id) s.records) s
  finish_zone z z.action z.status s'

-- The loop body of update_recordset_status.
judge_with_recordset : Action → Status → Record → Verdict
judge_with_recordset create error r = drop
judge_with_recordset create _ r = put (activated r)
judge_with_recordset delete success r = drop
judge_with_recordset delete _ r = put (activated r)
judge_with_recordset _ success r = put (activated r)
judge_with_recordset _ _ r = leave

-- Service.update_recordset_status
pub update_recordset_status : ℕ → Action → Status → Store → Option Store
unfolding judge_with_recordset settle_all select
update_recordset_status recordset_id action status s =
    settle_all (judge_with_recordset action status)
      (select (λ r. r.recordset_id == recordset_id) s.records) s
