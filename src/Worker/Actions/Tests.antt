-- ===== src/Worker/Actions/Tests.antt =====
-- Runs of the tasks: all calls succeed, or the backend raises.
use designate_private.Prelude.{Bool, true, false, some, none, [], ◌∷◌, ◌≡◌, ◌⊎◌, refl}
use designate_private.Objects.{create, update, delete, no_action, success, error}
use designate_private.Worker.Calls.{
  get_view, get_association, get_zdns_record, backend, zdns, report, Log, World,
}
use designate_private.Worker.Actions.{
  zone_action, recordset_action, record_action, acl_action, view_action,
}
use designate_private.Worker.Actions.Reports.{
  successful_calls, last_call, zone_action-returns, zone_action-raises, recordset_action-returns,
  recordset_action-raises, record_action-returns,
}

abbrev good : World
good log call = true

abbrev broken : World
broken log (backend _) = false
broken log _ = true

zone_run : zone_action good true create [] ≡ (some true, successful_calls true create)
unfolding zone_action
zone_run = refl

abbrev broken_log : Log
broken_log = (get_view, true) ∷ (backend create, false) ∷ (report error, true) ∷ []

zone_broken : zone_action broken true create [] ≡ (none, broken_log)
unfolding zone_action
zone_broken = refl

recordset_run :
    recordset_action good update []
    ≡ (some true, (backend update, true) ∷ (report success, true) ∷ [])
unfolding recordset_action
recordset_run = refl

recordset_broken :
    recordset_action broken update [] ≡ (none, (backend update, false) ∷ (report error, true) ∷ [])
unfolding recordset_action
recordset_broken = refl

abbrev record_log : Log
record_log =
    (get_view, true)
    ∷ (get_association, true)
    ∷ (get_zdns_record, true)
    ∷ (backend delete, true)
    ∷ (report success, true)
    ∷ []

record_run : record_action good delete [] ≡ (some true, record_log)
unfolding record_action
record_run = refl

acl_run : acl_action broken update [] ≡ (none, (backend update, false) ∷ [])
unfolding acl_action
acl_run = refl

view_run : view_action good create [] ≡ (some tt, (backend create, true) ∷ (zdns create, true) ∷ [])
unfolding view_action
view_run = refl

zone_action-returns_test :
    (◌≡◌ {A = Bool} true true) × (successful_calls true create ≡ successful_calls true create)
zone_action-returns_test = zone_action-returns good true create _ true zone_run

zone_action-raises_example :
    ((◌≡◌ {A = Bool} true true) × (broken_log ≡ (get_view, false) ∷ []))
    ⊎ (last_call broken_log ≡ some (report error))
zone_action-raises_example = zone_action-raises broken true create broken_log zone_broken

recordset_action-returns_test :
    (◌≡◌ {A = Bool} true true)
    × (◌≡◌ {A = Log}
        ((backend update, true) ∷ (report success, true) ∷ [])
        ((backend update, true) ∷ (report success, true) ∷ []))
recordset_action-returns_test =
    recordset_action-returns good update ((backend update, true) ∷ (report success, true) ∷ []) true
      recordset_run

recordset_action-raises_test :
    ((update ≡ no_action)
      × (◌≡◌ {A = Log} ((backend update, false) ∷ (report error, true) ∷ []) []))
    ⊎ (last_call ((backend update, false) ∷ (report error, true) ∷ []) ≡ some (report error))
recordset_action-raises_test =
    recordset_action-raises broken update ((backend update, false) ∷ (report error, true) ∷ [])
      recordset_broken

record_action-returns_test :
    ((last_call record_log ≡ some (report success)) × (◌≡◌ {A = Bool} true true))
    ⊎ (last_call record_log ≡ some (report error))
record_action-returns_test = record_action-returns good delete record_log true record_run
