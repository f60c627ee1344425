-- ===== src/Worker/Actions/Reports.antt =====
-- What the tasks report to central, and when.
use designate_private.Prelude.{
  Bool, true, false, ◌≡◌, ◌⊎◌, Option, none, some, [], ◌∷◌, ◌++◌, arith,
}
use designate_private.Objects.{Action, create, update, delete, no_action, success, error}
use designate_private.Worker.Calls.{Call, get_view, backend, zdns, report, Log, World}
use designate_private.Worker.Actions.{
  zone_action, zone_action_on_target, recordset_action, record_action,
}

abbrev pub view_call : Bool → Log
view_call true = (get_view, true) ∷ []
view_call false = []

-- The calls of a run of ZoneAction that succeeds throughout.
abbrev pub successful_calls : Bool → Action → Log
successful_calls has_view no_action = view_call has_view ++ (report success, true) ∷ []
successful_calls has_view action =
    view_call has_view ++ (backend action, true) ∷ (zdns action, true) ∷ (report success, true) ∷ []

-- ZoneAction returns only when every one of its calls succeeded: the change was made on the target,
-- then in central's tables, and then SUCCESS was reported.
pub zone_action-returns :
    (world : World) (has_view : Bool) (action : Action) (log : Log) (result : Bool)
    → zone_action world has_view action [] ≡ (some result, log)
    → (result ≡ true) × (log ≡ successful_calls has_view action)
unfolding zone_action
zone_action-returns world true create log result e = ground arith
zone_action-returns world _ _ log result e = ground arith

abbrev pub last_call : Log → Option Call
last_call [] = none
last_call ((call, ok) ∷ []) = some call
last_call (c ∷ d ∷ log) = last_call (d ∷ log)

-- When ZoneAction raises, either the view could not be fetched and nothing was done or reported, or
-- the last thing that it did was to report ERROR.
pub zone_action-raises :
    (world : World) (has_view : Bool) (action : Action) (log : Log)
    → zone_action world has_view action [] ≡ (none, log)
    → ((has_view ≡ true) × (log ≡ (get_view, false) ∷ [])) ⊎ (last_call log ≡ some (report error))
unfolding zone_action
zone_action-raises world true create log e = ground arith
zone_action-raises world _ _ log e = ground arith

-- When ZoneActionOnTarget raises, the last thing that it did was to report ERROR; when it returns, the
-- last thing was to report SUCCESS.
zone_action_on_target-reports :
    (world : World) (action : Action) (log : Log) (result : Option Bool)
    → zone_action_on_target world action [] ≡ (result, log)
    → ((result ≡ none) × (last_call log ≡ some (report error)))
      ⊎ ((result ≡ some true) × (last_call log ≡ some (report success)))
unfolding zone_action_on_target
zone_action_on_target-reports world create log result e = ground arith
zone_action_on_target-reports world update log result e = ground arith
zone_action_on_target-reports world delete log result e = ground arith
zone_action_on_target-reports world no_action log result e = ground arith

-- RecordSetAction returns only when the backend did its work and SUCCESS was then reported, with no
-- other call.
pub recordset_action-returns :
    (world : World) (action : Action) (log : Log) (result : Bool)
    → recordset_action world action [] ≡ (some result, log)
    → (result ≡ true) × (log ≡ (backend action, true) ∷ (report success, true) ∷ [])
unfolding recordset_action
recordset_action-returns world create log result e = ground arith
recordset_action-returns world update log result e = ground arith
recordset_action-returns world delete log result e = ground arith
recordset_action-returns world no_action log result e = ground arith

-- When RecordSetAction raises, either the action was none of CREATE, UPDATE and DELETE and no call
-- was made, or the last thing that it did was to report ERROR.
pub recordset_action-raises :
    (world : World) (action : Action) (log : Log)
    → recordset_action world action [] ≡ (none, log)
    → ((action ≡ no_action) × (log ≡ [])) ⊎ (last_call log ≡ some (report error))
unfolding recordset_action
recordset_action-raises world create log e = ground arith
recordset_action-raises world _ log e = ground arith

-- RecordAction may return whether or not its work was done: when it returns, the last thing that it
-- did was to report SUCCESS, and then there is a response of the backend, or to report ERROR.
pub record_action-returns :
    (world : World) (action : Action) (log : Log) (result : Bool)
    → record_action world action [] ≡ (some result, log)
    → ((last_call log ≡ some (report success)) × (result ≡ true))
      ⊎ (last_call log ≡ some (report error))
unfolding record_action
record_action-returns world create log result e = ground arith
record_action-returns world update log result e = ground arith
record_action-returns world delete log result e = ground arith
record_action-returns world no_action log result e = ground arith
