-- ===== src/Worker/Actions.antt =====
-- ZoneActionOnTarget, ZoneAction, RecordSetAction, RecordAction, AclAction and ViewAction of
-- worker/tasks/zone.py: push one change to a target, then tell central.
mod Tests
pub mod Reports
use designate_private.Prelude.{
  Bool, true, false, ◌&&◌, ◌||◌, Option, none, some, List, [], ◌∷◌, if◌then◌else◌,
}
use designate_private.Objects.{Action, create, update, delete, no_action, Status, success, error}
use designate_private.Worker.Calls.{
  Call, get_view, get_association, get_zdns_record, recordset_callback, backend, zdns, report, Log,
  World, Task, pure, raise, try_except, ◌>>=◌, ◌>>◌, perform,
}

module _ (world : World) where
  -- The `if` on the action: no branch is taken for another action.
  push_zone : Action → Task (Unit {0})
  push_zone no_action = pure tt
  push_zone action = do perform world (backend action); perform world (zdns action)

  -- The `try` statement that the tasks share: report SUCCESS after the work, or report ERROR and
  -- raise again.
  reporting : Task (Unit {0}) → Task (Unit {0})
  reporting work =
      try_except (do work; perform world (report success)) (do perform world (report error); raise)

  find_view : Bool → Task (Unit {0})
  find_view true = perform world get_view
  find_view false = pure tt

  -- `has_view` is the truth of `zone.get("view_id")`.
  pub zone_action : Bool → Action → Task Bool
  unfolding push_zone reporting find_view
  zone_action has_view action = do find_view has_view; reporting (push_zone action); pure true

  push_target : Action → Task (Unit {0})
  push_target no_action = pure tt
  push_target action = perform world (backend action)

  -- ZoneActionOnTarget
  pub zone_action_on_target : Action → Task Bool
  unfolding push_target reporting
  zone_action_on_target action = do reporting (push_target action); pure true

  validate_action : Action → Task (Unit {0})
  validate_action no_action = raise
  validate_action _ = pure tt

  pub recordset_action : Action → Task Bool
  unfolding validate_action reporting
  recordset_action action = do
    validate_action action
    reporting (perform world (backend action))
    pure true

  push_record : Action → Task (Unit {0})
  push_record create = do
    perform world get_view
    perform world (backend create)
    perform world (zdns create)
  push_record update = do
    perform world get_view
    perform world get_association
    perform world get_zdns_record
    perform world (backend update)
    perform world recordset_callback
    perform world (zdns update)
  push_record delete = do
    perform world get_view
    perform world get_association
    perform world get_zdns_record
    perform world (backend delete)
  push_record no_action = pure tt

  -- Whether `response` was assigned: it holds what the backend answered, and None before that.
  has_response : Log → Bool
  has_response [] = false
  has_response ((backend _, ok) ∷ log) = ok || has_response log
  has_response (_ ∷ log) = has_response log

  answer : Task Bool
  unfolding has_response
  answer log = (some (has_response log), log)

  -- The handler does not raise again: the response is returned in any case.
  pub record_action : Action → Task Bool
  unfolding validate_action push_record answer
  record_action action = do
    validate_action action
    try_except (do push_record action; perform world (report success))
        (perform world (report error))
    answer

  pub acl_action : Action → Task Bool
  unfolding validate_action push_zone
  acl_action action = do validate_action action; push_zone action; pure true

  -- For an action that is none of the three, `return view` raises: the name is not bound.
  pub view_action : Action → Task (Unit {0})
  view_action create = do perform world (backend create); perform world (zdns create)
  view_action update = perform world (backend update)
  view_action delete = perform world (backend delete)
  view_action no_action = raise
