-- ===== src/Central/Status/Acknowledged.antt =====
-- What a status report leaves in the tables.
use mathlib.Core.Path.{subst}
use designate_private.Prelude.{
  ℕ, ◌≡◌, refl, Bool, false, ◌&&◌, ◌||◌, List, [], ◌∷◌, ◌++◌, arith, ◌==◌, leb, if◌then◌else◌,
}
use designate_private.Objects.{
  Action, create, update, delete, no_action, Status, active, pending, error, deleted, success,
  no_zone,
}
use designate_private.Central.Store.{Record, Store}
use designate_private.Central.Status.{
  transition, judge_record, is_selected, update_record_status, activated, judge_change, Change,
  unchanged, assign, removed,
}
use designate_private.Central.Status.Settle.{
  IsWellFormed, KeepsPlace, after, EndsWith, outcome, settle_all-EndsWith,
}

-- A change waits for its acknowledgement: the object is PENDING or in ERROR, and the reported
-- serial is not older than the object's.
abbrev pub is_covered : Status → ℕ → ℕ → Bool
is_covered pending own serial = leb own serial
is_covered error own serial = leb own serial
is_covered _ own serial = false

abbrev pub completed_row : Record → Action → List Record
completed_row r create = activated r ∷ []
completed_row r update = activated r ∷ []
completed_row r delete = []
completed_row r no_action = r ∷ []

abbrev pub failed_row : Record → ℕ → Status → List Record
failed_row r serial pending =
    if (serial == 0) || leb r.serial serial then record r { status = error } ∷ [] else r ∷ []
failed_row r serial _ = r ∷ []

-- The rows that are left of a row of the zone: SUCCESS completes the changes that the serial covers,
-- ERROR marks pending ones (all of them when the serial is 0), NO_ZONE removes the row.
abbrev pub reported_row : Status → ℕ → Record → List Record
reported_row success serial r =
    if is_covered r.status r.serial serial then completed_row r r.action else r ∷ []
reported_row error serial r = failed_row r serial r.status
reported_row no_zone serial r = []
reported_row _ serial r = r ∷ []

abbrev pub reported_rows : ℕ → Status → ℕ → List Record → List Record
reported_rows zone_id status serial [] = []
reported_rows zone_id status serial (r ∷ rs) =
    (if r.zone_id == zone_id then reported_row status serial r else r ∷ [])
    ++ reported_rows zone_id status serial rs

judge_change-KeepsPlace : (r : Record) (c : Change) → KeepsPlace r (judge_change r c)
unfolding judge_change
judge_change-KeepsPlace r unchanged = tt
judge_change-KeepsPlace r removed = (refl, refl)
judge_change-KeepsPlace r (assign _ _) = (refl, refl)

judge_record-KeepsPlace :
    (status : Status) (serial : ℕ) (r : Record) → KeepsPlace r (judge_record status serial r)
unfolding judge_record
judge_record-KeepsPlace status serial r =
    judge_change-KeepsPlace r (transition status serial r.action r.status r.serial)

row_agrees :
    (status : Status) (serial : ℕ) (r : Record)
    → (if is_selected status serial r then after (judge_record status serial r) r else r ∷ [])
      ≡ reported_row status serial r
unfolding is_selected judge_record
row_agrees success serial r = ground arith
row_agrees error serial r = ground arith
row_agrees no_zone serial r = refl
row_agrees active serial r = refl
row_agrees pending serial r = refl
row_agrees deleted serial r = refl

rows_agree :
    (zone_id : ℕ) (status : Status) (serial : ℕ) (rs : List Record)
    → outcome
        (λ r. (r.zone_id == zone_id) && is_selected status serial r)
        (judge_record status serial)
        rs
      ≡ reported_rows zone_id status serial rs
rows_agree zone_id status serial [] = refl
rows_agree zone_id status serial (r ∷ rs) =
    ground (arith, rows_agree zone_id status serial rs, row_agrees status serial r)

-- In well-formed tables the loop of _update_record_status raises nothing, leaves of every row of the
-- zone what the report says and every other row as it is, does not touch the zones, and the tables
-- stay well-formed: in particular a recordset is deleted when its last record is.
pub update_record_status-EndsWith :
    (zone_id : ℕ) (status : Status) (serial : ℕ) (s : Store)
    → IsWellFormed s
    → EndsWith
        (reported_rows zone_id status serial s.records)
        s
        (update_record_status zone_id status serial s)
unfolding update_record_status
update_record_status-EndsWith zone_id status serial s w =
    subst (λ l. EndsWith l s (update_record_status zone_id status serial s))
      (rows_agree zone_id status serial s.records)
      (settle_all-EndsWith (λ r. (r.zone_id == zone_id) && is_selected status serial r)
        (judge_record status serial) (judge_record-KeepsPlace status serial) s w)
