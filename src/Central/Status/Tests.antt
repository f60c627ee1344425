-- ===== src/Central/Status/Tests.antt =====
-- Two zones. The zone 1 is to be deleted at the serial 7; it has three records in two recordsets. The
-- zone 2 has one.
use designate_private.Prelude.{ℕ, ◌≡◌, refl, true, false, [], ◌∷◌, some, none, arith}
use designate_private.Objects.{
  Zone, Action, create, update, delete, no_action, Status, active, pending, error, success,
}
use designate_private.Central.Store.{
  Record, Store, get_zone, update_record, update_zone, write, write_zone, select,
}
use designate_private.Central.Status.{
  update_record_status, update_status, update_zone_status, update_recordset_status,
}
use designate_private.Central.Status.Settle.{IsWellFormed, EndsWith}
use designate_private.Central.Status.Acknowledged.{reported_rows, update_record_status-EndsWith}
use designate_private.Central.Status.Reported.{IsReported, update_status-IsReported}
use designate_private.Central.Status.Finished.{
  IsRecordsetReported, IsCreationReported, update_recordset_status-IsRecordsetReported,
  update_zone_status_created, update_zone_status_uncreated,
}
use designate_private.Central.Status.Transition.{here, next, reported, IsDoomed, Reach-IsDoomed}

abbrev old_zone : Zone
old_zone = record { id = 1; action = delete; status = pending; serial = 7 }

abbrev new_zone : Zone
new_zone = record { id = 2; action = create; status = pending; serial = 1 }

abbrev row : ℕ → ℕ → ℕ → Action → ℕ → Record
row i zone_id rs action serial = record {
  id = i;
  zone_id = zone_id;
  recordset_id = rs;
  action = action;
  status = pending;
  serial = serial;
}

abbrev tables : Store
tables = record {
  zones = old_zone ∷ new_zone ∷ [];
  recordsets = 10 ∷ 11 ∷ 20 ∷ [];
  records =
      row 100 1 10 delete 7
      ∷ row 101 1 10 update 6
      ∷ row 102 1 11 delete 9
      ∷ row 200 2 20 create 1
      ∷ [];
  associations = [];
  zdns_records = [];
}

tables-IsWellFormed : IsWellFormed tables
tables-IsWellFormed = record {
  distinct = (
    (omega arith, (omega arith, (omega arith, tt))),
    ((omega arith, (omega arith, tt)), ((omega arith, tt), (tt, tt))),
  );
  owned = λ rs h. ground arith;
  inhabited = λ rs h. ground arith;
}

old_zone_found : get_zone 1 tables ≡ some old_zone
unfolding get_zone
old_zone_found = refl

new_zone_found : get_zone 2 tables ≡ some new_zone
unfolding get_zone
new_zone_found = refl

-- The report of success at the serial 7 does not complete the deletion at the serial 9.
reported_run :
    reported_rows 1 success 7 tables.records
    ≡ record (row 101 1 10 no_action 6) { status = active }
      ∷ row 102 1 11 delete 9
      ∷ row 200 2 20 create 1
      ∷ []
reported_run = refl

update_record_status-EndsWith_test :
    EndsWith
      (reported_rows 1 success 7 tables.records)
      tables
      (update_record_status 1 success 7 tables)
update_record_status-EndsWith_test =
    update_record_status-EndsWith 1 success 7 tables tables-IsWellFormed

update_status-IsReported_example :
    IsReported 1 success 7 old_zone tables (update_status 1 success 7 tables)
update_status-IsReported_example =
    update_status-IsReported 1 success 7 old_zone tables tables-IsWellFormed old_zone_found

update_recordset_status-IsRecordsetReported_example :
    IsRecordsetReported 10 delete success tables (update_recordset_status 10 delete success tables)
update_recordset_status-IsRecordsetReported_example =
    update_recordset_status-IsRecordsetReported 10 delete success tables tables-IsWellFormed

abbrev said : Status → Zone
said status = record new_zone { status = status }

update_zone_status_created_test :
    IsCreationReported 2 true
      (some (record new_zone { action = no_action; status = active }))
      tables
      (update_zone_status (said success) tables)
update_zone_status_created_test =
    update_zone_status_created (said success) new_zone tables tables-IsWellFormed new_zone_found
      refl refl

update_zone_status_uncreated_test :
    IsCreationReported 2 false none tables (update_zone_status (said error) tables)
update_zone_status_uncreated_test =
    update_zone_status_uncreated (said error) new_zone tables tables-IsWellFormed new_zone_found
      refl refl

-- The nameservers report an error for the zone 1.
abbrev failed_zone : Store
failed_zone = record tables {
  zones = record old_zone { status = error } ∷ new_zone ∷ [];
  records =
      record (row 100 1 10 delete 7) { status = error }
      ∷ record (row 101 1 10 update 6) { status = error }
      ∷ row 102 1 11 delete 9
      ∷ row 200 2 20 create 1
      ∷ [];
}

failed_run : update_status 1 error 7 tables ≡ some failed_zone
unfolding update_status get_zone update_record update_zone write write_zone select
failed_run = refl

tables-IsDoomed : IsDoomed 1 tables
tables-IsDoomed z h = ground (arith, old_zone_found)

Reach-IsDoomed_example : IsWellFormed failed_zone × IsDoomed 1 failed_zone
Reach-IsDoomed_example =
    Reach-IsDoomed 1 tables failed_zone tables-IsWellFormed tables-IsDoomed
      (next here (reported 1 error 7 tables failed_zone failed_run))
