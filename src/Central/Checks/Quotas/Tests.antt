-- ===== src/Central/Checks/Quotas/Tests.antt =====
-- A tenant that may have ten records in a zone and five in a recordset.
use designate_private.Prelude.{◌≡◌, ◌↔◌, false, arith, [], ◌∷◌}
use designate_private.Quota.{Caller, Limits}
use designate_private.Central.Checks.{passed}
use designate_private.Central.Checks.Quotas.{enforce_record_quota, zone_records, recordset_records}
use designate_private.Central.Checks.Quotas.Room.{IsBelow, enforce_record_quota-IsBelow}

abbrev caller : Caller
caller = record { all_tenants = false; own_tenant = 1 }

abbrev defaults : Limits
defaults = (zone_records, 10) ∷ (recordset_records, 5) ∷ []

enforce_record_quota-IsBelow_test :
    enforce_record_quota caller defaults 1 [] false 8 2 3 ≡ passed tt ↔ (
      IsBelow caller defaults 1 [] zone_records 9
      × IsBelow caller defaults 1 [] recordset_records 2)
enforce_record_quota-IsBelow_test =
    enforce_record_quota-IsBelow caller defaults 1 [] tt (((λ e. omega arith), tt), (tt, tt)) 8 2 3
