-- ===== src/Central/Checks/Quotas.antt =====
-- _enforce_zone_quota, _enforce_recordset_quota and _enforce_record_quota of central/service.py. The
-- counts are those that storage answers; the resources of quota/base.py are numbered.
pub mod Room
mod Tests
use designate_private.Prelude.{ℕ, ◌+◌, ◌-◌, Bool, true, false, List, [], ◌∷◌, if◌then◌else◌}
use designate_private.Quota
use designate_private.Quota.{Caller, Row, Limits, limit_check, within}
use designate_private.Central.Checks.{
  Refusal, over_quota, quota_resource_unknown, Checked, passed, refused, ◌>>=◌, ◌>>◌,
}

abbrev pub zones : ℕ
zones = 0

abbrev pub zone_recordsets : ℕ
zone_recordsets = 1

abbrev pub zone_records : ℕ
zone_records = 2

abbrev pub recordset_records : ℕ
recordset_records = 3

-- The exceptions of limit_check.
raised : Quota.Checked → Checked (Unit {0})
raised within = passed tt
raised Quota.over_quota = refused over_quota
raised Quota.quota_resource_unknown = refused quota_resource_unknown

-- `tenant` is the one whose limits are in force, `caller` the context of the request.
module _ (caller : Caller) (defaults : Limits) (tenant : ℕ) (rows : List Row) where
  unfoldable pub check_limit : ℕ → ℕ → Checked (Unit {0})
  unfolding raised
  check_limit resource value =
      raised (limit_check caller defaults tenant rows ((resource, value) ∷ []))

  unfoldable pub enforce_zone_quota : ℕ → Checked (Unit {0})
  unfolding check_limit
  enforce_zone_quota zone_count = check_limit zones zone_count

  pub enforce_recordset_quota : ℕ → Checked (Unit {0})
  unfolding check_limit
  enforce_recordset_quota recordset_count = check_limit zone_recordsets recordset_count

  -- The unmanaged records of the zone and of the recordset in storage, and the records that the
  -- recordset is to have. The recordset's are among the zone's, so the difference is exact.
  pub enforce_record_quota : Bool → ℕ → ℕ → ℕ → Checked (Unit {0})
  unfolding check_limit
  enforce_record_quota true in_zone in_recordset wanted = passed tt
  enforce_record_quota false in_zone in_recordset wanted = do
    check_limit zone_records (in_zone - in_recordset + wanted)
    check_limit recordset_records in_recordset
