-- ===== src/Central/Checks/Quotas/Room.antt =====
-- What the quota checks leave room for.
use designate_private.Prelude.{
  ℕ, ◌+◌, ◌-◌, ◌<◌, ◌≡◌, ◌↔◌, refl, false, List, [], ◌∷◌, map, AreDistinct,
}
use designate_private.Quota
use designate_private.Quota.{Caller, Row, Limits, limit_check, within}
use designate_private.Quota.Limits.{IsLimit, IsUnique, limit_check-AllWithin}
use designate_private.Central.Checks.{>>-passed, passed}
use designate_private.Central.Checks.Quotas.{
  raised, check_limit, enforce_record_quota, zone_records, recordset_records,
}

raised-passed : (c : Quota.Checked) → raised c ≡ passed tt ↔ (c ≡ within)
unfolding raised
raised-passed within = (λ _. refl, λ _. refl)
raised-passed Quota.over_quota = (λ e. cc, λ e. cc)
raised-passed Quota.quota_resource_unknown = (λ e. cc, λ e. cc)

-- The tenant has a limit for the resource, and the value lies below it.
abbrev pub IsBelow : Caller → Limits → ℕ → List Row → ℕ → ℕ → Type 0
IsBelow caller defaults tenant rows resource value =
    (limit : ℕ) × IsLimit caller defaults tenant rows resource limit × (value < limit)

module _ (caller : Caller) (defaults : Limits) (tenant : ℕ) (rows : List Row)
    (unique : IsUnique rows) (distinct : AreDistinct (map (λ (p : ℕ × ℕ). p.0) defaults)) where
  check_limit-IsBelow :
      (resource value : ℕ)
      → check_limit caller defaults tenant rows resource value ≡ passed tt
        ↔ IsBelow caller defaults tenant rows resource value
  unfolding check_limit
  check_limit-IsBelow resource value =
      let all =
        limit_check-AllWithin caller defaults tenant rows ((resource, value) ∷ []) unique
          distinct in
      let both = raised-passed (limit_check caller defaults tenant rows ((resource, value) ∷ [])) in
      (λ e. (all.0 (both.0 e)).0, λ h. both.1 (all.1 (h, tt)))

  -- Where a tenant has one row at most for a resource, and a resource one default, the record quotas of
  -- a recordset that is not managed let a change pass exactly when the records that the zone will have
  -- are fewer than the limit of records in a zone, and the records that the recordset has so far are
  -- fewer than the limit of records in a recordset.
  pub enforce_record_quota-IsBelow :
      (in_zone in_recordset wanted : ℕ)
      → enforce_record_quota caller defaults tenant rows false in_zone in_recordset wanted
          ≡ passed tt
        ↔ (IsBelow caller defaults tenant rows zone_records (in_zone - in_recordset + wanted)
            × IsBelow caller defaults tenant rows recordset_records in_recordset)
  unfolding enforce_record_quota
  enforce_record_quota-IsBelow in_zone in_recordset wanted =
      let first = check_limit-IsBelow zone_records (in_zone - in_recordset + wanted) in
      let second = check_limit-IsBelow recordset_records in_recordset in
      (
        λ e. let (a, b) = >>-passed _ _ tt e in (first.0 a, second.0 b),
        λ h. rw (first.1 h.0) (second.1 h.1),
      )
