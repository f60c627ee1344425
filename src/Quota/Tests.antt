-- ===== src/Quota/Tests.antt =====
-- Two tenants, 1 and 2; the resources 10 (zones) and 11 (recordsets) have defaults.
use designate_private.Prelude.{
  inr, ◌⊎◌, ◌<◌, ◌↔◌, ℕ, some, List, [], ◌∷◌, ◌≡◌, refl, true, false, arith,
}
use designate_private.Quota.{
  Caller, sees, Row, Limits, limit_check, within, over_quota, quota_resource_unknown, set_quota,
  reset_quotas, unknown, done, lookup,
}
use designate_private.Quota.InForce.{in_force, set_quota-in_force, reset_quotas-in_force}
use designate_private.Quota.Limits.{
  IsUnique, AllWithin, set_quota-limit_check, limit_check-AllWithin,
}
use designate_private.Quota.Rows.{quotas-IsUnique}

abbrev defaults : Limits
defaults = (10, 5) ∷ (11, 500) ∷ []

abbrev everyone : Caller
everyone = record { all_tenants = true; own_tenant = 3 }

abbrev tenant_1 : Caller
tenant_1 = record { all_tenants = false; own_tenant = 1 }

abbrev row : ℕ → ℕ → ℕ → Row
row tenant resource limit = record { tenant = tenant; resource = resource; hard_limit = limit }

abbrev rows : List Row
rows = row 1 10 7 ∷ row 2 10 1 ∷ []

abbrev rows' : List Row
rows' = row 1 10 9 ∷ row 2 10 1 ∷ []

set_run : set_quota defaults 1 10 9 rows ≡ done rows'
unfolding set_quota
set_run = refl

set_unknown : set_quota defaults 1 12 9 rows ≡ unknown
unfolding set_quota
set_unknown = refl

check_runs :
    (limit_check everyone defaults 1 rows ((10, 6) ∷ []) ≡ within)
    × (limit_check everyone defaults 2 rows ((10, 6) ∷ []) ≡ over_quota)
    × (limit_check everyone defaults 2 rows ((12, 6) ∷ []) ≡ quota_resource_unknown)
unfolding limit_check
check_runs = (refl, refl, refl)

-- A caller that does not see the tenant's rows gets the default.
unseen_check : limit_check tenant_1 defaults 2 rows ((10, 4) ∷ []) ≡ within
unfolding limit_check
unseen_check = refl

set_quota-in_force_test : in_force tenant_1 defaults 1 rows' 10 ≡ some 9
unfolding sees
set_quota-in_force_test = set_quota-in_force tenant_1 defaults 1 10 9 1 10 rows rows' set_run

reset_quotas-in_force_test : in_force tenant_1 defaults 1 (reset_quotas 1 rows) 10 ≡ some 5
unfolding lookup
reset_quotas-in_force_test = reset_quotas-in_force tenant_1 defaults 1 1 10 rows

rows-IsUnique : IsUnique rows
unfolding set_quota
rows-IsUnique = (refl, (refl, tt))

quotas-IsUnique_test : IsUnique rows' × IsUnique (reset_quotas 1 rows)
quotas-IsUnique_test = quotas-IsUnique defaults 1 10 9 rows rows' rows-IsUnique set_run

limit_check-AllWithin_example :
    limit_check tenant_1 defaults 1 rows ((10, 6) ∷ (11, 20) ∷ []) ≡ within
    ↔ AllWithin tenant_1 defaults 1 rows ((10, 6) ∷ (11, 20) ∷ [])
limit_check-AllWithin_example =
    limit_check-AllWithin tenant_1 defaults 1 rows ((10, 6) ∷ (11, 20) ∷ []) rows-IsUnique
      (((λ e. omega arith), tt), (tt, tt))

abbrev two : ℕ
two = 2

set_quota-limit_check_example :
    (limit_check tenant_1 defaults 1 rows' ((10, 8) ∷ []) ≡ within ↔ 8 < 9)
    × ((two ≡ 1)
        ⊎ (limit_check everyone defaults 2 rows' ((10, 3) ∷ [])
            ≡ limit_check everyone defaults 2 rows ((10, 3) ∷ [])))
set_quota-limit_check_example =
    set_quota-limit_check defaults 1 10 9 rows rows' tenant_1 everyone 8 2 ((10, 3) ∷ []) set_run
      (inr refl)
