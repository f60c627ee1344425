-- ===== src/Quota/InForce.antt =====
-- What is in force after quotas were set or reset.
use designate_private.Prelude.{
  ℕ, ◌≡◌, ◌⊎◌, refl, true, false, ◌&&◌, Option, none, some, List, [], ◌∷◌, ◌++◌, ◌==◌,
  if◌then◌else◌, arith, inl, inr,
}
use designate_private.Quota.{
  Caller, sees, Row, Limits, lookup, own_quotas, get_quotas, has_row, update_quota, done, set_quota,
  reset_quotas,
}

-- The limit in force for a tenant's resource, for a caller.
abbrev pub in_force : Caller → Limits → ℕ → List Row → ℕ → Option ℕ
in_force caller defaults tenant rows resource =
    lookup resource (get_quotas caller defaults tenant rows)

abbrev pub or_else : Option ℕ → Option ℕ → Option ℕ
or_else none d = d
or_else (some v) d = some v

pub lookup-append :
    (r : ℕ) (xs ys : Limits) → lookup r (xs ++ ys) ≡ or_else (lookup r xs) (lookup r ys)
unfolding lookup
lookup-append r [] ys = refl
lookup-append r ((k, v) ∷ xs) ys = ground (arith, lookup-append r xs ys)

own_append :
    (c : Caller) (t r : ℕ) (rows : List Row) (q : Row)
    → lookup r (own_quotas c t (rows ++ q ∷ []))
      ≡ or_else
          (lookup r (own_quotas c t rows))
          (if (q.tenant == t) && (sees c t && (q.resource == r)) then some q.hard_limit else none)
unfolding own_quotas lookup sees
own_append c t r [] q = ground arith
own_append c t r (p ∷ rows) q = ground (arith, own_append c t r rows q)

own_absent :
    (c : Caller) (t r : ℕ) (rows : List Row)
    → has_row t r rows ≡ false
    → lookup r (own_quotas c t rows) ≡ none
unfolding has_row own_quotas lookup sees
own_absent c t r [] h = refl
own_absent c t r (q ∷ rows) h = ground (arith, own_absent c t r rows)

own_update :
    (c : Caller) (t r l u s : ℕ) (rows : List Row)
    → has_row t r rows ≡ true
    → lookup s (own_quotas c u (update_quota t r l rows))
      ≡ (if (u == t) && ((s == r) && sees c t) then some l else lookup s (own_quotas c u rows))
unfolding has_row update_quota own_quotas lookup sees
own_update c t r l u s [] h = cc
own_update c t r l u s (q ∷ rows) h = ground (arith, own_update c t r l u s rows)

pub set_quota_cases :
    (defaults : Limits) (tenant resource limit : ℕ) (rows rows' : List Row)
    → set_quota defaults tenant resource limit rows ≡ done rows'
    → ((has_row tenant resource rows ≡ true) × (update_quota tenant resource limit rows ≡ rows'))
      ⊎ ((has_row tenant resource rows ≡ false)
          × (rows ++ record { tenant = tenant; resource = resource; hard_limit = limit } ∷ []
              ≡ rows'))
unfolding set_quota
set_quota_cases defaults tenant resource limit rows rows' e = ground arith

-- When `set_quota` does not refuse the resource, the tenant's limit for it is the new one for every
-- caller that sees the tenant's rows; every other limit of any tenant, and for any other caller, is as
-- before.
pub set_quota-in_force :
    (c : Caller) (defaults : Limits) (tenant resource limit u s : ℕ) (rows rows' : List Row)
    → set_quota defaults tenant resource limit rows ≡ done rows'
    → in_force c defaults u rows' s ≡ (
        if (u == tenant) && ((s == resource) && sees c tenant)
        then some limit
        else in_force c defaults u rows s)
unfolding get_quotas
set_quota-in_force c defaults tenant resource limit u s rows rows' e =
    elim (set_quota_cases defaults tenant resource limit rows rows' e) [
      | inl (old, same) ↦
          rw (lookup-append, lookup-append, ← same, own_update c tenant resource limit u s rows old)
            (ground arith)
      | inr (new, same) ↦
          rw (lookup-append, lookup-append, ← same, own_append c u s rows)
            (ground (arith, own_absent c tenant resource rows new))
    ]

own_reset :
    (c : Caller) (t u : ℕ) (rows : List Row)
    → own_quotas c u (reset_quotas t rows) ≡ (if u == t then [] else own_quotas c u rows)
unfolding reset_quotas own_quotas
own_reset c t u [] = ground arith
own_reset c t u (q ∷ rows) = ground (arith, own_reset c t u rows)

-- After `reset_quotas` the tenant has the defaults, and the limits of other tenants are as before.
pub reset_quotas-in_force :
    (c : Caller) (defaults : Limits) (tenant u s : ℕ) (rows : List Row)
    → in_force c defaults u (reset_quotas tenant rows) s
      ≡ (if u == tenant then lookup s defaults else in_force c defaults u rows s)
unfolding get_quotas
reset_quotas-in_force c defaults tenant u s rows = rw (own_reset c tenant u rows) (ground arith)
