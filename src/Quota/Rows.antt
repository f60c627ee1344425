-- ===== src/Quota/Rows.antt =====
-- Setting and resetting quotas keep the table's constraint.
use mathlib.Core.Path.{subst}
use designate_private.Prelude.{
  ℕ, ◌≡◌, refl, true, false, List, [], ◌∷◌, ◌++◌, arith, ◌==◌, ◌&&◌, ◌||◌, Bool, if◌then◌else◌, inl,
  inr,
}
use designate_private.Quota.{Row, Limits, done, has_row, update_quota, set_quota, reset_quotas}
use designate_private.Quota.Limits.{IsUnique}
use designate_private.Quota.InForce.{set_quota_cases}

has_row-append :
    (t r : ℕ) (rows : List Row) (q : Row)
    → has_row t r (rows ++ q ∷ []) ≡ (has_row t r rows || ((q.tenant == t) && (q.resource == r)))
unfolding has_row
has_row-append t r [] q = ground arith
has_row-append t r (p ∷ rows) q = ground (arith, has_row-append t r rows q)

has_row-update :
    (t r l u s : ℕ) (rows : List Row) → has_row u s (update_quota t r l rows) ≡ has_row u s rows
unfolding has_row update_quota
has_row-update t r l u s [] = refl
has_row-update t r l u s (q ∷ rows) = ground (arith, has_row-update t r l u s rows)

has_row-reset :
    (t u s : ℕ) (rows : List Row)
    → has_row u s rows ≡ false
    → has_row u s (reset_quotas t rows) ≡ false
unfolding has_row reset_quotas
has_row-reset t u s [] h = refl
has_row-reset t u s (q ∷ rows) h = ground (arith, has_row-reset t u s rows)

IsUnique-snoc :
    (rows : List Row) (q : Row)
    → IsUnique rows
    → has_row q.tenant q.resource rows ≡ false
    → IsUnique (rows ++ q ∷ [])
unfolding has_row
IsUnique-snoc [] q u new = (refl, tt)
IsUnique-snoc (p ∷ rows) q u new = (
  ground (arith, has_row-append p.tenant p.resource rows q, u.0),
  IsUnique-snoc rows q u.1 (ground arith),
)

IsUnique-if :
    (b : Bool) (xs ys : List Row) → IsUnique xs → IsUnique ys → IsUnique (if b then xs else ys)
IsUnique-if true xs ys x y = x
IsUnique-if false xs ys x y = y

IsUnique-update : (t r l : ℕ) (rows : List Row) → IsUnique rows → IsUnique (update_quota t r l rows)
unfolding update_quota
IsUnique-update t r l [] u = tt
IsUnique-update t r l (q ∷ rows) u =
    IsUnique-if _ (record q { hard_limit = l } ∷ rows) (q ∷ update_quota t r l rows) u
      (rw has_row-update u.0, IsUnique-update t r l rows u.1)

IsUnique-reset : (t : ℕ) (rows : List Row) → IsUnique rows → IsUnique (reset_quotas t rows)
unfolding reset_quotas
IsUnique-reset t [] u = tt
IsUnique-reset t (q ∷ rows) u =
    IsUnique-if _ (reset_quotas t rows) (q ∷ reset_quotas t rows) (IsUnique-reset t rows u.1)
      (has_row-reset t q.tenant q.resource rows u.0, IsUnique-reset t rows u.1)

-- `set_quota`, when it does not refuse, and `reset_quotas` keep the constraint that a tenant has one row at most for a resource.
pub quotas-IsUnique :
    (defaults : Limits) (tenant resource limit : ℕ) (rows rows' : List Row)
    → IsUnique rows
    → set_quota defaults tenant resource limit rows ≡ done rows'
    → IsUnique rows' × IsUnique (reset_quotas tenant rows)
quotas-IsUnique defaults tenant resource limit rows rows' u e = (
  elim (set_quota_cases defaults tenant resource limit rows rows' e) [
    | inl (old, same) ↦ subst IsUnique same (IsUnique-update tenant resource limit rows u)
    | inr (new, same) ↦ subst IsUnique same (IsUnique-snoc rows _ u new)
  ],
  IsUnique-reset tenant rows u,
)
