-- ===== src/Quota/Limits.antt =====
-- What limit_check compares with: the tenant's own limits and the defaults.
use designate_private.Prelude.{
  ℕ, ◌<◌, ◌≡◌, ◌↔◌, ◌⊎◌, refl, true, false, ◌&&◌, none, some, List, [], ◌∷◌, ◌==◌, if◌then◌else◌,
  arith, inl, inr, sym, ap, ◌∙◌, ◌≢◌, map, All, AreDistinct, IsIn, Bool-cases, Option-cases,
  ==_refl, ==_eq, ==_false,
}
use mathlib.Core.Path.{subst}
use designate_private.Quota.InForce.{in_force, or_else, lookup-append, set_quota-in_force}
use designate_private.Quota.{
  Caller, Limits, Row, check_values, done, get_quotas, has_row, limit_check, lookup, matches,
  own_quotas, sees, set_quota, within,
}

-- The resources that are checked have limits that are found, and their values are below them.
abbrev AreBelow : Limits → List (ℕ × ℕ) → Type 0
AreBelow quotas [] = Unit
AreBelow quotas ((resource, value) ∷ rest) =
    ((limit : ℕ) × (lookup resource quotas ≡ some limit) × (value < limit)) × AreBelow quotas rest

check_values_inv :
    (quotas : Limits) (resource value : ℕ) (rest : List (ℕ × ℕ))
    → check_values quotas ((resource, value) ∷ rest) ≡ within
    → (limit : ℕ) × (lookup resource quotas ≡ some limit)
      × (value < limit)
      × (check_values quotas rest ≡ within)
unfolding check_values
check_values_inv quotas resource value rest h = ground arith

check_values_intro :
    (quotas : Limits) (resource value : ℕ) (rest : List (ℕ × ℕ)) (limit : ℕ)
    → lookup resource quotas ≡ some limit
    → value < limit
    → check_values quotas rest ≡ within
    → check_values quotas ((resource, value) ∷ rest) ≡ within
unfolding check_values
check_values_intro quotas resource value rest limit found below more = ground arith

check_values-AreBelow :
    (quotas : Limits) (values : List (ℕ × ℕ))
    → check_values quotas values ≡ within ↔ AreBelow quotas values
unfolding check_values
check_values-AreBelow quotas [] = (λ _. tt, λ _. refl)
check_values-AreBelow quotas ((resource, value) ∷ rest) = (
  λ h.
      let (limit, found, below, more) = check_values_inv quotas resource value rest h in
      ((limit, found, below), (check_values-AreBelow quotas rest).0 more),
  λ h.
      check_values_intro quotas resource value rest h.0.0 h.0.1 h.0.2
        ((check_values-AreBelow quotas rest).1 h.1),
)

-- The limit of a row of the tenant for the resource, which the caller sees.
abbrev pub IsOwn : Caller → ℕ → List Row → ℕ → ℕ → Type 0
IsOwn caller tenant rows resource limit =
    ((caller.all_tenants ≡ true) ⊎ (tenant ≡ caller.own_tenant))
    × ((q : Row) × IsIn q rows
        × (q.tenant ≡ tenant)
        × (q.resource ≡ resource)
        × (q.hard_limit ≡ limit))

-- The tenant's own limit, or the default where the caller sees none of its own.
abbrev pub IsLimit : Caller → Limits → ℕ → List Row → ℕ → ℕ → Type 0
IsLimit caller defaults tenant rows resource limit =
    IsOwn caller tenant rows resource limit
    ⊎ (((l : ℕ) → ¬ IsOwn caller tenant rows resource l) × IsIn (resource, limit) defaults)

-- The table's constraint: at most one row for a tenant and a resource.
abbrev pub IsUnique : List Row → Type 0
IsUnique [] = Unit
IsUnique (q ∷ rows) = (has_row q.tenant q.resource rows ≡ false) × IsUnique rows

-- Every resource that is checked has a limit, and its value is below it.
abbrev pub AllWithin : Caller → Limits → ℕ → List Row → List (ℕ × ℕ) → Type 0
AllWithin caller defaults tenant rows [] = Unit
AllWithin caller defaults tenant rows ((resource, value) ∷ rest) =
    ((limit : ℕ) × IsLimit caller defaults tenant rows resource limit × (value < limit))
    × AllWithin caller defaults tenant rows rest

lookup-IsIn : (r l : ℕ) (d : Limits) → lookup r d ≡ some l → IsIn (r, l) d
unfolding lookup
lookup-IsIn r l [] e = cc
lookup-IsIn r l ((k, v) ∷ d) e = elim (Bool-cases (k == r)) [
  | inl same ↦
      let both : some v ≡ some l = ground arith in
      let value : v ≡ l = cc in inl (ap (λ n. (n, v)) (==_eq k r same) ∙ ap (λ n. (r, n)) value)
  | inr other ↦ inr (lookup-IsIn r l d (ground arith))
]

absent_key :
    (k r l : ℕ) (d : Limits) → All (λ m. k ≢ m) (map (λ (p : ℕ × ℕ). p.0) d) → IsIn (r, l) d → k ≢ r
absent_key k r l [] h i = absurd i
absent_key k r l ((m, v) ∷ d) h (inl e) = λ same. h.0 (same ∙ sym (ap (λ (p : ℕ × ℕ). p.0) e))
absent_key k r l ((m, v) ∷ d) h (inr i) = absent_key k r l d h.1 i

IsIn-lookup :
    (r l : ℕ) (d : Limits)
    → AreDistinct (map (λ (p : ℕ × ℕ). p.0) d)
    → IsIn (r, l) d
    → lookup r d ≡ some l
unfolding lookup
IsIn-lookup r l [] h i = absurd i
IsIn-lookup r l ((k, v) ∷ d) h (inl e) =
    rw (ap (λ (p : ℕ × ℕ). p.0) e, ==_refl r) (ap (λ (p : ℕ × ℕ). some p.1) e)
IsIn-lookup r l ((k, v) ∷ d) h (inr i) =
    rw (==_false k r (absent_key k r l d h.0 i)) (IsIn-lookup r l d h.1 i)

own_step :
    (c : Caller) (t r : ℕ) (q : Row) (rows : List Row)
    → lookup r (own_quotas c t (q ∷ rows)) ≡ (
        if (q.tenant == t) && (sees c t && (q.resource == r))
        then some q.hard_limit
        else lookup r (own_quotas c t rows))
unfolding own_quotas lookup sees
own_step c t r q rows = ground arith

own_quotas-IsOwn :
    (c : Caller) (t r l : ℕ) (rows : List Row)
    → lookup r (own_quotas c t rows) ≡ some l
    → IsOwn c t rows r l
unfolding own_quotas lookup sees
own_quotas-IsOwn c t r l [] e = cc
own_quotas-IsOwn c t r l (q ∷ rows) e =
    elim (Bool-cases ((q.tenant == t) && (sees c t && (q.resource == r)))) [
      | inl here ↦
          let both : some q.hard_limit ≡ some l = ground (arith, own_step c t r q rows) in
          (seen here, (q, inl refl, ground arith, ground arith, (cc)))
      | inr elsewhere ↦
          let (visible, (p, i, e0, f0, g0)) =
            own_quotas-IsOwn c t r l rows (ground (arith, own_step c t r q rows)) in
          (visible, (p, inr i, e0, f0, g0))
    ]
  where
    seen :
        ((q.tenant == t) && (sees c t && (q.resource == r))) ≡ true
        → (c.all_tenants ≡ true) ⊎ (t ≡ c.own_tenant)
    seen here = ground arith

IsIn-has_row :
    (t r : ℕ) (rows : List Row) (q : Row)
    → IsIn q rows
    → q.tenant ≡ t
    → q.resource ≡ r
    → has_row t r rows ≡ true
unfolding has_row matches
IsIn-has_row t r [] q i e f = absurd i
IsIn-has_row t r (p ∷ rows) q (inl same) e f = rw (same, e, f, ==_refl t, ==_refl r) refl
IsIn-has_row t r (p ∷ rows) q (inr i) e f = ground (arith, IsIn-has_row t r rows q i e f)

IsOwn-own_quotas :
    (c : Caller) (t r l : ℕ) (rows : List Row)
    → IsUnique rows
    → IsOwn c t rows r l
    → lookup r (own_quotas c t rows) ≡ some l
unfolding sees
IsOwn-own_quotas c t r l [] u (v, (q, i, e, f, g)) = absurd i
IsOwn-own_quotas c t r l (p ∷ rows) u (v, (q, inl same, e, f, g)) =
    rw (own_step c t r p rows, same, e, f, g) (ground arith)
IsOwn-own_quotas c t r l (p ∷ rows) u (v, (q, inr i, e, f, g)) =
    let there = IsIn-has_row t r rows q i e f in
    let later = IsOwn-own_quotas c t r l rows u.1 (v, (q, i, e, f, g)) in
    elim (Bool-cases ((p.tenant == t) && (sees c t && (p.resource == r)))) [
      | inl same ↦ absurd (
          let a : t ≡ p.tenant = ground arith in
          let b : r ≡ p.resource = ground arith in
          let again : has_row p.tenant p.resource rows ≡ true =
            IsIn-has_row p.tenant p.resource rows q i (e ∙ a) (f ∙ b) in
          let clash : true ≡ false = sym again ∙ u.0 in cc)
      | inr other ↦ ground (arith, own_step c t r p rows, later)
    ]

in_force-IsLimit :
    (c : Caller) (defaults : Limits) (t : ℕ) (rows : List Row) (r l : ℕ)
    → IsUnique rows
    → AreDistinct (map (λ (p : ℕ × ℕ). p.0) defaults)
    → in_force c defaults t rows r ≡ some l ↔ IsLimit c defaults t rows r l
unfolding get_quotas
in_force-IsLimit c defaults t rows r l u d = (
  λ e. elim (Option-cases (lookup r (own_quotas c t rows))) [
    | inl nothing ↦ inr (
      λ k own. (let x : none ≡ some k = sym nothing ∙ IsOwn-own_quotas c t r k rows u own in cc),
      lookup-IsIn r l defaults (
          ap (λ o. or_else o (lookup r defaults)) (sym nothing)
          ∙ sym (lookup-append r (own_quotas c t rows) defaults)
          ∙ e),
    )
    | inr (k, found) ↦ inl (
        own_quotas-IsOwn c t r l rows (
          found
          ∙ ap (λ o. or_else o (lookup r defaults)) (sym found)
          ∙ sym (lookup-append r (own_quotas c t rows) defaults)
          ∙ e))
  ],
  λ h. lookup-append r (own_quotas c t rows) defaults ∙ chosen h,
)
  where
    chosen :
        IsLimit c defaults t rows r l
        → or_else (lookup r (own_quotas c t rows)) (lookup r defaults) ≡ some l
    chosen (inl own) = ap (λ o. or_else o (lookup r defaults)) (IsOwn-own_quotas c t r l rows u own)
    chosen (inr (no_own, i)) = elim (Option-cases (lookup r (own_quotas c t rows))) [
      | inl nothing ↦ ap (λ o. or_else o (lookup r defaults)) nothing ∙ IsIn-lookup r l defaults d i
      | inr (k, found) ↦ absurd (no_own k (own_quotas-IsOwn c t r k rows found))
    ]

AreBelow-AllWithin :
    (c : Caller) (defaults : Limits) (t : ℕ) (rows : List Row) (values : List (ℕ × ℕ))
    → IsUnique rows
    → AreDistinct (map (λ (p : ℕ × ℕ). p.0) defaults)
    → AreBelow (get_quotas c defaults t rows) values ↔ AllWithin c defaults t rows values
AreBelow-AllWithin c defaults t rows [] u d = (λ _. tt, λ _. tt)
AreBelow-AllWithin c defaults t rows ((resource, value) ∷ rest) u d =
    let more = AreBelow-AllWithin c defaults t rows rest u d in
    (
      λ h.
          let ((limit, found, below), others) = h in
          (
            (limit, (in_force-IsLimit c defaults t rows resource limit u d).0 found, below),
            more.0 others,
          ),
      λ h.
          let ((limit, is, below), others) = h in
          (
            (limit, (in_force-IsLimit c defaults t rows resource limit u d).1 is, below),
            more.1 others,
          ),
    )

-- Where a tenant has at most one row for a resource and a resource at most one default, `limit_check`
-- passes exactly when every resource that is asked for has a limit and each value lies below its limit:
-- the one of the tenant's row, if there is one and the caller sees it, and else the default.
pub limit_check-AllWithin :
    (caller : Caller) (defaults : Limits) (tenant : ℕ) (rows : List Row) (values : List (ℕ × ℕ))
    → IsUnique rows
    → AreDistinct (map (λ (p : ℕ × ℕ). p.0) defaults)
    → limit_check caller defaults tenant rows values ≡ within
      ↔ AllWithin caller defaults tenant rows values
unfolding limit_check
limit_check-AllWithin caller defaults tenant rows values u d =
    let first = check_values-AreBelow (get_quotas caller defaults tenant rows) values in
    let second = AreBelow-AllWithin caller defaults tenant rows values u d in
    (λ e. second.0 (first.0 e), λ h. first.1 (second.1 h))

-- Two dictionaries with the same limits say the same of all values.
check_values-cong :
    (quotas others : Limits) (values : List (ℕ × ℕ))
    → ((resource : ℕ) → lookup resource quotas ≡ lookup resource others)
    → check_values quotas values ≡ check_values others values
unfolding check_values
check_values-cong quotas others [] same = refl
check_values-cong quotas others ((resource, value) ∷ rest) same =
    ground (arith, same resource, check_values-cong quotas others rest same)

seen-sees : (c : Caller) (t : ℕ) → (c.all_tenants ≡ true) ⊎ (t ≡ c.own_tenant) → sees c t ≡ true
unfolding sees
seen-sees c t (inl all) = rw all refl
seen-sees c t (inr own) = ground arith

-- When `set_quota` does not refuse the resource, then for every caller that sees the tenant's rows a
-- value of the resource passes `limit_check` exactly when it is below the new limit; and the checks of
-- every other tenant, for any caller and any values, end as they did before.
pub set_quota-limit_check :
    (defaults : Limits) (tenant resource limit : ℕ) (rows rows' : List Row) (caller other : Caller)
    (value u : ℕ) (values : List (ℕ × ℕ))
    → set_quota defaults tenant resource limit rows ≡ done rows'
    → (caller.all_tenants ≡ true) ⊎ (tenant ≡ caller.own_tenant)
    → (limit_check caller defaults tenant rows' ((resource, value) ∷ []) ≡ within ↔ value < limit)
      × ((u ≡ tenant)
          ⊎ (limit_check other defaults u rows' values ≡ limit_check other defaults u rows values))
unfolding limit_check
set_quota-limit_check defaults tenant resource limit rows rows' caller other value u values e seen =
    let changed : in_force caller defaults tenant rows' resource ≡ some limit =
      rw
        (
          set_quota-in_force caller defaults tenant resource limit tenant resource rows rows' e,
          ==_refl tenant,
          ==_refl resource,
          seen-sees caller tenant seen,
        )
        refl in
    let below =
      check_values-AreBelow (get_quotas caller defaults tenant rows') ((resource, value) ∷ []) in
    (
      (
        λ passes.
            let ((l, found, under), _) = below.0 passes in
            let both : some l ≡ some limit = sym found ∙ changed in
            let same : l ≡ limit = cc in subst (λ n. value < n) same under,
        λ under. below.1 ((limit, changed, under), tt),
      ),
      elim (Bool-cases (u == tenant)) [
        | inl same ↦ inl (==_eq u tenant same)
        | inr differs ↦ inr (
            check_values-cong (get_quotas other defaults u rows') (get_quotas other defaults u rows)
              values
              (λ s.
                set_quota-in_force other defaults tenant resource limit u s rows rows' e
                ∙ rw differs refl))
      ],
    )
