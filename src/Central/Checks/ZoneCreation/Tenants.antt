-- ===== src/Central/Checks/ZoneCreation/Tenants.antt =====
-- Zones of a pool of which one lies below the other belong to one tenant.
use mathlib.Core.Path.{subst}
use designate_private.Prelude.{
  ℕ, ◌≤◌, ◌≡◌, ◌≢◌, refl, sym, ap, ◌∙◌, ◌⊎◌, inl, inr, Bool, true, false, Option, some, List, [],
  ◌∷◌, ◌++◌, arith, ◌==◌, if◌then◌else◌, IsIn, Bool-cases, count, length, length-append,
}
use designate_private.Prelude.Texts.{Text, dot}
use designate_private.Central.Checks.{Checked, Checked-cases, passed, ZoneRow}
use designate_private.Central.Checks.ZoneNames.{is_named, is_subzone}
use designate_private.Central.Checks.ZoneNames.Closest.{
  Encloses, HasUniqueNames, is_subzone-IsClosest, count-pos, is_named_iff,
}
use designate_private.Central.Checks.ZoneCreation.{check_parent, check_subzones, set_parent, relink}

-- `name` is the name of a zone or lies below it.
abbrev pub Covers : Text → Text → Type 0
Covers outer name = (name ≡ outer) ⊎ Encloses outer name

abbrev pub IsOneTenant : List ZoneRow → Type 0
IsOneTenant zones =
    (y z : ZoneRow)
    → IsIn y zones
    → IsIn z zones
    → y.pool_id ≡ z.pool_id
    → Covers y.name z.name
    → y.tenant_id ≡ z.tenant_id

-- Of two suffixes of a text the shorter is a suffix of the longer.
suffixes : (p q y z : Text) → p ++ dot ∷ y ≡ q ++ dot ∷ z → length y ≤ length z → Covers y z
suffixes [] [] y z e le = inl (ground arith)
suffixes [] (c ∷ q) y z e le = absurd (ground (arith, length-append q (dot ∷ z)))
suffixes (c ∷ p) [] y z e le = inr (p, ground arith)
suffixes (c ∷ p) (d ∷ q) y z e le = suffixes p q y z (ground arith) le

pub check_subzones-passed :
    (zs : List ZoneRow) (tenant_id : ℕ) (z : ZoneRow)
    → check_subzones zs tenant_id ≡ passed tt
    → IsIn z zs
    → z.tenant_id ≡ tenant_id
unfolding check_subzones
check_subzones-passed [] tenant_id z e h = absurd h
check_subzones-passed (y ∷ zs) tenant_id z e (inl same) = ground arith
check_subzones-passed (y ∷ zs) tenant_id z e (inr more) =
    check_subzones-passed zs tenant_id z (ground arith) more

check_parent-passed :
    (z : ZoneRow) (tenant_id : ℕ) (parent : Option ℕ)
    → check_parent (some z) tenant_id ≡ passed parent
    → z.tenant_id ≡ tenant_id
unfolding check_parent
check_parent-passed z tenant_id parent e = ground arith

-- A zone above a name that passed the check of its parent belongs to the tenant.
pub above-tenant :
    (zones : List ZoneRow) (name : Text) (pool_id tenant_id : ℕ) (parent : Option ℕ)
    → HasUniqueNames pool_id zones
    → IsOneTenant zones
    → check_parent (is_subzone zones name pool_id) tenant_id ≡ passed parent
    → (y : ZoneRow) → IsIn y zones
    → y.pool_id ≡ pool_id
    → Encloses y.name name
    → y.tenant_id ≡ tenant_id
above-tenant zones name pool_id tenant_id parent unique one e y member pool (p, below) =
    let closest = is_subzone-IsClosest zones name pool_id unique in
    let (z, found, le) = closest.closest y member pool (p, below) in
    let (z_in, z_pool, (q, z_below)) = closest.sound z found in
    one y z member z_in (pool ∙ sym z_pool) (suffixes p q y.name z.name (sym below ∙ z_below) le)
    ∙ check_parent-passed z tenant_id parent
        (subst (λ o. check_parent o tenant_id ≡ passed parent) found e)

-- No pool has two zones of one name, and zones above one another have one tenant.
pub record IsSound (zones : List ZoneRow) : Type 0 where
  pub unique : (pool_id : ℕ) → HasUniqueNames pool_id zones
  pub one_tenant : IsOneTenant zones

either_head :
    (b : Bool) (u v z : ZoneRow) (rest : List ZoneRow)
    → IsIn z (if b then u ∷ rest else v ∷ rest)
    → ((u ≡ z) ⊎ (v ≡ z)) ⊎ IsIn z rest
either_head true u v z rest (inl e) = inl (inl e)
either_head false u v z rest (inl e) = inl (inr e)
either_head true u v z rest (inr h) = inr h
either_head false u v z rest (inr h) = inr h

set_parent-member :
    (parent_id id : ℕ) (zs : List ZoneRow) (z : ZoneRow)
    → IsIn z (set_parent parent_id id zs)
    → (y : ZoneRow) × IsIn y zs
      × (y.name ≡ z.name)
      × (y.pool_id ≡ z.pool_id)
      × (y.tenant_id ≡ z.tenant_id)
unfolding set_parent
set_parent-member parent_id id [] z h = absurd h
set_parent-member parent_id id (x ∷ xs) z h =
    elim (either_head (x.id == id) (record x { parent_zone_id = some parent_id }) x z
      (set_parent parent_id id xs) h) [
        | inl (inl e) ↦ (
          x,
          inl refl,
          ap (λ (r : ZoneRow). r.name) e,
          ap (λ (r : ZoneRow). r.pool_id) e,
          ap (λ (r : ZoneRow). r.tenant_id) e,
        )
        | inl (inr e) ↦ (
          x,
          inl refl,
          ap (λ (r : ZoneRow). r.name) e,
          ap (λ (r : ZoneRow). r.pool_id) e,
          ap (λ (r : ZoneRow). r.tenant_id) e,
        )
        | inr more ↦
            let (y, y_in, n, p, t) = set_parent-member parent_id id xs z more in
            (y, inr y_in, n, p, t)
      ]

count-set_parent :
    (parent_id id : ℕ) (name : Text) (pool_id : ℕ) (zs : List ZoneRow)
    → count (is_named name pool_id) (set_parent parent_id id zs) ≡ count (is_named name pool_id) zs
unfolding set_parent
count-set_parent parent_id id name pool_id [] = refl
count-set_parent parent_id id name pool_id (x ∷ xs) =
    ground (arith, count-set_parent parent_id id name pool_id xs)

set_parent-IsSound :
    (parent_id id : ℕ) (zs : List ZoneRow) → IsSound zs → IsSound (set_parent parent_id id zs)
set_parent-IsSound parent_id id zs sound = record {
  unique = λ pool_id name.
      subst (λ n. n ≤ 1) (sym (count-set_parent parent_id id name pool_id zs))
        (sound.unique pool_id name);
  one_tenant = λ y z y_in z_in pool covers.
      let (y', y_old, y_name, y_pool, y_tenant) = set_parent-member parent_id id zs y y_in in
      let (z', z_old, z_name, z_pool, z_tenant) = set_parent-member parent_id id zs z z_in in
      sym y_tenant
      ∙ sound.one_tenant y' z' y_old z_old (y_pool ∙ pool ∙ sym z_pool) (
          subst (λ n. Covers n z'.name) (sym y_name)
            (subst (λ n. Covers y.name n) (sym z_name) covers))
      ∙ z_tenant;
}

pub relink-IsSound :
    (update_zone : ZoneRow → Checked (Unit {0})) (parent_id : ℕ) (subzones zs : List ZoneRow)
    → IsSound zs
    → IsSound (relink update_zone parent_id subzones zs).0
unfolding relink
relink-IsSound update_zone parent_id [] zs sound = sound
relink-IsSound update_zone parent_id (s ∷ ss) zs sound =
    let rest =
      relink-IsSound update_zone parent_id ss (set_parent parent_id s.id zs)
        (set_parent-IsSound parent_id s.id zs sound) in
    elim (Checked-cases (update_zone s)) [
      | inl (a, e) ↦ rw (relink, e) rest
      | inr (r, e) ↦ rw (relink, e) sound
    ]

member-count :
    (zs : List ZoneRow) (y : ZoneRow) (name : Text) (pool_id : ℕ)
    → count (is_named name pool_id) zs ≡ 0
    → IsIn y zs
    → y.name ≡ name
    → y.pool_id ≢ pool_id
member-count zs y name pool_id none_there member named pool = absurd (
    omega (
      arith,
      none_there,
      count-pos (is_named name pool_id) zs y member ((is_named_iff name pool_id y).1 (named, pool)),
    ))

-- A row of a name that the pool has not, whose neighbours above and below have its tenant.
module _ (row : ZoneRow) (zs : List ZoneRow) (fresh : count (is_named row.name row.pool_id) zs ≡ 0)
    (above : (y : ZoneRow)
      → IsIn y zs
      → y.pool_id ≡ row.pool_id
      → Encloses y.name row.name
      → y.tenant_id ≡ row.tenant_id)
    (below : (z : ZoneRow)
      → IsIn z zs
      → z.pool_id ≡ row.pool_id
      → Encloses row.name z.name
      → z.tenant_id ≡ row.tenant_id) where
  beside-row :
      (z : ZoneRow)
      → IsIn z zs
      → z.pool_id ≡ row.pool_id
      → Covers row.name z.name ⊎ Covers z.name row.name
      → z.tenant_id ≡ row.tenant_id
  beside-row z h pool (inl (inl same)) =
      absurd (member-count zs z row.name row.pool_id fresh h same pool)
  beside-row z h pool (inr (inl same)) =
      absurd (member-count zs z row.name row.pool_id fresh h (sym same) pool)
  beside-row z h pool (inl (inr lower)) = below z h pool lower
  beside-row z h pool (inr (inr upper)) = above z h pool upper

  insert_unique :
      ((pool_id : ℕ) → HasUniqueNames pool_id zs)
      → (pool_id : ℕ) → HasUniqueNames pool_id (row ∷ zs)
  insert_unique unique pool_id name = elim (Bool-cases (is_named name pool_id row)) [
    | inl hit ↦
        let (n, p) = (is_named_iff name pool_id row).0 hit in
        let gone : count (is_named name pool_id) zs ≡ 0 =
          subst (λ m. count (is_named m pool_id) zs ≡ 0) n
            (subst (λ q. count (is_named row.name q) zs ≡ 0) p fresh) in
        ground arith
    | inr miss ↦ ground (arith, unique pool_id name)
  ]

  pub insert-IsSound : IsSound zs → IsSound (row ∷ zs)
  insert-IsSound sound = record {
    unique = insert_unique (λ pool_id. sound.unique pool_id);
    one_tenant = λ y z y_in z_in pool covers. elim y_in [
      | inl ey ↦ elim z_in [
        | inl ez ↦ ap (λ (r : ZoneRow). r.tenant_id) (sym ey ∙ ez)
        | inr hz ↦
            ap (λ (r : ZoneRow). r.tenant_id) (sym ey)
            ∙ sym (
                beside-row z hz (sym pool ∙ ap (λ (r : ZoneRow). r.pool_id) (sym ey))
                  (inl (subst (λ (r : ZoneRow). Covers r.name z.name) (sym ey) covers)))
      ]
      | inr hy ↦ elim z_in [
        | inl ez ↦
            beside-row y hy (pool ∙ ap (λ (r : ZoneRow). r.pool_id) (sym ez))
              (inr (subst (λ (r : ZoneRow). Covers y.name r.name) (sym ez) covers))
            ∙ ap (λ (r : ZoneRow). r.tenant_id) ez
        | inr hz ↦ sound.one_tenant y z hy hz pool covers
      ]
    ];
  }
