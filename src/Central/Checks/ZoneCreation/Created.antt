-- ===== src/Central/Checks/ZoneCreation/Created.antt =====
-- create_zone keeps the zones sound.
use mathlib.Core.Path.{subst}
use designate_private.Prelude.{ℕ, ◌≡◌, refl, sym, inl, inr, List, ◌∷◌, arith, IsIn, count}
use designate_private.Prelude.Texts.{Text}
use designate_private.Central.Checks.{
  ◌>>=◌, ◌>>◌, Checked, Checked-cases, passed-injective, passed, >>-passed, >>=-passed, ZoneRow,
}
use designate_private.Central.Checks.ZoneNames.{Search, is_named, is_subzone, is_superzone}
use designate_private.Central.Checks.ZoneNames.Below.{is_superzone_complete}
use designate_private.Central.Checks.ZoneCreation.{
  Setting, Wanted, check_parent, check_subzones, insert_zone, place, permit, preflight, check_view,
  create_zone,
}
use designate_private.Central.Checks.ZoneCreation.Tenants.{
  IsSound, check_subzones-passed, above-tenant, relink-IsSound, insert-IsSound,
}

-- What the checks that passed say of the row to insert.
abbrev IsVetted : List ZoneRow → ZoneRow × List ZoneRow → Type 0
IsVetted zones (row, subzones) =
    (check_parent (is_subzone zones row.name row.pool_id) row.tenant_id ≡ passed row.parent_zone_id)
    × (subzones ≡ is_superzone zones row.name row.pool_id)
    × (check_subzones subzones row.tenant_id ≡ passed tt)

insert_zone-passed :
    (row : ZoneRow) (zones zones' : List ZoneRow)
    → insert_zone row zones ≡ passed zones'
    → (count (is_named row.name row.pool_id) zones ≡ 0) × (zones' ≡ row ∷ zones)
unfolding insert_zone
insert_zone-passed row zones zones' e = (ground arith, ground arith)

vetted-IsSound :
    (zones zones' : List ZoneRow) (row : ZoneRow) (subzones : List ZoneRow)
    → IsVetted zones (row, subzones)
    → insert_zone row zones ≡ passed zones'
    → IsSound zones
    → IsSound zones'
vetted-IsSound zones zones' row subzones (parent, found, same) inserted sound =
    let (fresh, added) = insert_zone-passed row zones zones' inserted in
    subst IsSound (sym added) (
      insert-IsSound row zones fresh
        (above-tenant zones row.name row.pool_id row.tenant_id row.parent_zone_id
          (sound.unique row.pool_id) sound.one_tenant parent)
        (λ z h pool lower. check_subzones-passed subzones row.tenant_id z same (
          subst (λ l. IsIn z l) (sym found)
            (is_superzone_complete zones row.name row.pool_id z h lower pool)))
        sound)

module _ {Pattern : Type 0} (search : Pattern → Text → Search) (setting : Setting Pattern)
    (schedule_zone : Checked ℕ) (ns_record_count : ℕ → ℕ) where
  place-IsVetted :
      (zones : List ZoneRow) (new_id : ℕ) (wanted : Wanted) (pool_id : ℕ)
      (r : ZoneRow × List ZoneRow)
      → place search setting schedule_zone ns_record_count zones new_id wanted pool_id ≡ passed r
      → IsVetted zones r
  unfolding place
  place-IsVetted zones new_id wanted pool_id r e =
      let (parent, parent_ok, rest) =
        >>=-passed (check_parent (is_subzone zones wanted.name pool_id) wanted.tenant_id) _ r e in
      let (same, last) =
        >>-passed (check_subzones (is_superzone zones wanted.name pool_id) wanted.tenant_id) _ r
          rest in
      let (_, built) = >>-passed _ _ r last in
      subst (IsVetted zones) (passed-injective _ r built) (parent_ok, refl, same)

  preflight-IsVetted :
      (zones : List ZoneRow) (new_id : ℕ) (wanted : Wanted) (r : ZoneRow × List ZoneRow)
      → preflight search setting schedule_zone ns_record_count zones new_id wanted ≡ passed r
      → IsVetted zones r
  unfolding preflight
  preflight-IsVetted zones new_id wanted r e =
      let (_, asked) =
        >>-passed (permit search setting schedule_zone ns_record_count zones wanted)
          (schedule_zone >>= λ pool_id.
            place search setting schedule_zone ns_record_count zones new_id wanted pool_id)
          r e in
      let (pool_id, _, placed) =
        >>=-passed schedule_zone
          (λ pool_id.
            place search setting schedule_zone ns_record_count zones new_id wanted pool_id)
          r asked in
      place-IsVetted zones new_id wanted pool_id r placed

  -- However create_zone ends, where no pool has two zones of one name and zones above one another
  -- in a pool belong to one tenant, this is so of the rows that it leaves.
  pub create_zone-IsSound :
      (get_view : ℕ → Checked (Unit {0})) (publish update_zone : ZoneRow → Checked (Unit {0}))
      (zones : List ZoneRow) (new_id : ℕ) (wanted : Wanted)
      → IsSound zones
      → IsSound
          (create_zone search setting schedule_zone ns_record_count get_view publish update_zone
            zones new_id wanted).0
  unfolding create_zone
  create_zone-IsSound get_view publish update_zone zones new_id wanted sound =
      elim (Checked-cases
        (preflight search setting schedule_zone ns_record_count zones new_id wanted)) [
          | inr (r, e) ↦ rw (create_zone, e) sound
          | inl ((row, subzones), e) ↦
              let vetted = preflight-IsVetted zones new_id wanted (row, subzones) e in
              let view =
                check_view search setting schedule_zone ns_record_count get_view publish update_zone
                  wanted.view_id in
              elim (Checked-cases (view >> insert_zone row zones)) [
                | inr (r, f) ↦ rw (create_zone, e, f) sound
                | inl (zones', f) ↦
                    let inserted = (>>-passed view (insert_zone row zones) zones' f).1 in
                    let kept = vetted-IsSound zones zones' row subzones vetted inserted sound in
                    elim (Checked-cases (publish row)) [
                      | inr (r, g) ↦ rw (create_zone, e, f, g) kept
                      | inl (a, g) ↦
                          rw (create_zone, e, f, g)
                            (relink-IsSound update_zone row.id subzones zones' kept)
                    ]
              ]
        ]
