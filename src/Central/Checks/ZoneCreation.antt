-- ===== src/Central/Checks/ZoneCreation.antt =====
-- create_zone and _create_zone of central/service.py, on the zones' names, pools, tenants and parents.
-- Parameters: the scheduler's answer, the number of name servers of a pool, and whether the steps
-- that write no zone of this model pass: get_view, then zone_api.create_zone with the default
-- records, and update_zone of a subzone, which puts the row back when its backend call fails.
pub mod Created
pub mod Tenants
mod Tests
use designate_private.Prelude.{
  ℕ, Bool, true, false, not, Option, none, some, List, [], ◌∷◌, ◌==◌, if◌then◌else◌, count,
}
use designate_private.Prelude.Texts.{Text}
use designate_private.Quota.{Caller, Row, Limits}
use designate_private.Central.Checks.{
  Refusal, illegal_child_zone, illegal_parent_zone, no_servers, need_view, duplicate_zone,
  forbidden, Checked, passed, refused, ◌>>=◌, ◌>>◌, refuse_if, ZoneRow, is_valid_ttl?,
}
use designate_private.Central.Checks.Quotas.{enforce_zone_quota}
use designate_private.Central.Checks.ZoneNames.{
  Search, is_valid_zone_name, is_named, is_subzone, is_superzone,
}

-- The configuration, what the policy allows, and the rows of other tables.
pub record Setting (Pattern : Type 0) : Type 0 where
  pub max_len : ℕ
  pub min_ttl : Option ℕ
  pub tlds : List Text
  pub blacklists : List Pattern
  pub may_create : Bool
  pub may_bypass : Bool
  pub may_use_low_ttl : Bool
  pub caller : Caller
  pub defaults : Limits
  pub quotas : List Row

-- The zone that is asked for; `tenant_id` is already defaulted to the user's.
pub record Wanted : Type 0 where
  pub name : Text
  pub tenant_id : ℕ
  pub ttl : Option ℕ
  pub view_id : Option ℕ

-- The parent's id, if the tenant may create a zone below it.
pub check_parent : Option ZoneRow → ℕ → Checked (Option ℕ)
check_parent none tenant_id = passed none
check_parent (some parent) tenant_id =
    if parent.tenant_id == tenant_id then passed (some parent.id) else refused illegal_child_zone

pub check_subzones : List ZoneRow → ℕ → Checked (Unit {0})
check_subzones [] tenant_id = passed tt
check_subzones (z ∷ zs) tenant_id =
    let rest = check_subzones zs tenant_id in
    if z.tenant_id == tenant_id then rest else refused illegal_parent_zone

-- The table's constraint lets one row have the name in the pool.
insert_zone : ZoneRow → List ZoneRow → Checked (List ZoneRow)
insert_zone row zones =
    if count (is_named row.name row.pool_id) zones == 0
    then passed (row ∷ zones)
    else refused duplicate_zone

-- storage.update_zone of the parent of the row with the id.
set_parent : ℕ → ℕ → List ZoneRow → List ZoneRow
set_parent parent_id id [] = []
set_parent parent_id id (z ∷ zs) =
    let rest = set_parent parent_id id zs in
    if z.id == id then record z { parent_zone_id = some parent_id } ∷ rest else z ∷ rest

module _ (update_zone : ZoneRow → Checked (Unit {0})) where
  -- The loop over the subzones, on the rows as they are so far.
  pub relink : ℕ → List ZoneRow → List ZoneRow → List ZoneRow × Checked (Unit {0})
  unfolding set_parent
  relink parent_id [] zones = (zones, passed tt)
  relink parent_id (s ∷ ss) zones =
      let rest = relink parent_id ss (set_parent parent_id s.id zones) in
      elim (update_zone s) [ passed _ ↦ rest | refused r ↦ (zones, refused r) ]

module _ {Pattern : Type 0} (search : Pattern → Text → Search) (setting : Setting Pattern)
    (schedule_zone : Checked ℕ) (ns_record_count : ℕ → ℕ) where
  -- create_zone from the pool on: the row to insert and its subzones.
  place : List ZoneRow → ℕ → Wanted → ℕ → Checked (ZoneRow × List ZoneRow)
  unfolding check_parent check_subzones
  place zones new_id wanted pool_id = do
    parent ← check_parent (is_subzone zones wanted.name pool_id) wanted.tenant_id
    check_subzones (is_superzone zones wanted.name pool_id) wanted.tenant_id
    refuse_if (ns_record_count pool_id == 0) no_servers
    passed (
      record {
        id = new_id;
        name = wanted.name;
        pool_id = pool_id;
        tenant_id = wanted.tenant_id;
        parent_zone_id = parent;
      },
      is_superzone zones wanted.name pool_id,
    )

  -- The checks before a pool is chosen.
  permit : List ZoneRow → Wanted → Checked (Unit {0})
  unfolding enforce_zone_quota is_valid_zone_name
  permit zones wanted = do
    refuse_if (not setting.may_create) forbidden
    enforce_zone_quota setting.caller setting.defaults wanted.tenant_id setting.quotas
        (count (λ (z : ZoneRow). z.tenant_id == wanted.tenant_id) zones)
    is_valid_zone_name search setting.max_len setting.tlds setting.blacklists setting.may_bypass
        wanted.name
    is_valid_ttl? setting.min_ttl setting.may_use_low_ttl wanted.ttl

  -- All that create_zone does before it calls _create_zone.
  preflight : List ZoneRow → ℕ → Wanted → Checked (ZoneRow × List ZoneRow)
  unfolding permit place
  preflight zones new_id wanted = do
    permit zones wanted
    pool_id ← schedule_zone
    place zones new_id wanted pool_id

  module _ (get_view : ℕ → Checked (Unit {0})) (publish : ZoneRow → Checked (Unit {0}))
      (update_zone : ZoneRow → Checked (Unit {0})) where
    check_view : Option ℕ → Checked (Unit {0})
    check_view none = refused need_view
    check_view (some view_id) = get_view view_id

    -- The rows that are there when create_zone ends, and how it ends. What is inserted stays when a
    -- later step raises: _create_zone is no transaction.
    pub create_zone : List ZoneRow → ℕ → Wanted → List ZoneRow × Checked (Unit {0})
    unfolding preflight check_view insert_zone relink
    create_zone zones new_id wanted = elim (preflight zones new_id wanted) [
      | refused r ↦ (zones, refused r)
      | passed (row, subzones) ↦ elim (check_view wanted.view_id >> insert_zone row zones) [
        | refused r ↦ (zones, refused r)
        | passed zones' ↦ elim (publish row) [
          | refused r ↦ (zones', refused r)
          | passed _ ↦ relink update_zone row.id subzones zones'
        ]
      ]
    ]
