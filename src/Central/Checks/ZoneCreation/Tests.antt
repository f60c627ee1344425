-- ===== src/Central/Checks/ZoneCreation/Tests.antt =====
-- A pool with a.ex.org and b.a.ex.org, in which ex.org is created, by their tenant and by another.
use designate_private.Prelude.{
  ℕ, ◌≡◌, ◌≤◌, refl, none, some, List, [], ◌∷◌, arith, Bool, true, false, ◌==◌, ◌&&◌, count,
}
use designate_private.Prelude.Texts.{Text, codes, text_eq, text_eq_iff, split, join, lstrip, rstrip}
use designate_private.Central.Checks.{
  ZoneRow, Checked, passed, refused, illegal_parent_zone, is_valid_ttl?,
}
use designate_private.Central.Checks.ZoneNames.{
  not_found, is_valid_zone_name, is_subzone, is_superzone,
}
use designate_private.Quota.{limit_check}
use designate_private.Central.Checks.Quotas.{enforce_zone_quota}
use designate_private.Central.Checks.ZoneCreation.{Setting, Wanted, create_zone}
use designate_private.Central.Checks.ZoneCreation.Tenants.{IsSound}
use designate_private.Central.Checks.ZoneCreation.Created.{create_zone-IsSound}

abbrev middle : ZoneRow
middle = record {
  id = 1;
  name = codes "a.ex.org.";
  pool_id = 0;
  tenant_id = 5;
  parent_zone_id = none;
}

abbrev bottom : ZoneRow
bottom = record {
  id = 2;
  name = codes "b.a.ex.org.";
  pool_id = 0;
  tenant_id = 5;
  parent_zone_id = some 1;
}

abbrev elsewhere : ZoneRow
elsewhere = record {
  id = 9;
  name = codes "ex.org.";
  pool_id = 1;
  tenant_id = 6;
  parent_zone_id = none;
}

abbrev zones : List ZoneRow
zones = middle ∷ bottom ∷ elsewhere ∷ []

abbrev setting : Setting Text
setting = record {
  max_len = 255;
  min_ttl = none;
  tlds = [];
  blacklists = [];
  may_create = true;
  may_bypass = false;
  may_use_low_ttl = false;
  caller = record { all_tenants = false; own_tenant = 5 };
  defaults = (0, 10) ∷ [];
  quotas = [];
}

abbrev ask : ℕ → Wanted
ask tenant = record { name = codes "ex.org."; tenant_id = tenant; ttl = none; view_id = some 4 }

abbrev create : Wanted → List ZoneRow × Checked (Unit {0})
create =
    create_zone (λ (p : Text) (name : Text). not_found) setting (passed 0) (λ pool. 2)
      (λ view. passed tt) (λ row. passed tt) (λ row. passed tt) zones 3

other_tenant_refused : create (ask 6) ≡ (zones, refused illegal_parent_zone)
unfolding create_zone is_valid_zone_name enforce_zone_quota is_valid_ttl? limit_check split lstrip
    rstrip is_subzone is_superzone join
other_tenant_refused = refl

-- Both zones below get the new zone as their parent, the lower one too.
lower_zone_relinked : create (ask 5) ≡ (
  record { id = 3; name = codes "ex.org."; pool_id = 0; tenant_id = 5; parent_zone_id = none }
      ∷ record middle { parent_zone_id = some 3 }
      ∷ record bottom { parent_zone_id = some 3 }
      ∷ elsewhere
      ∷ [],
  passed tt,
)
unfolding create_zone is_valid_zone_name enforce_zone_quota is_valid_ttl? limit_check split lstrip
    rstrip is_subzone is_superzone join
lower_zone_relinked = refl

apart : (name : Text) → (text_eq middle.name name && text_eq bottom.name name) ≡ false
apart name = ground (arith, (text_eq_iff middle.name name).0, (text_eq_iff bottom.name name).0)

unique_names :
    (a b c : Bool) (pool_id : ℕ)
    → (a && b) ≡ false
    → count (λ (t : Bool × ℕ). t.0 && (t.1 == pool_id)) ((a, 0) ∷ (b, 0) ∷ (c, 1) ∷ []) ≤ 1
unique_names a b c pool_id h = ground arith

zones_IsSound : IsSound zones
zones_IsSound = record {
  unique = λ pool_id name.
      unique_names (text_eq middle.name name) (text_eq bottom.name name)
        (text_eq elsewhere.name name) pool_id (apart name);
  one_tenant = λ y z y_in z_in pool covers. ground arith;
}

create_zone-IsSound_example : IsSound (create (ask 5)).0
create_zone-IsSound_example =
    create_zone-IsSound (λ (p : Text) (name : Text). not_found) setting (passed 0) (λ pool. 2)
      (λ view. passed tt) (λ row. passed tt) (λ row. passed tt) zones 3 (ask 5) zones_IsSound
