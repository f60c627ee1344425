-- ===== src/Central/Checks/ZoneNames/Tests.antt =====
-- Two zones of a pool, example.org and sub.example.org.
use designate_private.Prelude.{◌≡◌, refl, none, some, List, [], ◌∷◌, arith}
use designate_private.Prelude.Texts.{codes, text_eq_iff, split, join}
use designate_private.Central.Checks.{ZoneRow}
use designate_private.Central.Checks.ZoneNames.{is_subzone, find_one, is_superzone}
use designate_private.Central.Checks.ZoneNames.Closest.{
  HasUniqueNames, IsClosest, is_subzone-IsClosest,
}

abbrev outer_zone : ZoneRow
outer_zone = record {
  id = 1;
  name = codes "example.org.";
  pool_id = 0;
  tenant_id = 5;
  parent_zone_id = none;
}

abbrev inner_zone : ZoneRow
inner_zone = record {
  id = 2;
  name = codes "sub.example.org.";
  pool_id = 0;
  tenant_id = 5;
  parent_zone_id = some 1;
}

abbrev zones : List ZoneRow
zones = outer_zone ∷ inner_zone ∷ []

closest_is_inner : is_subzone zones (codes "a.b.sub.example.org.") 0 ≡ some inner_zone
unfolding is_subzone split find_one join
closest_is_inner = refl

not_below_itself : is_subzone zones (codes "example.org.") 0 ≡ none
unfolding is_subzone split find_one join
not_below_itself = refl

below_outer : is_superzone zones (codes "example.org.") 0 ≡ inner_zone ∷ []
unfolding is_superzone
below_outer = refl

unique_names : HasUniqueNames 0 zones
unique_names name = ground (
  arith,
  (text_eq_iff (codes "example.org.") name).0,
  (text_eq_iff (codes "sub.example.org.") name).0,
)

is_subzone-IsClosest_example :
    IsClosest zones (codes "a.sub.example.org.") 0 (is_subzone zones (codes "a.sub.example.org.") 0)
is_subzone-IsClosest_example =
    is_subzone-IsClosest zones (codes "a.sub.example.org.") 0 unique_names
