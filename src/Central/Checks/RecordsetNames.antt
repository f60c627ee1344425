-- ===== src/Central/Checks/RecordsetNames.antt =====
-- The placement of a recordset in central/service.py: _is_valid_recordset_name,
-- _is_valid_recordset_placement, _is_valid_recordset_placement_subzone, _is_valid_recordset_records
-- and _validate_recordset. Of a type it matters whether it is CNAME.
pub mod Suffix
pub mod Exclusive
mod Tests
use designate_private.Prelude.{
  ℕ, Bool, true, false, not, ◌&&◌, ◌||◌, Option, none, some, List, [], ◌∷◌, ◌==◌, ltb, leb,
  if◌then◌else◌, length,
}
use designate_private.Prelude.Texts.{Text, text_eq, ends_with, dot}
use designate_private.Central.Checks.{
  Refusal, not_fqdn, recordset_name_too_long, not_in_zone, cname_at_apex, cname_shares_name,
  in_child_zone, too_many_cname_records, Checked, passed, refused, ◌>>=◌, ◌>>◌, refuse_if, ZoneRow,
  is_valid_ttl?,
}

pub record RecordsetRow : Type 0 where
  pub id : ℕ
  pub zone_id : ℕ
  pub name : Text
  pub is_cname : Bool

-- `recordset_name != zone['name'] and not recordset_name.endswith("." + zone['name'])`
pub is_outside : Text → Text → Bool
is_outside zone_name name = not (text_eq name zone_name) && not (ends_with name (dot ∷ zone_name))

pub is_valid_recordset_name : ℕ → Text → Text → Checked (Unit {0})
unfolding is_outside
is_valid_recordset_name max_len zone_name name = do
  refuse_if (not (ends_with name (dot ∷ []))) not_fqdn
  refuse_if (ltb max_len (length name)) recordset_name_too_long
  refuse_if (is_outside zone_name name) not_in_zone

-- The criterion of the placement: for a type that is not CNAME, only CNAMEs.
pub shares_name : ℕ → Text → Bool → RecordsetRow → Bool
shares_name zone_id name cname r =
    (r.zone_id == zone_id) && text_eq r.name name && (if cname then true else r.is_cname)

pub find_recordsets : (RecordsetRow → Bool) → List RecordsetRow → List RecordsetRow
find_recordsets p [] = []
find_recordsets p (r ∷ rs) = let rest = find_recordsets p rs in if p r then r ∷ rest else rest

-- The first of them has the id; `none` is a recordset that is not stored yet.
is_itself : Option ℕ → RecordsetRow → Bool
is_itself none r = false
is_itself (some i) r = r.id == i

-- `(len == 1 and recordsets[0].id != recordset_id) or len > 1`
is_taken : Option ℕ → List RecordsetRow → Bool
unfolding is_itself
is_taken own [] = false
is_taken own (r ∷ []) = not (is_itself own r)
is_taken own _ = true

pub is_valid_recordset_placement :
    List RecordsetRow → ZoneRow → Text → Bool → Option ℕ → Checked (Unit {0})
unfolding find_recordsets shares_name is_taken
is_valid_recordset_placement recordsets zone name cname own = do
  refuse_if (cname && text_eq name zone.name) cname_at_apex
  refuse_if (is_taken own (find_recordsets (shares_name zone.id name cname) recordsets))
      cname_shares_name

is_child_of : ℕ → ZoneRow → Bool
is_child_of zone_id z = elim z.parent_zone_id [ none ↦ false | some i ↦ i == zone_id ]

-- The loop over the child zones: any exception of the name check means that the name is not there.
outside_children : ℕ → List ZoneRow → ℕ → Text → Checked (Unit {0})
unfolding is_child_of is_valid_recordset_name
outside_children zone_id [] max_len name = passed tt
outside_children zone_id (z ∷ zs) max_len name =
    let rest = outside_children zone_id zs max_len name in
    if is_child_of zone_id z
    then (elim (is_valid_recordset_name max_len z.name name) [
      | passed _ ↦ refused in_child_zone
      | refused _ ↦ rest
    ])
    else rest

pub is_valid_recordset_placement_subzone : List ZoneRow → ZoneRow → ℕ → Text → Checked (Unit {0})
unfolding outside_children
is_valid_recordset_placement_subzone zones zone max_len name =
    if text_eq zone.name name then passed tt else outside_children zone.id zones max_len name

pub is_valid_recordset_records : Bool → ℕ → Checked (Unit {0})
is_valid_recordset_records cname record_count =
    refuse_if (ltb 1 record_count && cname) too_many_cname_records

-- What the checks read besides the zone and the recordset.
pub record Site : Type 0 where
  pub zones : List ZoneRow
  pub recordsets : List RecordsetRow
  pub max_len : ℕ
  pub min_ttl : Option ℕ
  pub may_use_low_ttl : Bool

-- `ttl` is the one that is new or changed; `own` is the id of a stored recordset.
pub validate_recordset : Site → ZoneRow → Option ℕ → Text → Bool → Option ℕ → ℕ → Checked (Unit {0})
unfolding is_valid_recordset_name is_valid_recordset_placement is_valid_recordset_placement_subzone
    is_valid_recordset_records
validate_recordset site zone ttl name cname own record_count = do
  is_valid_ttl? site.min_ttl site.may_use_low_ttl ttl
  is_valid_recordset_name site.max_len zone.name name
  is_valid_recordset_placement site.recordsets zone name cname own
  is_valid_recordset_placement_subzone site.zones zone site.max_len name
  is_valid_recordset_records cname record_count

-- Storage's create_recordset and update_recordset: a row of a new id is added, another is replaced.
pub put : RecordsetRow → List RecordsetRow → List RecordsetRow
put r [] = r ∷ []
put r (x ∷ xs) = let rest = put r xs in if x.id == r.id then r ∷ xs else x ∷ rest
