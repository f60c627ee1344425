-- ===== src/Central/Store.antt =====
-- The tables that the status updates of central read and write, and the storage operations of
-- storage/impl_sqlalchemy that they call. The lists hold the rows that are not soft-deleted: that is
-- what a query without `show_deleted` sees, and a soft delete takes a row out of its list. `none` is
-- the NotFound error that ends the transaction.
pub mod Rows
use designate_private.Prelude.{
  ℕ, Bool, true, false, Option, none, some, List, [], ◌∷◌, ◌==◌, if◌then◌else◌, count,
}
use designate_private.Objects.{Action, Status, Zone}

pub record Record : Type 0 where
  pub id : ℕ
  pub zone_id : ℕ
  pub recordset_id : ℕ
  pub action : Action
  pub status : Status
  pub serial : ℕ

-- Of the recordsets the ids matter here, and which records point to them.
pub record Store : Type 0 where
  pub zones : List Zone
  pub recordsets : List ℕ
  pub records : List Record
  -- Which record on the DNS appliance (zdns) belongs to a record, and those records.
  pub associations : List (ℕ × ℕ)
  pub zdns_records : List ℕ

abbrev pub has_id : ℕ → Record → Bool
has_id i r = r.id == i

abbrev pub is_part_of : ℕ → Record → Bool
is_part_of rs r = r.recordset_id == rs

module _ {A : Type 0} where
  -- A WHERE clause.
  unfoldable pub select : (A → Bool) → List A → List A
  select p [] = []
  select p (x ∷ xs) = let rest = select p xs in if p x then x ∷ rest else rest

  -- DELETE … WHERE
  unfoldable pub reject : (A → Bool) → List A → List A
  reject p [] = []
  reject p (x ∷ xs) = let rest = reject p xs in if p x then rest else x ∷ rest

-- UPDATE … WHERE id
unfoldable pub write : Record → List Record → List Record
write r [] = []
write r (x ∷ xs) = (if has_id r.id x then r else x) ∷ write r xs

-- A query for one row finds it when there is exactly one.
unfoldable pub update_record : Record → Store → Option Store
unfolding write
update_record r s =
    if count (has_id r.id) s.records == 1
    then some (record s { records = write r s.records })
    else none

unfoldable pub delete_record : ℕ → Store → Option Store
unfolding reject
delete_record i s =
    if count (has_id i) s.records == 1
    then some (record s { records = reject (has_id i) s.records })
    else none

-- get_recordset, the test `len(recordset.records) == 0`, and delete_recordset.
unfoldable pub delete_if_empty : ℕ → Store → Option Store
unfolding reject
delete_if_empty rs s =
    if count (λ x. x == rs) s.recordsets == 1
    then (if count (is_part_of rs) s.records == 0
        then some (record s { recordsets = reject (λ x. x == rs) s.recordsets })
        else some s)
    else none

-- get_record_association and delete_record_association: the association's zdns record is returned.
unfoldable pub take_association : ℕ → Store → Option (ℕ × Store)
unfolding select reject
take_association i s = elim (select (λ a. a.0 == i) s.associations) [
  | (record_id, zdns_id) ∷ [] ↦
      some (zdns_id, record s { associations = reject (λ a. a.0 == i) s.associations })
  | _ ↦ none
]

unfoldable pub delete_zdns_record : ℕ → Store → Option Store
unfolding reject
delete_zdns_record z s =
    if count (λ x. x == z) s.zdns_records == 1
    then some (record s { zdns_records = reject (λ x. x == z) s.zdns_records })
    else none

abbrev pub has_zone_id : ℕ → Zone → Bool
has_zone_id i z = z.id == i

unfoldable pub write_zone : Zone → List Zone → List Zone
write_zone z [] = []
write_zone z (x ∷ xs) = (if has_zone_id z.id x then z else x) ∷ write_zone z xs

unfoldable pub update_zone : Zone → Store → Option Store
unfolding write_zone
update_zone z s =
    if count (has_zone_id z.id) s.zones == 1
    then some (record s { zones = write_zone z s.zones })
    else none

unfoldable pub delete_zone : ℕ → Store → Option Store
unfolding reject
delete_zone i s =
    if count (has_zone_id i) s.zones == 1
    then some (record s { zones = reject (has_zone_id i) s.zones })
    else none

unfoldable pub get_zone : ℕ → Store → Option Zone
unfolding select
get_zone i s = elim (select (has_zone_id i) s.zones) [ z ∷ [] ↦ some z | _ ↦ none ]
