-- ===== src/Storage/Recordsets.antt =====
-- The end of _find_recordsets_with_records of sqlalchemy/base.py: the rows of a join of recordsets and
-- records are put together to recordsets. A row of a recordset without records has no record; the
-- columns of a recordset besides its id, and those of a record, are values of any type.
pub mod Groups
mod Tests
use designate_private.Prelude.{
  ℕ, Bool, true, false, not, Option, none, some, List, [], ◌∷◌, ◌++◌, ◌==◌, if◌then◌else◌,
}
use designate_private.Prelude.Texts.{Text}

pub record RawRow {ℓ κ} (A : Type ℓ) (B : Type κ) : Type (ℓ ⊔ κ) where
  pub id : ℕ
  pub columns : A
  pub rdata : Option B

pub record RecordSet {ℓ κ} (A : Type ℓ) (B : Type κ) : Type (ℓ ⊔ κ) where
  pub id : ℕ
  pub columns : A
  pub zone_name : Text
  pub records : List B

module _ {ℓ κ} {A : Type ℓ} {B : Type κ} (id_zname_map : ℕ → Text)
    (same : RecordSet A B → RecordSet A B → Bool) where
  abbrev pub records_of : Option B → List B
  records_of none = []
  records_of (some rdata) = rdata ∷ []

  -- A new recordset with the row's record, if it has one.
  abbrev pub start_rrset : RawRow A B → RecordSet A B
  start_rrset row = record {
    id = row.id;
    columns = row.columns;
    zone_name = id_zname_map (row.id);
    records = records_of (row.rdata);
  }

  abbrev pub add_rdata : RecordSet A B → RawRow A B → RecordSet A B
  add_rdata rrset row = record rrset { records = rrset.records ++ records_of (row.rdata) }

  -- rrsets[-1] != current_rrset, or there is no rrset yet.
  unfoldable pub is_missing : List (RecordSet A B) → RecordSet A B → Bool
  is_missing [] current = true
  is_missing (rrset ∷ []) current = not (same rrset current)
  is_missing (rrset ∷ next ∷ rest) current = is_missing (next ∷ rest) current

  -- The loop, once there is a current recordset, and what follows it.
  unfoldable pub collect :
      List (RecordSet A B) → RecordSet A B → List (RawRow A B) → List (RecordSet A B)
  unfolding is_missing
  collect rrsets current [] = if is_missing rrsets current then rrsets ++ current ∷ [] else rrsets
  collect rrsets current (row ∷ rows) =
      let next = collect (rrsets ++ current ∷ []) (start_rrset row) rows in
      let added = collect rrsets (add_rdata current row) rows in
      if row.id == current.id then added else next

  unfoldable pub recordsets_of : List (RawRow A B) → List (RecordSet A B)
  unfolding collect
  recordsets_of [] = []
  recordsets_of (row ∷ rows) = collect [] (start_rrset row) rows
