-- ===== src/Storage/Rows.antt =====
-- sqlalchemy/base.py: creating, finding, updating and deleting the rows of a table. A column `deleted`
-- of "0" is `none`; the columns that the code does not name are a dictionary. The database's unique
-- constraints are a parameter, which tells of rows that break one.
pub mod Outcomes
pub mod Updating
pub mod Deleting
mod Tests
use designate_private.Prelude.{
  ℕ, zero, suc, ◌+◌, Bool, true, false, not, ◌&&◌, ◌||◌, Option, none, some, List, [], ◌∷◌, ◌==◌,
  if◌then◌else◌, count, take,
}
use designate_private.Objects.Tracking.{store}

pub record Table : Type 0 where
  pub has_tenant_id : Bool
  pub has_deleted : Bool
  pub has_version : Bool

pub record Context : Type 0 where
  pub all_tenants : Bool
  pub tenant : ℕ
  pub show_deleted : Bool

pub record Row {ℓ} (A : Type ℓ) : Type ℓ where
  pub id : ℕ
  pub tenant_id : Option ℕ
  pub deleted : Option ℕ
  pub version : ℕ
  pub columns : List (ℕ × A)

-- The SET clause: the object's changed fields, each once. `none` leaves the column.
pub record Changes {ℓ} (A : Type ℓ) : Type ℓ where
  pub new_tenant : Option ℕ
  pub new_deleted : Option ℕ
  pub new_columns : List (ℕ × A)

pub data Answer {ℓ} (A : Type ℓ) : Type ℓ where
  found : Option (Row A) → Answer A
  duplicate not_found : Answer A

module _ {ℓ} {A : Type ℓ} (table : Table) (context : Context) where
  -- A row of no tenant is everyone's.
  unfoldable pub passes_tenant : Row A → Bool
  passes_tenant row =
      if table.has_tenant_id && not (context.all_tenants)
      then elim (row.tenant_id) [ none ↦ true | some t ↦ t == context.tenant ]
      else true

  unfoldable pub passes_deleted : Row A → Bool
  passes_deleted row =
      if table.has_deleted && not (context.show_deleted)
      then elim (row.deleted) [ none ↦ true | some d ↦ false ]
      else true

  unfoldable pub is_visible : Row A → Bool
  unfolding passes_tenant passes_deleted
  is_visible row = passes_tenant row && passes_deleted row

  abbrev pub matches : ℕ → Row A → Bool
  matches id row = (row.id == id) && is_visible row

  unfoldable pub select : (Row A → Bool) → List (Row A) → List (Row A)
  unfolding is_visible
  select criterion [] = []
  select criterion (row ∷ rows) =
      let rest = select criterion rows in
      if criterion row && is_visible row then row ∷ rest else rest

  unfoldable pub only_one : List (Row A) → Answer A
  only_one (row ∷ []) = found (some row)
  only_one _ = not_found

  -- `_find` with `one`: two rows that match are not found either.
  unfoldable pub find_one : (Row A → Bool) → List (Row A) → Answer A
  unfolding select only_one
  find_one criterion rows = only_one (take 2 (select criterion rows))

  unfoldable pub store_all : List (ℕ × A) → List (ℕ × A) → List (ℕ × A)
  unfolding store
  store_all [] columns = columns
  store_all ((name, a) ∷ rest) columns = store_all rest (store name a columns)

  unfoldable pub set_columns : Changes A → Row A → Row A
  unfolding store_all
  set_columns changes row = record row {
    tenant_id = elim (changes.new_tenant) [ none ↦ row.tenant_id | some t ↦ some t ];
    deleted = elim (changes.new_deleted) [ none ↦ row.deleted | some d ↦ some d ];
    version = if table.has_version then suc (row.version) else row.version;
    columns = store_all (changes.new_columns) (row.columns);
  }

  unfoldable pub update_rows : ℕ → Changes A → List (Row A) → List (Row A)
  unfolding set_columns
  update_rows id changes [] = []
  update_rows id changes (row ∷ rows) =
      (if matches id row then set_columns changes row else row) ∷ update_rows id changes rows

  -- The row of an id, whoever asks.
  unfoldable pub refetch : ℕ → List (Row A) → Option (Row A)
  refetch id [] = none
  refetch id (row ∷ rows) = let rest = refetch id rows in if row.id == id then some row else rest

  -- `_create`: the row as it is inserted, its id included.
  create : (List (Row A) → Bool) → Row A → List (Row A) → List (Row A) × Answer A
  unfolding refetch
  create breaks row rows =
      if breaks (row ∷ rows)
      then (rows, duplicate)
      else (row ∷ rows, found (refetch (row.id) (row ∷ rows)))

  -- `_update`
  unfoldable pub update :
      (List (Row A) → Bool) → ℕ → Changes A → List (Row A) → List (Row A) × Answer A
  unfolding update_rows refetch
  update breaks id changes rows =
      let updated = update_rows id changes rows in
      if breaks updated
      then (rows, duplicate)
      else (if count (matches id) rows == 1
          then (updated, found (refetch id updated))
          else (updated, not_found))

  unfoldable pub remove_rows : ℕ → List (Row A) → List (Row A)
  remove_rows id [] = []
  remove_rows id (row ∷ rows) =
      let rest = remove_rows id rows in if matches id row then rest else row ∷ rest

  -- `_delete`: `marks` are what a soft delete sets besides `deleted`.
  unfoldable pub delete :
      (List (Row A) → Bool) → Bool → List (ℕ × A) → ℕ → List (Row A) → List (Row A) × Answer A
  unfolding update remove_rows refetch
  delete breaks hard_delete marks id rows =
      if table.has_deleted && not hard_delete
      then update breaks id
          (record { new_tenant = none; new_deleted = some id; new_columns = marks }) rows
      else (let left = remove_rows id rows in
          if count (matches id) rows == 1
          then (left, found (refetch id left))
          else (left, not_found))
