-- ===== src/Storage/Rows/Updating.antt =====
-- What an update of the row of an id changes, on every branch.
use designate_private.Prelude.{ℕ, suc, ◌≡◌, Option, none, some, if◌then◌else◌}
use designate_private.Objects.Tracking.{lookup}
use designate_private.Storage.Rows.{Table, Row, Changes}

-- A column that is written has the new value, another the old one.
abbrev pub written {ℓ} : {A : Type ℓ} → Option A → Option A → Option A
written none old = old
written (some new) old = some new

-- The row `new` is the row `old` with the changes, and with the next version if the table has one.
pub record IsUpdated {ℓ} {A : Type ℓ} (table : Table) (changes : Changes A) (old new : Row A)
    : Type ℓ where
  pub id : new.id ≡ old.id
  pub tenant_id : new.tenant_id ≡ written (changes.new_tenant) (old.tenant_id)
  pub deleted : new.deleted ≡ written (changes.new_deleted) (old.deleted)
  pub version : new.version ≡ (if table.has_version then suc (old.version) else old.version)
  pub columns :
      (name : ℕ)
      → lookup name (new.columns)
        ≡ written (lookup name (changes.new_columns)) (lookup name (old.columns))
