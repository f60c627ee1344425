-- ===== src/Storage/Rows/Tests.antt =====
-- A table of two zones of two tenants.
use designate_private.Prelude.{
  ℕ, ◌≡◌, refl, Bool, true, false, none, some, List, [], ◌∷◌, map, ◌==◌, AreDistinct, arith,
}
use designate_private.Objects.Tracking.{store}
use designate_private.Storage.Rows.{
  Table, Context, Row, Changes, found, not_found, is_visible, passes_tenant, passes_deleted,
  find_one, set_columns, store_all, update_rows, refetch, update, delete,
}
use designate_private.Storage.Rows.Deleting.{delete-find_one}

abbrev zones : Table
zones = record { has_tenant_id = true; has_deleted = true; has_version = true }

abbrev tenant_5 : Context
tenant_5 = record { all_tenants = false; tenant = 5; show_deleted = false }

abbrev row : ℕ → ℕ → Row ℕ
row id tenant = record {
  id = id;
  tenant_id = some tenant;
  deleted = none;
  version = 1;
  columns = [];
}

abbrev rows : List (Row ℕ)
rows = row 1 5 ∷ row 2 6 ∷ []

abbrev no_breaks : List (Row ℕ) → Bool
no_breaks rs = false

abbrev rows_distinct : AreDistinct (map (λ (r : Row ℕ). r.id) rows)
rows_distinct = (((λ e. omega arith), tt), (tt, tt))

abbrev renamed : Changes ℕ
renamed = record { new_tenant = some 8; new_deleted = none; new_columns = (3, 30) ∷ [] }

-- Another tenant's row is not found.
other_tenant_test : update zones tenant_5 no_breaks 2 renamed rows ≡ (rows, not_found)
unfolding update update_rows is_visible passes_tenant passes_deleted
other_tenant_test = refl

abbrev gone : Row ℕ
gone = record { id = 1; tenant_id = some 5; deleted = some 1; version = 2; columns = (4, 9) ∷ [] }

delete_test :
    delete zones tenant_5 no_breaks false ((4, 9) ∷ []) 1 rows
    ≡ (gone ∷ row 2 6 ∷ [], found (some gone))
unfolding delete update update_rows is_visible passes_tenant passes_deleted set_columns store_all
    store refetch
delete_test = refl

delete-find_one_example :
    find_one zones tenant_5 (λ (r : Row ℕ). r.id == 1) (gone ∷ row 2 6 ∷ []) ≡ not_found
delete-find_one_example =
    delete-find_one zones tenant_5 tenant_5 no_breaks ((4, 9) ∷ []) 1 rows (gone ∷ row 2 6 ∷ [])
      (some gone) refl refl rows_distinct delete_test
