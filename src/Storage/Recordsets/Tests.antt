-- ===== src/Storage/Recordsets/Tests.antt =====
-- Two recordsets, one of them with two records.
use designate_private.Prelude.{ℕ, ◌≡◌, refl, Bool, Option, none, some, List, [], ◌∷◌, ◌==◌, ==_eq}
use designate_private.Prelude.Texts.{Text}
use designate_private.Storage.Recordsets.{RawRow, RecordSet, recordsets_of, collect, is_missing}
use designate_private.Storage.Recordsets.Groups.{groups, recordsets_of-groups}

abbrev zone_of : ℕ → Text
zone_of id = id ∷ []

abbrev same_rrset : RecordSet ℕ ℕ → RecordSet ℕ ℕ → Bool
same_rrset g h = g.id == h.id

abbrev raw : ℕ → Option ℕ → RawRow ℕ ℕ
raw id rdata = record { id = id; columns = 0; rdata = rdata }

abbrev raw_rows : List (RawRow ℕ ℕ)
raw_rows = raw 1 (some 10) ∷ raw 1 (some 11) ∷ raw 2 none ∷ []

recordsets_of-groups_example :
    recordsets_of zone_of same_rrset raw_rows ≡ groups zone_of same_rrset raw_rows
recordsets_of-groups_example =
    recordsets_of-groups zone_of same_rrset (λ g h. ==_eq (g.id) (h.id)) raw_rows

abbrev rrset : ℕ → List ℕ → RecordSet ℕ ℕ
rrset id records = record { id = id; columns = 0; zone_name = id ∷ []; records = records }

recordsets_test :
    recordsets_of zone_of same_rrset raw_rows ≡ rrset 1 (10 ∷ 11 ∷ []) ∷ rrset 2 [] ∷ []
unfolding recordsets_of collect is_missing
recordsets_test = refl
