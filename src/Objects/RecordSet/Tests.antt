-- ===== src/Objects/RecordSet/Tests.antt =====
-- Recordsets of three records.
use designate_private.Prelude.{
  ℕ, ◌≡◌, ◌↔◌, refl, true, Option, some, List, [], ◌∷◌, length, All, map, arith,
}
use designate_private.Objects.{active, pending, error}
use designate_private.Objects.RecordSet.{
  loaded, broken, accepted, rejected, schema_error, broken_at, is_index, skip_broken, relocate,
  recordset_status, status_from, worse_of, validate, validate_loaded, load_records, conclude,
}
use designate_private.Objects.RecordSet.Worst.{recordset_status-any_pending}
use designate_private.Objects.RecordSet.Indexes.{IsFresh, relocate-IsFresh, validate-accepted}

recordset_status-any_pending_test : recordset_status (active ∷ pending ∷ active ∷ []) ≡ pending
recordset_status-any_pending_test =
    recordset_status-any_pending (active ∷ pending ∷ active ∷ []) (tt, (tt, (tt, tt)))

-- An error is forgotten after it, unlike the comment's order of statuses.
worst_test : recordset_status (error ∷ active ∷ []) ≡ active
unfolding recordset_status status_from worse_of
worst_test = refl

relocate-IsFresh_example :
    (moved : List (Option ℕ)) × (relocate 2 (0 ∷ []) 0 (some 0 ∷ some 1 ∷ []) ≡ some moved)
    × (length moved ≡ 2)
    × All (IsFresh (0 ∷ [])) moved
relocate-IsFresh_example = relocate-IsFresh 2 (0 ∷ []) 0 (some 0 ∷ some 1 ∷ []) (omega arith)

-- The second record that the schema saw is the third of the recordset; it is reported as the second.
wrong_index_test :
    validate {A = ℕ} 5 true true (λ seen. some 1 ∷ []) (broken ∷ loaded 7 ∷ loaded 8 ∷ [])
    ≡ some (rejected (schema_error (some 1) ∷ broken_at 0 ∷ []))
unfolding validate validate_loaded load_records conclude relocate skip_broken is_index
wrong_index_test = refl

validate-accepted_example :
    (validate {A = ℕ} 5 true true (λ seen. []) (loaded 7 ∷ loaded 8 ∷ []) ≡ some accepted) ↔ (
      (true ≡ true)
      × (true ≡ true)
      × ((seen : List ℕ) × (loaded 7 ∷ loaded 8 ∷ [] ≡ map loaded seen)
          × (◌≡◌ {A = List (Option ℕ)} [] [])))
validate-accepted_example =
    validate-accepted {A = ℕ} 5 true true (λ seen. []) (loaded 7 ∷ loaded 8 ∷ [])
