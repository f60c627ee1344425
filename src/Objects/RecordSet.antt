-- ===== src/Objects/RecordSet.antt =====
-- objects/recordset.py: the status, the action and the managed flag of a recordset, which are those of
-- its records, and `validate`. Reading a record's data and the JSON schema's errors are parameters; an
-- error of the schema has the index of a record in the list that the schema saw, if it is about one.
pub mod Worst
pub mod Indexes
mod Tests
use designate_private.Prelude.{
  ℕ, zero, suc, ◌+◌, Bool, true, false, not, ◌&&◌, ◌||◌, Option, none, some, List, [], ◌∷◌, ◌++◌,
  ◌==◌, ◌>>=◌, if◌then◌else◌, map,
}
use designate_private.Objects.{Action, no_action, Status, active, pending, error}

abbrev pub is_pending : Status → Bool
is_pending pending = true
is_pending _ = false

abbrev pub is_error : Status → Bool
is_error error = true
is_error _ = false

unfoldable pub worse_of : Status → Status → Status
worse_of status record_status =
    if is_error record_status
      || ((is_pending record_status && not (is_error status)) || not (is_pending status))
    then record_status
    else status

unfoldable pub status_from : Status → List Status → Status
unfolding worse_of
status_from status [] = status
status_from status (s ∷ ss) = status_from (worse_of status s) ss

-- RecordSet.status, of the statuses of its records.
unfoldable pub recordset_status : List Status → Status
unfolding status_from
recordset_status statuses = status_from active statuses

-- RecordSet.action, whatever the records.
recordset_action : Action
recordset_action = no_action

-- RecordSet.managed
recordset_managed : List Bool → Bool
recordset_managed [] = false
recordset_managed (m ∷ ms) = let rest = recordset_managed ms in if m then true else rest

-- `_from_string`: ValueError, TypeError and AttributeError are `broken`, another exception is `raised`.
pub data Loaded {ℓ} (A : Type ℓ) : Type ℓ where
  loaded : A → Loaded A
  broken raised : Loaded A

pub data Problem : Type 0 where
  no_such_type unsupported_type : Problem
  broken_at : ℕ → Problem
  schema_error : Option ℕ → Problem

pub data Outcome : Type 0 where
  accepted : Outcome
  rejected : List Problem → Outcome

unfoldable pub is_index : ℕ → List ℕ → Bool
is_index i [] = false
is_index i (j ∷ js) = let rest = is_index i js in if i == j then true else rest

-- The inner loop, on the increment and the path's index; `none` is that the fuel is used up.
unfoldable pub skip_broken : ℕ → List ℕ → ℕ → ℕ → Option (ℕ × ℕ)
unfolding is_index
skip_broken zero error_indexes increment i = none
skip_broken (suc fuel) error_indexes increment i =
    let further = skip_broken fuel error_indexes (suc increment) (suc i) in
    if is_index i error_indexes then further else some (increment, i)

-- The loop over the schema's errors.
unfoldable pub relocate : ℕ → List ℕ → ℕ → List (Option ℕ) → Option (List (Option ℕ))
unfolding skip_broken
relocate fuel error_indexes increment [] = some []
relocate fuel error_indexes increment (none ∷ errors) = do
  rest ← relocate fuel error_indexes increment errors
  some (none ∷ rest)
relocate fuel error_indexes increment (some i ∷ errors) = do
  (increment, j) ← skip_broken fuel error_indexes increment (i + increment)
  rest ← relocate fuel error_indexes increment errors
  some (some j ∷ rest)

-- The outcome once the schema has seen the records.
unfoldable pub conclude : ℕ → List ℕ → List (Option ℕ) → Option Outcome
unfolding relocate
conclude fuel [] [] = some accepted
conclude fuel (i ∷ error_indexes) [] = some (rejected (map broken_at (i ∷ error_indexes)))
conclude fuel error_indexes (e ∷ errors) = do
  moved ← relocate fuel error_indexes 0 (e ∷ errors)
  some (rejected (map schema_error moved ++ map broken_at error_indexes))

module _ {ℓ} {A : Type ℓ} where
  abbrev pub one_loaded : A → Option (List A × List ℕ) → Option (List A × List ℕ)
  one_loaded a none = none
  one_loaded a (some (records, error_indexes)) = some (a ∷ records, error_indexes)

  abbrev pub one_broken : ℕ → Option (List A × List ℕ) → Option (List A × List ℕ)
  one_broken i none = none
  one_broken i (some (records, error_indexes)) = some (records, i ∷ error_indexes)

  -- The records that were loaded, and the indexes of those that were not; `none` is another exception.
  unfoldable pub load_records : ℕ → List (Loaded A) → Option (List A × List ℕ)
  load_records i [] = some ([], [])
  load_records i (loaded a ∷ rest) = one_loaded a (load_records (suc i) rest)
  load_records i (broken ∷ rest) = one_broken i (load_records (suc i) rest)
  load_records i (raised ∷ rest) = none

  unfoldable pub validate_loaded :
      ℕ → (List A → List (Option ℕ)) → Option (List A × List ℕ) → Option Outcome
  unfolding conclude
  validate_loaded fuel check none = some (rejected [])
  validate_loaded fuel check (some (seen, error_indexes)) = conclude fuel error_indexes (check seen)

  -- `is_known` and `is_supported` are those of the recordset's type; `check` is the schema's validator.
  unfoldable pub validate :
      ℕ → Bool → Bool → (List A → List (Option ℕ)) → List (Loaded A) → Option Outcome
  unfolding load_records validate_loaded
  validate fuel false is_supported check records = some (rejected (no_such_type ∷ []))
  validate fuel true false check records = some (rejected (unsupported_type ∷ []))
  validate fuel true true check records = validate_loaded fuel check (load_records 0 records)
