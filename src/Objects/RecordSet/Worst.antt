-- ===== src/Objects/RecordSet/Worst.antt =====
-- The status of a recordset whose records are ACTIVE or PENDING.
use designate_private.Prelude.{◌≡◌, refl, Bool, false, ◌||◌, List, [], ◌∷◌, if◌then◌else◌, All}
use designate_private.Objects.{Status, active, pending, error, deleted, success, no_zone}
use designate_private.Objects.RecordSet.{is_pending, recordset_status, status_from, worse_of}

abbrev pub IsCalm : Status → Type 0
IsCalm active = Unit
IsCalm pending = Unit
IsCalm _ = ⊥

abbrev pub any_pending : List Status → Bool
any_pending [] = false
any_pending (s ∷ ss) = is_pending s || any_pending ss

stays_pending : (ss : List Status) → All IsCalm ss → status_from pending ss ≡ pending
unfolding status_from worse_of
stays_pending [] h = refl
stays_pending (active ∷ ss) h = stays_pending ss h.1
stays_pending (pending ∷ ss) h = stays_pending ss h.1
stays_pending (error ∷ ss) h = absurd (h.0)
stays_pending (deleted ∷ ss) h = absurd (h.0)
stays_pending (success ∷ ss) h = absurd (h.0)
stays_pending (no_zone ∷ ss) h = absurd (h.0)

-- When every record is ACTIVE or PENDING, the recordset is PENDING if one of them is, and ACTIVE
-- otherwise, also without records.
pub recordset_status-any_pending :
    (ss : List Status)
    → All IsCalm ss
    → recordset_status ss ≡ (if any_pending ss then pending else active)
unfolding recordset_status status_from worse_of
recordset_status-any_pending [] h = refl
recordset_status-any_pending (active ∷ ss) h = recordset_status-any_pending ss h.1
recordset_status-any_pending (pending ∷ ss) h = stays_pending ss h.1
recordset_status-any_pending (error ∷ ss) h = absurd (h.0)
recordset_status-any_pending (deleted ∷ ss) h = absurd (h.0)
recordset_status-any_pending (success ∷ ss) h = absurd (h.0)
recordset_status-any_pending (no_zone ∷ ss) h = absurd (h.0)
