-- ===== src/Central/Status/Transition.antt =====
-- A zone on its way out stays on its way out under the reports of update_status and of
-- update_recordset_status; update_zone_status may set a zone that it could not delete back to NONE.
use mathlib.Core.Path.{subst}
use designate_private.Prelude.{
  Option-cases, Bool-cases, ℕ, ◌≡◌, refl, sym, ◌∙◌, inl, inr, Option, none, some, arith, ◌==◌,
  if◌then◌else◌,
}
use designate_private.Objects.{
  Action, delete, Status, active, pending, error, deleted, success, no_zone, Zone,
}
use designate_private.Central.Store.{Store, get_zone}
use designate_private.Central.Status.{
  update_status, update_own_zone_status, update_recordset_status,
}
use designate_private.Central.Status.Settle.{IsWellFormed}
use designate_private.Central.Status.Finished.{update_recordset_status-get_zone}
use designate_private.Central.Status.Acknowledged.{update_record_status-EndsWith}
use designate_private.Central.Status.Reported.{
  IsReported, reported_zone, update_status-IsReported, get_zone_cong,
}

-- A report about some zone, or about a recordset, that was taken in without an exception.
pub data Step : Store → Store → Type 0 where
  reported :
      (i : ℕ) (report : Status) (serial : ℕ) (s s' : Store)
      → update_status i report serial s ≡ some s'
      → Step s s'
  recordset_reported :
      (rs : ℕ) (change : Action) (report : Status) (s s' : Store)
      → update_recordset_status rs change report s ≡ some s'
      → Step s s'

pub data Reach (s : Store) : Store → Type 0 where
  here : Reach s s
  next : {t u : Store} → Reach s t → Step t u → Reach s u

-- If the zone is there, it is to be deleted.
abbrev pub IsDoomed : ℕ → Store → Type 0
IsDoomed k s = (z : Zone) → get_zone k s ≡ some z → z.action ≡ delete

reported_zone-delete :
    (report : Status) (serial : ℕ) (z z' : Zone)
    → z.action ≡ delete
    → reported_zone report serial z ≡ some z'
    → z'.action ≡ delete
reported_zone-delete success serial z z' d e = ground arith
reported_zone-delete error serial z z' d e = ground arith
reported_zone-delete no_zone serial z z' d e = cc
reported_zone-delete active serial z z' d e = ground arith
reported_zone-delete pending serial z z' d e = ground arith
reported_zone-delete deleted serial z z' d e = ground arith

-- update_status of a zone that is not there raises.
not_found :
    (i : ℕ) (report : Status) (serial : ℕ) (s : Store)
    → IsWellFormed s
    → get_zone i s ≡ none
    → update_status i report serial s ≡ none
unfolding update_status update_own_zone_status
not_found i report serial s w e =
    let rows = update_record_status-EndsWith i report serial s w in
    rw rows.returned (rw (get_zone_cong i s rows.store rows.zones) (rw e refl))

found_after :
    (k i : ℕ) (report : Status) (serial : ℕ) (z : Zone) (s t : Store)
    → IsDoomed k s
    → get_zone i s ≡ some z
    → get_zone k t ≡ (if k == i then reported_zone report serial z else get_zone k s)
    → IsDoomed k t
found_after k i report serial z s t d found e z' h = elim (Bool-cases (k == i)) [
  | inl same ↦
      reported_zone-delete report serial z z' (d z (ground (arith, found))) (ground (arith, same))
  | inr other ↦ d z' (ground (arith, other))
]

step_found :
    (k i : ℕ) (report : Status) (serial : ℕ) (z : Zone) (s s' : Store)
    → IsDoomed k s
    → get_zone i s ≡ some z
    → (end : Option Store) → end ≡ some s'
    → IsReported i report serial z s end
    → IsWellFormed s' × IsDoomed k s'
step_found k i report serial z s s' d found end e r =
    subst (λ t. IsWellFormed t × IsDoomed k t) (ground (arith, r.returned))
      (r.well_formed, found_after k i report serial z s r.store d found (r.zones k))

Step-IsDoomed :
    (k : ℕ) {s s' : Store}
    → Step s s'
    → IsWellFormed s × IsDoomed k s
    → IsWellFormed s' × IsDoomed k s'
Step-IsDoomed k (reported i report serial s s' e) (w, d) = elim (Option-cases (get_zone i s)) [
  | inl gone ↦ absurd (ground (arith, not_found i report serial s w gone))
  | inr (z, found) ↦
      step_found k i report serial z s s' d found (update_status i report serial s) e
        (update_status-IsReported i report serial z s w found)
]
Step-IsDoomed k (recordset_reported rs change report s s' e) (w, d) =
    let (well_formed, same) = update_recordset_status-get_zone rs k change report s s' w e in
    (well_formed, λ z found. d z (sym same ∙ found))

doomed :
    (k : ℕ) {s s' : Store}
    → Reach s s'
    → IsWellFormed s × IsDoomed k s
    → IsWellFormed s' × IsDoomed k s'
doomed k here h = h
doomed k (next r st) h = Step-IsDoomed k st (doomed k r h)

-- From well-formed tables, by any sequence of calls of update_status about any zones and of
-- update_recordset_status about any recordsets that raised nothing: the tables stay well-formed, and a
-- zone whose action is DELETE is either gone or still to be deleted.
pub Reach-IsDoomed :
    (k : ℕ) (s s' : Store)
    → IsWellFormed s
    → IsDoomed k s
    → Reach s s'
    → IsWellFormed s' × IsDoomed k s'
Reach-IsDoomed k s s' w d r = doomed k r (w, d)
