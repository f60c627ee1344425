-- ===== src/Central/Status/Finished.antt =====
-- What the worker's reports about a whole zone or a recordset leave in the tables.
use mathlib.Core.Path.{subst}
use designate_private.Prelude.{
  ◌>>=◌, ℕ, ◌≡◌, refl, ap, sym, ◌∙◌, inl, inr, Bool, true, false, Option, none, some, List, [], ◌∷◌,
  arith, ◌==◌, if◌then◌else◌, count, Bool-cases, ◌++◌,
}
use designate_private.Objects.{
  Action, create, update, delete, no_action, Status, active, pending, error, deleted, success,
  no_zone, Zone,
}
use designate_private.Central.Store.{Record, Store, is_part_of, get_zone, update_zone, delete_zone}
use designate_private.Central.Status.{
  judge_with_recordset, update_recordset_status, judge_with_zone, finish_zone, update_zone_status,
  activated,
}
use designate_private.Central.Status.Settle.{
  IsWellFormed, KeepsPlace, after, is_recordset, EndsWith, outcome, settle_all-EndsWith,
}
use designate_private.Central.Status.Reported.{
  ZoneEndsWith, update_zone-EndsWith, delete_zone-EndsWith, get_zone_cong, IsWellFormed-cong,
}

-- A creation that failed, or a deletion that is done: what it is about shall be gone.
abbrev pub is_undone : Action → Status → Bool
is_undone create error = true
is_undone delete success = true
is_undone _ _ = false

-- A change that is neither of these and is said to be done, or that was a creation or a deletion.
abbrev pub is_settled : Action → Status → Bool
is_settled create error = false
is_settled create _ = true
is_settled delete success = false
is_settled delete _ = true
is_settled _ success = true
is_settled _ _ = false

abbrev pub recordset_rows : ℕ → Action → Status → List Record → List Record
recordset_rows rs _ _ [] = []
recordset_rows rs change report (r ∷ l) =
    (if is_part_of rs r
      then (if is_undone change report
          then []
          else (if is_settled change report then activated r ∷ [] else r ∷ []))
      else r ∷ [])
    ++ recordset_rows rs change report l

recordset-KeepsPlace :
    (change : Action) (report : Status) (r : Record)
    → KeepsPlace r (judge_with_recordset change report r)
unfolding judge_with_recordset
recordset-KeepsPlace create active r = (refl, refl)
recordset-KeepsPlace create pending r = (refl, refl)
recordset-KeepsPlace create error r = tt
recordset-KeepsPlace create deleted r = (refl, refl)
recordset-KeepsPlace create success r = (refl, refl)
recordset-KeepsPlace create no_zone r = (refl, refl)
recordset-KeepsPlace update active r = tt
recordset-KeepsPlace update pending r = tt
recordset-KeepsPlace update error r = tt
recordset-KeepsPlace update deleted r = tt
recordset-KeepsPlace update success r = (refl, refl)
recordset-KeepsPlace update no_zone r = tt
recordset-KeepsPlace delete active r = (refl, refl)
recordset-KeepsPlace delete pending r = (refl, refl)
recordset-KeepsPlace delete error r = (refl, refl)
recordset-KeepsPlace delete deleted r = (refl, refl)
recordset-KeepsPlace delete success r = tt
recordset-KeepsPlace delete no_zone r = (refl, refl)
recordset-KeepsPlace no_action active r = tt
recordset-KeepsPlace no_action pending r = tt
recordset-KeepsPlace no_action error r = tt
recordset-KeepsPlace no_action deleted r = tt
recordset-KeepsPlace no_action success r = (refl, refl)
recordset-KeepsPlace no_action no_zone r = tt

recordset_agrees :
    (change : Action) (report : Status) (r : Record)
    → after (judge_with_recordset change report r) r ≡ (
        if is_undone change report
        then []
        else (if is_settled change report then activated r ∷ [] else r ∷ []))
unfolding judge_with_recordset
recordset_agrees create active r = refl
recordset_agrees create pending r = refl
recordset_agrees create error r = refl
recordset_agrees create deleted r = refl
recordset_agrees create success r = refl
recordset_agrees create no_zone r = refl
recordset_agrees update active r = refl
recordset_agrees update pending r = refl
recordset_agrees update error r = refl
recordset_agrees update deleted r = refl
recordset_agrees update success r = refl
recordset_agrees update no_zone r = refl
recordset_agrees delete active r = refl
recordset_agrees delete pending r = refl
recordset_agrees delete error r = refl
recordset_agrees delete deleted r = refl
recordset_agrees delete success r = refl
recordset_agrees delete no_zone r = refl
recordset_agrees no_action active r = refl
recordset_agrees no_action pending r = refl
recordset_agrees no_action error r = refl
recordset_agrees no_action deleted r = refl
recordset_agrees no_action success r = refl
recordset_agrees no_action no_zone r = refl

recordset_rows_agree :
    (rs : ℕ) (change : Action) (report : Status) (l : List Record)
    → outcome (λ r. r.recordset_id == rs) (judge_with_recordset change report) l
      ≡ recordset_rows rs change report l
recordset_rows_agree rs change report [] = refl
recordset_rows_agree rs change report (r ∷ l) =
    ground (arith, recordset_rows_agree rs change report l, recordset_agrees change report r)

count-recordset_rows :
    (rs : ℕ) (change : Action) (report : Status) (l : List Record)
    → is_undone change report ≡ true
    → count (is_part_of rs) (recordset_rows rs change report l) ≡ 0
count-recordset_rows rs change report [] e = refl
count-recordset_rows rs change report (r ∷ l) e =
    ground (arith, count-recordset_rows rs change report l e)

-- Without records there is no recordset.
no_recordset :
    (rs : ℕ) (s : Store)
    → IsWellFormed s
    → count (is_part_of rs) s.records ≡ 0
    → count (is_recordset rs) s.recordsets ≡ 0
no_recordset rs s w e = elim (Bool-cases (count (is_recordset rs) s.recordsets == 0)) [
  | inl h ↦ ground arith
  | inr h ↦ absurd (ground (arith, w.inhabited rs))
]

-- How update_recordset_status ends.
pub record IsRecordsetReported (rs : ℕ) (change : Action) (report : Status) (s : Store)
    (end : Option Store) : Type 0 where
  pub store : Store
  pub returned : end ≡ some store
  pub records : store.records ≡ recordset_rows rs change report s.records
  pub gone :
      is_undone change report ≡ true
      → (count (is_part_of rs) store.records ≡ 0) × (count (is_recordset rs) store.recordsets ≡ 0)
  pub well_formed : IsWellFormed store

-- In well-formed tables update_recordset_status raises nothing. When the recordset's creation failed
-- or its deletion succeeded, its records and the recordset itself are gone; otherwise a report on a
-- creation or a deletion, and a report of success, leaves its records active with no pending action.
-- The records of other recordsets are as before, and the tables stay well-formed.
pub update_recordset_status-IsRecordsetReported :
    (rs : ℕ) (change : Action) (report : Status) (s : Store)
    → IsWellFormed s
    → IsRecordsetReported rs change report s (update_recordset_status rs change report s)
unfolding update_recordset_status
update_recordset_status-IsRecordsetReported rs change report s w =
    let done =
      settle_all-EndsWith (λ r. r.recordset_id == rs) (judge_with_recordset change report)
        (recordset-KeepsPlace change report) s w in
    let rows = done.records ∙ recordset_rows_agree rs change report s.records in
    record {
      store = done.store;
      returned = done.returned;
      records = rows;
      gone = λ undone.
          let empty =
            ap (count (is_part_of rs)) rows
            ∙ count-recordset_rows rs change report s.records undone in
          (empty, no_recordset rs done.store done.well_formed empty);
      well_formed = done.well_formed;
    }

-- It does not touch the zones.
pub update_recordset_status-get_zone :
    (rs k : ℕ) (change : Action) (report : Status) (s s' : Store)
    → IsWellFormed s
    → update_recordset_status rs change report s ≡ some s'
    → IsWellFormed s' × (get_zone k s' ≡ get_zone k s)
unfolding update_recordset_status
update_recordset_status-get_zone rs k change report s s' w e =
    let done =
      settle_all-EndsWith (λ r. r.recordset_id == rs) (judge_with_recordset change report)
        (recordset-KeepsPlace change report) s w in
    let both : some done.store ≡ some s' = sym done.returned ∙ e in
    let same : done.store ≡ s' = cc in
    subst (λ t. IsWellFormed t × (get_zone k t ≡ get_zone k s)) same
      (done.well_formed, get_zone_cong k s done.store done.zones)

-- The row of a record of a zone whose creation is reported; `ok` says that it succeeded.
abbrev pub created_rows : ℕ → Bool → List Record → List Record
created_rows i ok [] = []
created_rows i ok (r ∷ l) =
    (if r.zone_id == i then (if ok then activated r ∷ [] else []) else r ∷ [])
    ++ created_rows i ok l

created_agrees :
    (i : ℕ) (l : List Record)
    → outcome (λ r. r.zone_id == i) (judge_with_zone create success) l ≡ created_rows i true l
unfolding judge_with_zone
created_agrees i [] = refl
created_agrees i (r ∷ l) = ground (arith, created_agrees i l)

uncreated_agrees :
    (i : ℕ) (l : List Record)
    → outcome (λ r. r.zone_id == i) (judge_with_zone create error) l ≡ created_rows i false l
unfolding judge_with_zone
uncreated_agrees i [] = refl
uncreated_agrees i (r ∷ l) = ground (arith, uncreated_agrees i l)

created-KeepsPlace : (r : Record) → KeepsPlace r (judge_with_zone create success r)
unfolding judge_with_zone
created-KeepsPlace r = (refl, refl)

uncreated-KeepsPlace : (r : Record) → KeepsPlace r (judge_with_zone create error r)
unfolding judge_with_zone
uncreated-KeepsPlace r = tt

-- How a report on a zone's creation ends; `zone` is what is then in the zone's place.
pub record IsCreationReported (i : ℕ) (ok : Bool) (zone : Option Zone) (s : Store)
    (end : Option Store) : Type 0 where
  pub store : Store
  pub returned : end ≡ some store
  pub records : store.records ≡ created_rows i ok s.records
  pub zones : (j : ℕ) → get_zone j store ≡ (if j == i then zone else get_zone j s)
  pub well_formed : IsWellFormed store

finished :
    {i : ℕ} {ok : Bool} {zone : Option Zone} {rows : List Record} {s : Store} {m : Option Store}
    (f : Store → Option Store) (done : EndsWith rows s m)
    → rows ≡ created_rows i ok s.records
    → ZoneEndsWith i zone done.store (f done.store)
    → IsCreationReported i ok zone s (m >>= f)
finished {i} {s = s} f done agree row = record {
  store = row.store;
  returned = rw done.returned row.returned;
  records = row.records ∙ done.records ∙ agree;
  zones = λ j. ground (arith, row.zones j, get_zone_cong j s done.store done.zones);
  well_formed = IsWellFormed-cong done.store row.store row.records row.recordsets done.well_formed;
}

-- In well-formed tables a report of success on the creation of a zone that is there raises nothing,
-- activates the zone and all its records, and changes no other record and no other zone.
pub update_zone_status_created :
    (z old : Zone) (s : Store)
    → IsWellFormed s
    → get_zone z.id s ≡ some old
    → z.action ≡ create
    → z.status ≡ success
    → IsCreationReported z.id true
        (some (record z { action = no_action; status = active }))
        s
        (update_zone_status z s)
unfolding update_zone_status finish_zone
update_zone_status_created z old s w found a e =
    let z' = record z { action = no_action; status = active } in
    let done =
      settle_all-EndsWith (λ r. r.zone_id == z.id) (judge_with_zone create success)
        created-KeepsPlace s w in
    rw (a, e)
      (finished (update_zone z') done (created_agrees z.id s.records) (
        update_zone-EndsWith z.id done.store old
          (get_zone_cong z.id s done.store done.zones ∙ found) z' refl))

-- In well-formed tables a report of failure on the creation of a zone that is there raises nothing,
-- removes the zone and the rows of its records, and changes no other record and no other zone; the
-- tables stay well-formed.
pub update_zone_status_uncreated :
    (z old : Zone) (s : Store)
    → IsWellFormed s
    → get_zone z.id s ≡ some old
    → z.action ≡ create
    → z.status ≡ error
    → IsCreationReported z.id false none s (update_zone_status z s)
unfolding update_zone_status finish_zone
update_zone_status_uncreated z old s w found a e =
    let done =
      settle_all-EndsWith (λ r. r.zone_id == z.id) (judge_with_zone create error)
        uncreated-KeepsPlace s w in
    rw (a, e)
      (finished (delete_zone z.id) done (uncreated_agrees z.id s.records) (
        delete_zone-EndsWith z.id done.store old
          (get_zone_cong z.id s done.store done.zones ∙ found)))
