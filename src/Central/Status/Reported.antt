-- ===== src/Central/Status/Reported.antt =====
-- What a status report does to the zone's own row, and the two parts of update_status together.
use mathlib.Core.Path.{subst}
use designate_private.Prelude.{
  ℕ, ◌≡◌, refl, sym, ap, ◌∙◌, ◌⊎◌, inl, inr, Bool, true, false, ◌||◌, Option, none, some, List, [],
  ◌∷◌, map, arith, ◌==◌, leb, if◌then◌else◌, count, length,
}
use designate_private.Objects.{
  Action, create, update, delete, no_action, Status, active, pending, error, deleted, success,
  no_zone, Zone,
}
use designate_private.Central.Store.{
  Store, select, reject, has_zone_id, write_zone, get_zone, update_zone, delete_zone,
}
use designate_private.Central.Store.Rows.{HasDistinctIds}
use designate_private.Central.Status.{
  transition, update_own_zone_status, update_status, keep_zone, keep_zone_with, change_zone, Change,
  unchanged, assign, removed, on_acknowledged,
}
use designate_private.Central.Status.Settle.{IsWellFormed}
use designate_private.Central.Status.Acknowledged.{
  is_covered, reported_rows, update_record_status-EndsWith,
}

abbrev pub completed_zone : Zone → Action → Option Zone
completed_zone z create = some (record z { action = no_action; status = active })
completed_zone z update = some (record z { action = no_action; status = active })
completed_zone z delete = none
completed_zone z no_action = some z

abbrev pub failed_zone : Zone → ℕ → Status → Option Zone
failed_zone z serial pending =
    if (serial == 0) || leb z.serial serial then some (record z { status = error }) else some z
failed_zone z serial _ = some z

-- The same for the zone; `none` is a deleted zone.
abbrev pub reported_zone : Status → ℕ → Zone → Option Zone
reported_zone success serial z =
    if is_covered z.status z.serial serial then completed_zone z z.action else some z
reported_zone error serial z = failed_zone z serial z.status
reported_zone no_zone serial z = none
reported_zone _ serial z = some z

select-write :
    (j : ℕ) (z : Zone) (zs : List Zone)
    → select (has_zone_id j) (write_zone z zs)
      ≡ (if z.id == j then map (λ _. z) (select (has_zone_id j) zs) else select (has_zone_id j) zs)
unfolding select write_zone
select-write j z [] = ground arith
select-write j z (x ∷ zs) = ground (arith, select-write j z zs)

select-reject :
    (j i : ℕ) (zs : List Zone)
    → select (has_zone_id j) (reject (has_zone_id i) zs)
      ≡ (if i == j then [] else select (has_zone_id j) zs)
unfolding select reject
select-reject j i [] = ground arith
select-reject j i (x ∷ zs) = ground (arith, select-reject j i zs)

length-select :
    (i : ℕ) (zs : List Zone) → length (select (has_zone_id i) zs) ≡ count (has_zone_id i) zs
unfolding select
length-select i [] = refl
length-select i (x ∷ zs) = ground (arith, length-select i zs)

select_sound :
    (i : ℕ) (zs : List Zone) (z : Zone) (l : List Zone)
    → select (has_zone_id i) zs ≡ z ∷ l
    → z.id ≡ i
unfolding select
select_sound i [] z l e = cc
select_sound i (x ∷ zs) z l e = ground (arith, select_sound i zs z l)

get_zone-select :
    (i : ℕ) (s : Store) (z : Zone) → get_zone i s ≡ some z → select (has_zone_id i) s.zones ≡ z ∷ []
unfolding get_zone
get_zone-select i s z e = ground arith

after_change : Zone → Change → Option Zone
after_change z unchanged = some z
after_change z (assign action status) = some (record z { action = action; status = status })
after_change z removed = none

-- No change but a removal writes the status DELETED.
abbrev IsPlain : Change → Type 0
IsPlain (assign _ status) = (status ≡ active) ⊎ (status ≡ error)
IsPlain _ = Unit

-- How the update of the zone's row ends.
pub record ZoneEndsWith (i : ℕ) (zone : Option Zone) (s : Store) (end : Option Store) : Type 0 where
  pub store : Store
  pub returned : end ≡ some store
  pub records : store.records ≡ s.records
  pub recordsets : store.recordsets ≡ s.recordsets
  pub zones : (j : ℕ) → get_zone j store ≡ (if j == i then zone else get_zone j s)

module _ (i : ℕ) (s : Store) (z : Zone) (found : get_zone i s ≡ some z) where
  one_zone : count (has_zone_id i) s.zones ≡ 1
  one_zone = sym (length-select i s.zones) ∙ ap (length {A = Zone}) (get_zone-select i s z found)

  pub update_zone-EndsWith : (z' : Zone) → z'.id ≡ i → ZoneEndsWith i (some z') s (update_zone z' s)
  unfolding update_zone get_zone
  update_zone-EndsWith z' e = record {
    store = record s { zones = write_zone z' s.zones };
    returned = rw e (ground (arith, one_zone));
    records = refl;
    recordsets = refl;
    zones = λ j. ground (arith, select-write j z' s.zones, get_zone-select i s z found);
  }

  pub delete_zone-EndsWith : ZoneEndsWith i none s (delete_zone i s)
  unfolding delete_zone get_zone
  delete_zone-EndsWith = record {
    store = record s { zones = reject (has_zone_id i) s.zones };
    returned = ground (arith, one_zone);
    records = refl;
    recordsets = refl;
    zones = λ j. ground (arith, select-reject j i s.zones, get_zone-select i s z found);
  }

  id-found : z.id ≡ i
  id-found = select_sound i s.zones z [] (get_zone-select i s z found)

  -- A zone that is not written is as it was.
  same-EndsWith : ZoneEndsWith i (some z) s (some s)
  same-EndsWith = record {
    store = s;
    returned = refl;
    records = refl;
    recordsets = refl;
    zones = λ j. ground (arith, found);
  }

  keep_zone_same : (status : Status) → ZoneEndsWith i (some z) s (keep_zone_with status z s)
  unfolding keep_zone_with
  keep_zone_same deleted = same-EndsWith
  keep_zone_same _ = update_zone-EndsWith z id-found

  keep_zone_new :
      (action : Action) (status : Status)
      → (status ≡ active) ⊎ (status ≡ error)
      → let z' = record z { action = action; status = status } in
        ZoneEndsWith i (some z') s (keep_zone_with status z' s)
  unfolding keep_zone_with
  keep_zone_new _ active h = update_zone-EndsWith _ id-found
  keep_zone_new _ error h = update_zone-EndsWith _ id-found
  keep_zone_new _ pending h = update_zone-EndsWith _ id-found
  keep_zone_new _ success h = update_zone-EndsWith _ id-found
  keep_zone_new _ no_zone h = update_zone-EndsWith _ id-found
  keep_zone_new _ deleted h = absurd (ground arith)

  change_zone-EndsWith :
      (c : Change) → IsPlain c → ZoneEndsWith i (after_change z c) s (change_zone z c s)
  unfolding change_zone keep_zone after_change
  change_zone-EndsWith unchanged h = keep_zone_same z.status
  change_zone-EndsWith (assign action status) h = keep_zone_new action status h
  change_zone-EndsWith removed h = rw id-found delete_zone-EndsWith

IsPlain-if : (b : Bool) (c d : Change) → IsPlain c → IsPlain d → IsPlain (if b then c else d)
IsPlain-if true c d h k = h
IsPlain-if false c d h k = k

acknowledged-IsPlain : (action : Action) → IsPlain (on_acknowledged action)
unfolding on_acknowledged
acknowledged-IsPlain create = inl refl
acknowledged-IsPlain update = inl refl
acknowledged-IsPlain delete = tt
acknowledged-IsPlain no_action = tt

transition-IsPlain :
    (report : Status) (serial : ℕ) (action : Action) (status : Status) (own : ℕ)
    → IsPlain (transition report serial action status own)
unfolding transition
transition-IsPlain success serial action status own =
    IsPlain-if _ (on_acknowledged action) unchanged (acknowledged-IsPlain action) tt
transition-IsPlain error serial action pending own =
    IsPlain-if _ (assign action error) unchanged (inr refl) tt
transition-IsPlain error _ _ _ _ = tt
transition-IsPlain no_zone _ _ _ _ = tt
transition-IsPlain active _ _ _ _ = tt
transition-IsPlain pending _ _ _ _ = tt
transition-IsPlain deleted _ _ _ _ = tt

zone_agrees :
    (report : Status) (serial : ℕ) (z : Zone)
    → after_change z (transition report serial z.action z.status z.serial)
      ≡ reported_zone report serial z
unfolding after_change transition
zone_agrees success serial z = ground arith
zone_agrees error serial z = ground arith
zone_agrees no_zone serial z = refl
zone_agrees active serial z = refl
zone_agrees pending serial z = refl
zone_agrees deleted serial z = refl

own_zone-EndsWith :
    (i : ℕ) (report : Status) (serial : ℕ) (s : Store) (z : Zone)
    → get_zone i s ≡ some z
    → ZoneEndsWith i (reported_zone report serial z) s (update_own_zone_status i report serial s)
unfolding update_own_zone_status
own_zone-EndsWith i report serial s z found =
    let c = transition report serial z.action z.status z.serial in
    rw found (
      subst (λ o. ZoneEndsWith i o s (change_zone z c s)) (zone_agrees report serial z)
        (change_zone-EndsWith i s z found c
          (transition-IsPlain report serial z.action z.status z.serial)))

pub get_zone_cong : (i : ℕ) (s s' : Store) → s'.zones ≡ s.zones → get_zone i s' ≡ get_zone i s
unfolding get_zone
get_zone_cong i s s' e = ground arith

pub IsWellFormed-cong :
    (s s' : Store)
    → s'.records ≡ s.records
    → s'.recordsets ≡ s.recordsets
    → IsWellFormed s
    → IsWellFormed s'
IsWellFormed-cong s s' e f w = record {
  distinct = subst HasDistinctIds (sym e) w.distinct;
  owned = λ rs h. ground (arith, w.owned rs);
  inhabited = λ rs h. ground (arith, w.inhabited rs);
}

-- How update_status ends for the zone `z` of the id `i`.
pub record IsReported (i : ℕ) (report : Status) (serial : ℕ) (z : Zone) (s : Store)
    (end : Option Store) : Type 0 where
  pub store : Store
  pub returned : end ≡ some store
  pub records : store.records ≡ reported_rows i report serial s.records
  pub zones :
      (j : ℕ) → get_zone j store ≡ (if j == i then reported_zone report serial z else get_zone j s)
  pub well_formed : IsWellFormed store

-- In well-formed tables update_status of a zone that is there raises nothing. The rows of the
-- zone's records and the zone itself are left as the report says (SUCCESS completes every change
-- that the serial covers, ERROR marks the pending ones, NO_ZONE removes all), every other record and
-- zone is as before, and the tables stay well-formed.
pub update_status-IsReported :
    (i : ℕ) (report : Status) (serial : ℕ) (z : Zone) (s : Store)
    → IsWellFormed s
    → get_zone i s ≡ some z
    → IsReported i report serial z s (update_status i report serial s)
unfolding update_status
update_status-IsReported i report serial z s w found =
    let rows = update_record_status-EndsWith i report serial s w in
    let row =
      own_zone-EndsWith i report serial rows.store z
        (get_zone_cong i s rows.store rows.zones ∙ found) in
    record {
      store = row.store;
      returned = rw rows.returned row.returned;
      records = row.records ∙ rows.records;
      zones = λ j. ground (arith, row.zones j, get_zone_cong j s rows.store rows.zones);
      well_formed =
          IsWellFormed-cong rows.store row.store row.records row.recordsets rows.well_formed;
    }
