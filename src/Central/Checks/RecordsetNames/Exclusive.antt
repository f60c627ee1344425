-- ===== src/Central/Checks/RecordsetNames/Exclusive.antt =====
-- A CNAME has its name for itself.
use designate_private.Prelude.{
  ℕ, ◌≡◌, sym, ap, ◌∙◌, ◌⊎◌, inl, inr, Bool, true, false, Option, some, none, List, [], ◌∷◌, arith,
  IsIn,
}
use designate_private.Prelude.Texts.{Text, text_eq_iff}
use designate_private.Central.Checks.{passed, >>-passed, refuse_if-passed, ZoneRow}
use designate_private.Central.Checks.RecordsetNames.{
  RecordsetRow, shares_name, find_recordsets, is_itself, is_taken, is_valid_recordset_placement,
  Site, validate_recordset, put,
}

-- Of two recordsets of one zone with one name neither is a CNAME.
abbrev pub IsExclusive : List RecordsetRow → Type 0
IsExclusive rs =
    (r s : RecordsetRow)
    → IsIn r rs
    → IsIn s rs
    → r.is_cname ≡ true
    → s.zone_id ≡ r.zone_id
    → s.name ≡ r.name
    → s.id ≡ r.id

find_recordsets_complete :
    (p : RecordsetRow → Bool) (rs : List RecordsetRow) (y : RecordsetRow)
    → IsIn y rs
    → p y ≡ true
    → IsIn y (find_recordsets p rs)
unfolding find_recordsets
find_recordsets_complete p [] y h e = absurd h
find_recordsets_complete p (r ∷ rs) y (inl same) e = ground arith
find_recordsets_complete p (r ∷ rs) y (inr more) e =
    ground (arith, find_recordsets_complete p rs y more e)

is_taken-own :
    (own : Option ℕ) (found : List RecordsetRow) (y : RecordsetRow)
    → is_taken own found ≡ false
    → IsIn y found
    → own ≡ some y.id
unfolding is_taken is_itself
is_taken-own own [] y e h = absurd h
is_taken-own none (r ∷ []) y e h = cc
is_taken-own (some i) (r ∷ []) y e (inl same) = ground arith
is_taken-own (some i) (r ∷ []) y e (inr more) = absurd more
is_taken-own own (r ∷ s ∷ rs) y e h = cc

shares_name-holds :
    (zone_id : ℕ) (name : Text) (cname : Bool) (y : RecordsetRow)
    → y.zone_id ≡ zone_id
    → y.name ≡ name
    → (cname ≡ true) ⊎ (y.is_cname ≡ true)
    → shares_name zone_id name cname y ≡ true
unfolding shares_name
shares_name-holds zone_id name cname y z n c = ground (arith, (text_eq_iff y.name name).1 n)

put-members :
    (r : RecordsetRow) (rs : List RecordsetRow) (y : RecordsetRow)
    → IsIn y (put r rs)
    → IsIn y (r ∷ rs)
unfolding put
put-members r [] y h = h
put-members r (x ∷ xs) y h = ground (arith, put-members r xs y)

-- A row of the same zone and name as a change that passed, one of them a CNAME, has the id that the
-- change has.
partner-own :
    (recordsets : List RecordsetRow) (zone : ZoneRow) (name : Text) (cname : Bool) (own : Option ℕ)
    → is_valid_recordset_placement recordsets zone name cname own ≡ passed tt
    → (y : RecordsetRow) → IsIn y recordsets
    → y.zone_id ≡ zone.id
    → y.name ≡ name
    → (cname ≡ true) ⊎ (y.is_cname ≡ true)
    → own ≡ some y.id
unfolding is_valid_recordset_placement
partner-own recordsets zone name cname own e y h z n c =
    is_taken-own own (find_recordsets (shares_name zone.id name cname) recordsets) y
      (refuse_if-passed _ _ (>>-passed _ _ tt e).1)
      (find_recordsets_complete (shares_name zone.id name cname) recordsets y h
        (shares_name-holds zone.id name cname y z n c))

validated-placed :
    (site : Site) (zone : ZoneRow) (ttl : Option ℕ) (name : Text) (cname : Bool) (own : Option ℕ)
    (record_count : ℕ)
    → validate_recordset site zone ttl name cname own record_count ≡ passed tt
    → is_valid_recordset_placement site.recordsets zone name cname own ≡ passed tt
unfolding validate_recordset
validated-placed site zone ttl name cname own record_count e =
    (>>-passed _ _ tt (>>-passed _ _ tt (>>-passed _ _ tt e).1).1).0

-- Where no CNAME shares its zone and name with another recordset, none does after a recordset that
-- _validate_recordset passes is stored: a new one, or a change of the one that has its id.
pub validate_recordset-IsExclusive :
    (site : Site) (zone : ZoneRow) (ttl : Option ℕ) (name : Text) (cname : Bool) (own : Option ℕ)
    (record_count new_id : ℕ)
    → validate_recordset site zone ttl name cname own record_count ≡ passed tt
    → (own ≡ none) ⊎ (own ≡ some new_id)
    → IsExclusive site.recordsets
    → IsExclusive (
        put
          (record { id = new_id; zone_id = zone.id; name = name; is_cname = cname })
          site.recordsets)
validate_recordset-IsExclusive site zone ttl name cname own record_count new_id e who before r s
      r_in s_in c z n =
    let row : RecordsetRow = record {
      id = new_id;
      zone_id = zone.id;
      name = name;
      is_cname = cname;
    } in
    let placed = validated-placed site zone ttl name cname own record_count e in
    let partner = partner-own site.recordsets zone name cname own placed in
    elim (put-members row site.recordsets r r_in) [
      | inl a ↦ elim (put-members row site.recordsets s s_in) [
        | inl b ↦ ap (λ (x : RecordsetRow). x.id) (sym b ∙ a)
        | inr b ↦ ground (arith, partner s b, who)
      ]
      | inr a ↦ elim (put-members row site.recordsets s s_in) [
        | inl b ↦ ground (arith, partner r a, who)
        | inr b ↦ before r s a b c z n
      ]
    ]
