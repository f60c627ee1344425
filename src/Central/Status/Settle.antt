-- ===== src/Central/Status/Settle.antt =====
-- A loop that settles records one by one, each found by its id, does to the table what one pass over
-- the rows would do, raises no exception, and keeps the tables well-formed.
use mathlib.Core.Path.{subst}
use mathlib.Core.List.{append_assoc}
use designate_private.Prelude.{
  ◌>>=◌, ℕ, ◌+◌, ◌<◌, ◌≡◌, refl, sym, ap, ◌∙◌, inl, inr, Bool, true, false, Option, some, List, [],
  ◌∷◌, ◌++◌, arith, ◌==◌, count, Bool-cases, if◌then◌else◌,
}
use designate_private.Central.Store.{
  Record, Store, has_id, is_part_of, select, reject, write, update_record, delete_record,
  delete_if_empty,
}
use designate_private.Central.Store.Rows.{
  HasDistinctIds, HasDistinctIds-without, HasDistinctIds-replaced, count_one, reject_one, write_one,
  count-append,
}
use designate_private.Central.Status.{
  Verdict, leave, drop, drop_associated, put, put_and_drop, drop_record, settle, settle_all,
}

abbrev pub is_recordset : ℕ → ℕ → Bool
is_recordset rs x = x == rs

-- Ids are distinct; a recordset that has records stands in its table, once; and no recordset is
-- without records.
pub record IsWellFormed (s : Store) : Type 0 where
  pub distinct : HasDistinctIds s.records
  pub owned :
      (rs : ℕ) → 0 < count (is_part_of rs) s.records → count (is_recordset rs) s.recordsets ≡ 1
  pub inhabited :
      (rs : ℕ) → 0 < count (is_recordset rs) s.recordsets → 0 < count (is_part_of rs) s.records

count-reject_recordset :
    (k rs : ℕ) (l : List ℕ)
    → count (is_recordset rs) (reject (is_recordset k) l)
      ≡ (if rs == k then 0 else count (is_recordset rs) l)
unfolding reject
count-reject_recordset k rs [] = ground arith
count-reject_recordset k rs (x ∷ l) = ground (arith, count-reject_recordset k rs l)

abbrev one_if : Bool → ℕ
one_if true = 1
one_if false = 0

count-middle :
    (p : Record → Bool) (before : List Record) (r : Record) (rest : List Record)
    → count p (before ++ r ∷ rest) ≡ one_if (p r) + count p (before ++ rest)
count-middle p before r rest = rw (count-append, count-append) (ground arith)

-- A verdict may write a row only over the row of the same id, and leave its recordset alone.
abbrev pub KeepsPlace : Record → Verdict → Type 0
KeepsPlace r (put r') = (r'.id ≡ r.id) × (r'.recordset_id ≡ r.recordset_id)
KeepsPlace r (put_and_drop r') = (r'.id ≡ r.id) × (r'.recordset_id ≡ r.recordset_id)
KeepsPlace r drop_associated = ⊥
KeepsPlace r _ = Unit

-- The rows that are left of a row.
abbrev pub after : Verdict → Record → List Record
after leave r = r ∷ []
after (put r') r = r' ∷ []
after _ r = []

-- How a step or a loop ends.
pub record EndsWith (rows : List Record) (s : Store) (end : Option Store) : Type 0 where
  pub store : Store
  pub returned : end ≡ some store
  pub records : store.records ≡ rows
  pub zones : store.zones ≡ s.zones
  pub well_formed : IsWellFormed store

module _ (s : Store) (before : List Record) (r : Record) (rest : List Record)
    (rows : s.records ≡ before ++ r ∷ rest) (w : IsWellFormed s) where
  distinct_rows : HasDistinctIds (before ++ r ∷ rest)
  distinct_rows = subst HasDistinctIds rows w.distinct

  count_rows :
      (rs : ℕ)
      → count (is_part_of rs) s.records
        ≡ one_if (is_part_of rs r) + count (is_part_of rs) (before ++ rest)
  count_rows rs = ap (count (is_part_of rs)) rows ∙ count-middle (is_part_of rs) before r rest

  counted : (i : ℕ) → i ≡ r.id → count (has_id i) s.records ≡ 1
  counted i e = ap (count (has_id i)) rows ∙ rw e (count_one before r rest distinct_rows)

  count_replaced :
      (r' : Record) (rs : ℕ)
      → r'.recordset_id ≡ r.recordset_id
      → count (is_part_of rs) (before ++ r' ∷ rest) ≡ count (is_part_of rs) s.records
  count_replaced r' rs f =
      count-middle (is_part_of rs) before r' rest
      ∙ ap (λ k. one_if (k == rs) + count (is_part_of rs) (before ++ rest)) f
      ∙ sym (count_rows rs)

  put-EndsWith :
      (r' : Record)
      → r'.id ≡ r.id
      → r'.recordset_id ≡ r.recordset_id
      → EndsWith (before ++ r' ∷ rest) s (update_record r' s)
  unfolding update_record
  put-EndsWith r' e f = record {
    store = record s { records = before ++ r' ∷ rest };
    returned =
        ground
          (arith, counted r'.id e, ap (write r') rows, write_one before r rest distinct_rows r' e);
    records = refl;
    zones = refl;
    well_formed = record {
      distinct = HasDistinctIds-replaced before r r' rest e distinct_rows;
      owned = λ rs h. w.owned rs (omega (arith, count_replaced r' rs f));
      inhabited = λ rs h. omega (arith, count_replaced r' rs f, w.inhabited rs h);
    };
  }

  -- The recordset of the row is there, once.
  owned_here : count (is_recordset r.recordset_id) s.recordsets ≡ 1
  owned_here = w.owned r.recordset_id (ground (arith, count_rows r.recordset_id))

  abbrev without : Store
  without = record s { records = before ++ rest }

  abbrev emptied : Store
  emptied = record s {
    records = before ++ rest;
    recordsets = reject (is_recordset r.recordset_id) s.recordsets;
  }

  deleted-without : delete_record r.id s ≡ some without
  unfolding delete_record
  deleted-without = ground (
    arith,
    counted r.id refl,
    ap (reject (has_id r.id)) rows,
    reject_one before r rest distinct_rows,
  )

  drop-EndsWith : EndsWith (before ++ rest) s (drop_record r s)
  unfolding drop_record delete_if_empty
  drop-EndsWith = elim (Bool-cases (count (is_part_of r.recordset_id) (before ++ rest) == 0)) [
    | inl alone ↦ record {
      store = emptied;
      returned = rw deleted-without (ground (arith, owned_here));
      records = refl;
      zones = refl;
      well_formed = record {
        distinct = HasDistinctIds-without before r rest distinct_rows;
        owned = λ rs h. ground (
          arith,
          w.owned rs,
          count_rows rs,
          count-reject_recordset r.recordset_id rs s.recordsets,
        );
        inhabited = λ rs h. ground (
          arith,
          w.inhabited rs,
          count_rows rs,
          count-reject_recordset r.recordset_id rs s.recordsets,
        );
      };
    }
    | inr more ↦ record {
      store = without;
      returned = rw deleted-without (ground (arith, owned_here));
      records = refl;
      zones = refl;
      well_formed = record {
        distinct = HasDistinctIds-without before r rest distinct_rows;
        owned = λ rs h. ground (arith, w.owned rs, count_rows rs);
        inhabited = λ rs h. ground (arith, w.inhabited rs, count_rows rs);
      };
    }
  ]

-- A step and what follows it.
then-EndsWith :
    {rows rows' : List Record} {s : Store} (m : Option Store) (f : Store → Option Store)
    (e : EndsWith rows s m)
    → EndsWith rows' e.store (f e.store)
    → EndsWith rows' s (m >>= f)
then-EndsWith m f e e' = record {
  store = e'.store;
  returned = rw e.returned e'.returned;
  records = e'.records;
  zones = e'.zones ∙ e.zones;
  well_formed = e'.well_formed;
}

drop_record_cong :
    (r r' : Record) (s : Store)
    → r'.id ≡ r.id
    → r'.recordset_id ≡ r.recordset_id
    → drop_record r' s ≡ drop_record r s
unfolding drop_record
drop_record_cong r r' s e f = rw (e, f) refl

settle-EndsWith :
    (v : Verdict) (s : Store) (before : List Record) (r : Record) (rest : List Record)
    → s.records ≡ before ++ r ∷ rest
    → IsWellFormed s
    → KeepsPlace r v
    → EndsWith (before ++ after v r ++ rest) s (settle v r s)
unfolding settle
settle-EndsWith leave s before r rest rows w k = record {
  store = s;
  returned = refl;
  records = rows ∙ sym (append_assoc before (r ∷ []) rest);
  zones = refl;
  well_formed = w;
}
settle-EndsWith (put r') s before r rest rows w k =
    subst (λ l. EndsWith l s (update_record r' s)) (sym (append_assoc before (r' ∷ []) rest))
      (put-EndsWith s before r rest rows w r' k.0 k.1)
settle-EndsWith drop s before r rest rows w k =
    subst (λ l. EndsWith l s (drop_record r s)) (sym (append_assoc before [] rest))
      (drop-EndsWith s before r rest rows w)
settle-EndsWith (put_and_drop r') s before r rest rows w k =
    let written = put-EndsWith s before r rest rows w r' k.0 k.1 in
    let dropped = drop-EndsWith written.store before r' rest written.records written.well_formed in
    then-EndsWith (update_record r' s) (drop_record r) written (
      subst (EndsWith (before ++ [] ++ rest) written.store)
        (drop_record_cong r r' written.store k.0 k.1)
        (subst (λ l. EndsWith l written.store (drop_record r' written.store))
          (sym (append_assoc before [] rest)) dropped))
settle-EndsWith drop_associated s before r rest rows w k = absurd k

-- One pass over the rows: the verdict on each row that `p` selects, the others as they are.
abbrev pub outcome : (Record → Bool) → (Record → Verdict) → List Record → List Record
outcome p judge [] = []
outcome p judge (r ∷ rs) = (if p r then after (judge r) r else r ∷ []) ++ outcome p judge rs

module _ (p : Record → Bool) (judge : Record → Verdict)
    (keeps : (r : Record) → KeepsPlace r (judge r)) where
  settle_all-from :
      (todo : List Record) (s : Store) (before : List Record)
      → s.records ≡ before ++ todo
      → IsWellFormed s
      → EndsWith (before ++ outcome p judge todo) s (settle_all judge (select p todo) s)
  unfolding settle_all select
  settle_all-from [] s before rows w = record {
    store = s;
    returned = refl;
    records = rows;
    zones = refl;
    well_formed = w;
  }
  settle_all-from (r ∷ todo) s before rows w = elim (Bool-cases (p r)) [
    | inl chosen ↦
        let stepped = settle-EndsWith (judge r) s before r todo rows w (keeps r) in
        rw chosen (
          rw (← append_assoc) (
            then-EndsWith (settle (judge r) r s) (settle_all judge (select p todo)) stepped (
              settle_all-from todo stepped.store (before ++ after (judge r) r) stepped.records
                stepped.well_formed)))
    | inr passed ↦ rw passed (
        rw (← append_assoc) (
          settle_all-from todo s (before ++ r ∷ []) (rows ∙ sym (append_assoc before (r ∷ []) todo))
            w))
  ]

  -- The loop over the rows that `p` selects.
  pub settle_all-EndsWith :
      (s : Store)
      → IsWellFormed s
      → EndsWith (outcome p judge s.records) s (settle_all judge (select p s.records) s)
  settle_all-EndsWith s w = settle_all-from s.records s [] refl w
