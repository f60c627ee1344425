-- ===== src/Storage/Recordsets/Groups.antt =====
-- The recordsets are the groups of rows that stand together.
use mathlib.Core.List.{append_assoc}
use designate_private.Prelude.{
  ℕ, ◌≡◌, ◌≢◌, refl, ap, sym, ◌∙◌, inl, inr, Bool, true, Bool-cases, List, [], ◌∷◌, ◌++◌, ◌==◌,
  ==_eq, ==_ne, ==_false, ==_refl, if◌then◌else◌,
}
use designate_private.Prelude.Texts.{Text}
use designate_private.Storage.Recordsets.{
  RawRow, RecordSet, records_of, start_rrset, add_rdata, is_missing, collect, recordsets_of,
}

==_true : (a b : ℕ) → a ≡ b → (a == b) ≡ true
==_true a b h = ap (λ k. k == b) h ∙ ==_refl b

module _ {ℓ κ} {A : Type ℓ} {B : Type κ} (id_zname_map : ℕ → Text)
    (same : RecordSet A B → RecordSet A B → Bool) where
  -- A recordset before others takes the records of the first one if that has its id.
  unfoldable pub attach : RecordSet A B → List (RecordSet A B) → List (RecordSet A B)
  attach rrset [] = rrset ∷ []
  attach rrset (first ∷ rest) =
      if first.id == rrset.id
      then record rrset { records = rrset.records ++ first.records } ∷ rest
      else rrset ∷ first ∷ rest

  -- The groups, from the last row on.
  unfoldable pub groups : List (RawRow A B) → List (RecordSet A B)
  unfolding attach
  groups [] = []
  groups (row ∷ rows) = attach (start_rrset id_zname_map same row) (groups rows)

  attach_start :
      (g : RecordSet A B) (row : RawRow A B) (gs : List (RecordSet A B))
      → row.id ≢ g.id
      → attach g (attach (start_rrset id_zname_map same row) gs)
        ≡ g ∷ attach (start_rrset id_zname_map same row) gs
  unfolding attach
  attach_start g row [] h = rw (==_false (row.id) (g.id) h) refl
  attach_start g row (first ∷ rest) h = elim (Bool-cases (first.id == row.id)) [
    | inl e ↦ rw (e, ==_false (row.id) (g.id) h) refl
    | inr e ↦ rw (e, ==_false (row.id) (g.id) h) refl
  ]

  attach_add :
      (g : RecordSet A B) (row : RawRow A B) (gs : List (RecordSet A B))
      → row.id ≡ g.id
      → attach g (attach (start_rrset id_zname_map same row) gs)
        ≡ attach (add_rdata id_zname_map same g row) gs
  unfolding attach
  attach_add g row [] h = rw (==_true (row.id) (g.id) h) refl
  attach_add g row (first ∷ rest) h = elim (Bool-cases (first.id == row.id)) [
    | inl e ↦
        rw
          (
            e,
            ==_true (row.id) (g.id) h,
            ==_true (first.id) (g.id) (==_eq (first.id) (row.id) e ∙ h),
          )
          (ap (λ l. record g { records = l } ∷ rest)
            (sym (
              append_assoc (g.records) (records_of id_zname_map same (row.rdata)) (first.records))))
    | inr e ↦
        let other : first.id ≢ g.id = λ i. ==_ne (first.id) (row.id) e (i ∙ sym h) in
        rw (e, ==_true (row.id) (g.id) h, ==_false (first.id) (g.id) other) refl
  ]

  module _ (same_id : (g h : RecordSet A B) → same g h ≡ true → g.id ≡ h.id) where
    -- The last of the recordsets so far has another id.
    abbrev IsNew : List (RecordSet A B) → ℕ → Type 0
    IsNew [] i = Unit
    IsNew (g ∷ []) i = g.id ≢ i
    IsNew (g ∷ h ∷ rest) i = IsNew (h ∷ rest) i

    missing :
        (done : List (RecordSet A B)) (g : RecordSet A B)
        → IsNew done (g.id)
        → is_missing id_zname_map same done g ≡ true
    unfolding is_missing
    missing [] g n = refl
    missing (h ∷ []) g n = elim (Bool-cases (same h g)) [
      | inl e ↦ absurd (n (same_id h g e))
      | inr e ↦ rw e refl
    ]
    missing (h ∷ k ∷ rest) g n = missing (k ∷ rest) g n

    IsNew-append :
        (done : List (RecordSet A B)) (g : RecordSet A B) (i : ℕ)
        → g.id ≢ i
        → IsNew (done ++ g ∷ []) i
    IsNew-append [] g i h = h
    IsNew-append (k ∷ []) g i h = h
    IsNew-append (k ∷ l ∷ rest) g i h = IsNew-append (l ∷ rest) g i h

    collect-groups :
        (done : List (RecordSet A B)) (g : RecordSet A B) (rows : List (RawRow A B))
        → IsNew done (g.id)
        → collect id_zname_map same done g rows ≡ done ++ attach g (groups rows)
    unfolding collect attach groups
    collect-groups done g [] n = rw (missing done g n) refl
    collect-groups done g (row ∷ rows) n = elim (Bool-cases (row.id == g.id)) [
      | inl e ↦ rw e (
          collect-groups done (add_rdata id_zname_map same g row) rows n
          ∙ ap (λ l. done ++ l) (sym (attach_add g row (groups rows) (==_eq (row.id) (g.id) e))))
      | inr e ↦
          let other : row.id ≢ g.id = ==_ne (row.id) (g.id) e in
          rw e (
            collect-groups (done ++ g ∷ []) (start_rrset id_zname_map same row) rows
              (IsNew-append done g (row.id) (λ i. other (sym i)))
            ∙ append_assoc done (g ∷ []) (attach (start_rrset id_zname_map same row) (groups rows))
            ∙ ap (λ l. done ++ l) (sym (attach_start g row (groups rows) other)))
    ]

    -- Where recordsets that the code takes to be equal have one id, the loop answers the groups of rows
    -- of one id that stand together, in their order: each with the columns of its first row and the
    -- records of all its rows.
    pub recordsets_of-groups :
        (rows : List (RawRow A B)) → recordsets_of id_zname_map same rows ≡ groups rows
    unfolding recordsets_of groups
    recordsets_of-groups [] = refl
    recordsets_of-groups (row ∷ rows) =
        collect-groups [] (start_rrset id_zname_map same row) rows tt
