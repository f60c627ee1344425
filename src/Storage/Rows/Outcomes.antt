-- ===== src/Storage/Rows/Outcomes.antt =====
-- The outcomes of an update of an id: which rows match, and what set_columns leaves of them.
use designate_private.Prelude.{
  ℕ, suc, ◌≡◌, ◌≢◌, ◌⊎◌, inl, inr, refl, ap, sym, ◌∙◌, Bool, true, false, Bool-cases, none, some,
  Option-cases, List, [], ◌∷◌, map, ◌==◌, ==_eq, ==_ne, ==_false, if◌then◌else◌, count, All,
  AreDistinct, arith,
}
use designate_private.Storage.Rows.{
  Table, Context, Row, Changes, found, duplicate, not_found, is_visible, matches, set_columns,
  update_rows, refetch, update,
}

module _ {ℓ} {A : Type ℓ} (table : Table) (context : Context) (id : ℕ) where
  abbrev pub ids : List (Row A) → List ℕ
  ids rows = map (λ (row : Row A). row.id) rows

  refetch_skip :
      (row : Row A) (rows : List (Row A))
      → (row.id == id) ≡ false
      → refetch table context id (row ∷ rows) ≡ refetch table context id rows
  unfolding refetch
  refetch_skip row rows e = rw e refl

  refetch_first :
      (row : Row A) (rows : List (Row A))
      → (row.id == id) ≡ true
      → some row ≡ refetch table context id (row ∷ rows)
  unfolding refetch
  refetch_first row rows e = rw e refl

  pub count_skip :
      (row : Row A) (rows : List (Row A))
      → matches table context id row ≡ false
      → count (matches table context id) (row ∷ rows) ≡ count (matches table context id) rows
  count_skip row rows e = rw (e, count) refl

  pub count_more :
      (row : Row A) (rows : List (Row A))
      → matches table context id row ≡ true
      → count (matches table context id) (row ∷ rows) ≡ suc (count (matches table context id) rows)
  count_more row rows e = rw (e, count) refl

  not_matching : (row : Row A) → (row.id == id) ≡ false → matches table context id row ≡ false
  not_matching row e = rw e refl

  matching :
      (row : Row A)
      → matches table context id row ≡ true
      → ((row.id == id) ≡ true) × (is_visible table context row ≡ true)
  matching row m = elim (Bool-cases (row.id == id)) [
    | inl e ↦ (e, sym (visible_part e) ∙ m)
    | inr e ↦ absurd (let i : false ≡ true = sym (not_matching row e) ∙ m in cc)
  ]
    where
      visible_part :
          (row.id == id) ≡ true → matches table context id row ≡ is_visible table context row
      visible_part e = rw e refl

  absent :
      (rows : List (Row A)) (n : ℕ)
      → n ≡ id
      → All (λ m. n ≢ m) (ids rows)
      → (count (matches table context id) rows ≡ 0) × (refetch table context id rows ≡ none)
  unfolding refetch
  absent [] n e h = (refl, refl)
  absent (row ∷ rows) n e h =
      let differs : (row.id == id) ≡ false = ==_false (row.id) id (λ i. h.0 (e ∙ sym i)) in
      let rest = absent rows n e h.1 in
      (
        count_skip row rows (not_matching row differs) ∙ rest.0,
        refetch_skip row rows differs ∙ rest.1,
      )

  -- At most the row that has the id matches, and only if it is visible.
  pub count-matches :
      (rows : List (Row A))
      → AreDistinct (ids rows)
      → ((count (matches table context id) rows ≡ 0)
          × ((row : Row A)
              → refetch table context id rows ≡ some row
              → is_visible table context row ≡ false))
        ⊎ ((count (matches table context id) rows ≡ 1)
            × ((row : Row A) × (refetch table context id rows ≡ some row)
                × (is_visible table context row ≡ true)))
  unfolding refetch
  count-matches [] h = inl (refl, λ row e. absurd cc)
  count-matches (row ∷ rows) h = elim (Bool-cases (row.id == id)) [
    | inl e ↦
        let none_else = absent rows (row.id) (==_eq (row.id) id e) h.0 in
        elim (Bool-cases (is_visible table context row)) [
          | inl v ↦
              inr (count_more row rows (rw (e, v) refl) ∙ ap suc none_else.0, (row, rw e refl, v))
          | inr v ↦ inl (
            count_skip row rows (rw (e, v) refl) ∙ none_else.0,
            λ other i.
                let j : some row ≡ some other = refetch_first row rows e ∙ i in
                let same : row ≡ other = cc in ap (is_visible table context) (sym same) ∙ v,
          )
        ]
    | inr e ↦ elim (count-matches rows h.1) [
      | inl (n, hidden) ↦ inl (
        count_skip row rows (not_matching row e) ∙ n,
        λ other i. hidden other (sym (refetch_skip row rows e) ∙ i),
      )
      | inr (n, (other, i, v)) ↦
          inr
            (count_skip row rows (not_matching row e) ∙ n, (other, refetch_skip row rows e ∙ i, v))
    ]
  ]

  hidden_row :
      (rows : List (Row A))
      → ((row : Row A)
          → refetch table context id rows ≡ some row
          → is_visible table context row ≡ false)
      → (refetch table context id rows ≡ none)
        ⊎ ((row : Row A) × (refetch table context id rows ≡ some row)
            × (is_visible table context row ≡ false))
  hidden_row rows h = elim (Option-cases (refetch table context id rows)) [
    | inl e ↦ inl e
    | inr (row, e) ↦ inr (row, e, h row e)
  ]

  module _ (changes : Changes A) where
    update_rows_none :
        (rows : List (Row A))
        → count (matches table context id) rows ≡ 0
        → update_rows table context id changes rows ≡ rows
    unfolding update_rows
    update_rows_none [] h = refl
    update_rows_none (row ∷ rows) h = elim (Bool-cases (matches table context id row)) [
      | inl m ↦ absurd (
          let k : suc (count (matches table context id) rows) ≡ 0 =
            sym (count_more row rows m) ∙ h in
          omega arith)
      | inr m ↦ rw m (ap (λ l. row ∷ l) (update_rows_none rows (sym (count_skip row rows m) ∙ h)))
    ]

    refetch_other :
        (j : ℕ) (rows : List (Row A))
        → id ≢ j
        → refetch table context j (update_rows table context id changes rows)
          ≡ refetch table context j rows
    unfolding update_rows refetch set_columns
    refetch_other j [] h = refl
    refetch_other j (row ∷ rows) h = elim (Bool-cases (matches table context id row)) [
      | inl m ↦
          let differs : (row.id == j) ≡ false =
            ==_false (row.id) j (λ i. h (sym (==_eq (row.id) id (matching row m).0) ∙ i)) in
          rw (m, differs) (refetch_other j rows h)
      | inr m ↦ rw m (ap (λ o. if row.id == j then some row else o) (refetch_other j rows h))
    ]

    refetch_same :
        (rows : List (Row A)) (row : Row A)
        → refetch table context id rows ≡ some row
        → is_visible table context row ≡ true
        → refetch table context id (update_rows table context id changes rows)
          ≡ some (set_columns table context changes row)
    unfolding update_rows refetch set_columns
    refetch_same [] row e v = absurd cc
    refetch_same (first ∷ rows) row e v = elim (Bool-cases (first.id == id)) [
      | inl i ↦
          let j : some first ≡ some row = refetch_first first rows i ∙ e in
          let same : first ≡ row = cc in
          let w : is_visible table context first ≡ true = ap (is_visible table context) same ∙ v in
          rw (i, w, i) (ap (λ r. some (set_columns table context changes r)) same)
      | inr i ↦ rw (i, i) (refetch_same rows row (sym (refetch_skip first rows i) ∙ e) v)
    ]

    ids-update_rows :
        (rows : List (Row A)) → ids (update_rows table context id changes rows) ≡ ids rows
    unfolding update_rows set_columns
    ids-update_rows [] = refl
    ids-update_rows (row ∷ rows) = elim (Bool-cases (matches table context id row)) [
      | inl m ↦ rw m (ap (λ l. row.id ∷ l) (ids-update_rows rows))
      | inr m ↦ rw m (ap (λ l. row.id ∷ l) (ids-update_rows rows))
    ]

    pub update_outcome :
        (breaks : List (Row A) → Bool) (rows : List (Row A))
        → AreDistinct (ids rows)
        → ((update table context breaks id changes rows ≡ (rows, duplicate))
            × (breaks (update_rows table context id changes rows) ≡ true))
          ⊎ (((update table context breaks id changes rows ≡ (rows, not_found))
                × ((refetch table context id rows ≡ none)
                    ⊎ ((row : Row A) × (refetch table context id rows ≡ some row)
                        × (is_visible table context row ≡ false))))
              ⊎ ((row : Row A) × (updated : List (Row A)) × (refetch table context id rows
                    ≡ some row)
                  × (is_visible table context row ≡ true)
                  × (update table context breaks id changes rows
                      ≡ (updated, found (some (set_columns table context changes row))))
                  × (refetch table context id updated
                      ≡ some (set_columns table context changes row))
                  × (ids updated ≡ ids rows)
                  × ((j : ℕ)
                      → (id ≡ j)
                        ⊎ (refetch table context j updated ≡ refetch table context j rows))))
    unfolding update
    update_outcome breaks rows h =
        let updated = update_rows table context id changes rows in
        elim (Bool-cases (breaks updated)) [
          | inl e ↦ inl (rw e refl, e)
          | inr e ↦ elim (count-matches rows h) [
            | inl (n, hidden) ↦ inr (
                inl (
                  rw (e, n) (ap (λ l. (l, not_found)) (update_rows_none rows n)),
                  hidden_row rows hidden,
                ))
            | inr (n, (row, i, v)) ↦
                let same = refetch_same rows row i v in
                inr (
                  inr (
                    row,
                    updated,
                    i,
                    v,
                    rw (e, n) (ap (λ o. (updated, found o)) same),
                    same,
                    ids-update_rows rows,
                    λ j. elim (Bool-cases (id == j)) [
                      | inl d ↦ inl (==_eq id j d)
                      | inr d ↦ inr (refetch_other j rows (==_ne id j d))
                    ],
                  ))
          ]
        ]
