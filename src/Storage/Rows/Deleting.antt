-- ===== src/Storage/Rows/Deleting.antt =====
-- A row that was soft-deleted is not found any more.
use mathlib.Core.Path.{subst}
use designate_private.Prelude.{
  ℕ, suc, ◌≡◌, inl, inr, refl, ap, sym, ◌∙◌, Bool, true, false, Bool-cases, ◌&&◌, Option, none,
  some, List, [], ◌∷◌, map, ◌==◌, count, take, AreDistinct, arith,
}
use designate_private.Storage.Rows.{
  Table, Context, Row, Changes, found, duplicate, not_found, is_visible, passes_tenant,
  passes_deleted, matches, select, only_one, find_one, set_columns, refetch, update, delete,
}
use designate_private.Storage.Rows.Outcomes.{
  ids, count-matches, count_skip, count_more, update_outcome,
}

and_false : (b : Bool) → (b && false) ≡ false
and_false true = refl
and_false false = refl

module _ {ℓ} {A : Type ℓ} (table : Table) (context : Context) (id : ℕ) where
  select_none :
      (rows : List (Row A))
      → count (matches table context id) rows ≡ 0
      → select table context (λ (row : Row A). row.id == id) rows ≡ []
  unfolding select
  select_none [] h = refl
  select_none (row ∷ rows) h = elim (Bool-cases (matches table context id row)) [
    | inl m ↦ absurd (
        let k : suc (count (matches table context id) rows) ≡ 0 =
          sym (count_more table context id row rows m) ∙ h in
        omega arith)
    | inr m ↦ rw m (select_none rows (sym (count_skip table context id row rows m) ∙ h))
  ]

  hidden_row :
      (row : Row A) (d : ℕ)
      → table.has_deleted ≡ true
      → context.show_deleted ≡ false
      → row.deleted ≡ some d
      → is_visible table context row ≡ false
  unfolding is_visible passes_deleted
  hidden_row row d h k e = rw (h, k, e) (and_false (passes_tenant table context row))

  find_hidden :
      (rows : List (Row A)) (row : Row A)
      → AreDistinct (ids table context id rows)
      → refetch table context id rows ≡ some row
      → is_visible table context row ≡ false
      → find_one table context (λ (r : Row A). r.id == id) rows ≡ not_found
  unfolding find_one only_one
  find_hidden rows row h e v = elim (count-matches table context id rows h) [
    | inl (n, hidden) ↦ ap (λ l. only_one table context (take 2 l)) (select_none rows n)
    | inr (n, (other, i, w)) ↦ absurd (
        let j : some row ≡ some other = sym e ∙ i in
        let same : row ≡ other = cc in
        let k : false ≡ true = sym v ∙ ap (is_visible table context) same ∙ w in cc)
  ]

soft_delete {ℓ} :
    {A : Type ℓ} (table : Table) (context : Context) (breaks : List (Row A) → Bool)
    (marks : List (ℕ × A)) (id : ℕ) (rows : List (Row A))
    → table.has_deleted ≡ true
    → delete table context breaks false marks id rows
      ≡ update table context breaks id
          (record { new_tenant = none; new_deleted = some id; new_columns = marks })
          rows
unfolding delete
soft_delete table context breaks marks id rows h = rw h refl

-- After a soft delete of a row that answers with a row, no context that does not show deleted rows
-- finds one of that id; the table has a column `deleted` and no two rows of one id.
pub delete-find_one {ℓ} :
    {A : Type ℓ} (table : Table) (context other : Context) (breaks : List (Row A) → Bool)
    (marks : List (ℕ × A)) (id : ℕ) (rows left : List (Row A)) (answer : Option (Row A))
    → table.has_deleted ≡ true
    → other.show_deleted ≡ false
    → AreDistinct (map (λ (row : Row A). row.id) rows)
    → delete table context breaks false marks id rows ≡ (left, found answer)
    → find_one table other (λ (row : Row A). row.id == id) left ≡ not_found
unfolding set_columns refetch
delete-find_one {A = A} table context other breaks marks id rows left answer h k distinct e =
    let changes : Changes A = record {
      new_tenant = none;
      new_deleted = some id;
      new_columns = marks;
    } in
    let run : update table context breaks id changes rows ≡ (left, found answer) =
      sym (soft_delete table context breaks marks id rows h) ∙ e in
    elim (update_outcome table context id changes breaks rows distinct) [
      | inl (i, broken) ↦
          absurd (let j : duplicate ≡ found answer = ap (λ p. p.1) (sym i ∙ run) in cc)
      | inr (inl (i, hidden)) ↦
          absurd (let j : not_found ≡ found answer = ap (λ p. p.1) (sym i ∙ run) in cc)
      | inr (inr (row, updated, i, v, run_of, same, all, others)) ↦
          let one_table : updated ≡ left = ap (λ p. p.0) (sym run_of ∙ run) in
          subst (λ rs. find_one table other (λ (r : Row A). r.id == id) rs ≡ not_found) one_table
            (find_hidden table other id updated (set_columns table context changes row)
              (subst AreDistinct (sym all) distinct) same
              (hidden_row table other id (set_columns table context changes row) id h k refl))
    ]
