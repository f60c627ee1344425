-- ===== src/Central/Store/Rows.antt =====
-- Writing and deleting one row of a list in which the ids are distinct.
use designate_private.Prelude.{
  ℕ, ◌+◌, ◌≡◌, ◌≢◌, refl, sym, ap, ◌∙◌, Bool, List, [], ◌∷◌, ◌++◌, arith, All, count, if◌then◌else◌,
}
use designate_private.Central.Store.{Record, has_id, reject, write}

-- No row has this id.
abbrev pub IsFresh : ℕ → List Record → Type 0
IsFresh i rows = All (λ x. x.id ≢ i) rows

abbrev pub HasDistinctIds : List Record → Type 0
HasDistinctIds [] = Unit
HasDistinctIds (r ∷ rows) = IsFresh r.id rows × HasDistinctIds rows

module _ {A : Type 0} (p : A → Bool) where
  pub count-append : (xs ys : List A) → count p (xs ++ ys) ≡ count p xs + count p ys
  count-append [] ys = omega arith
  count-append (x ∷ xs) ys = ground (arith, count-append xs ys)

  pub reject-append : (xs ys : List A) → reject p (xs ++ ys) ≡ reject p xs ++ reject p ys
  unfolding reject
  reject-append [] ys = refl
  reject-append (x ∷ xs) ys = ground (arith, reject-append xs ys)

pub write-append :
    (r : Record) (xs ys : List Record) → write r (xs ++ ys) ≡ write r xs ++ write r ys
unfolding write
write-append r [] ys = refl
write-append r (x ∷ xs) ys = ap (λ l. (if has_id r.id x then r else x) ∷ l) (write-append r xs ys)

module _ (i : ℕ) where
  pub count-IsFresh : (rows : List Record) → IsFresh i rows → count (has_id i) rows ≡ 0
  count-IsFresh [] f = refl
  count-IsFresh (x ∷ rows) f = ground (arith, count-IsFresh rows f.1, f.0)

  pub reject-IsFresh : (rows : List Record) → IsFresh i rows → reject (has_id i) rows ≡ rows
  unfolding reject
  reject-IsFresh [] f = refl
  reject-IsFresh (x ∷ rows) f = ground (arith, reject-IsFresh rows f.1, f.0)

pub write-IsFresh : (r : Record) (rows : List Record) → IsFresh r.id rows → write r rows ≡ rows
unfolding write
write-IsFresh r [] f = refl
write-IsFresh r (x ∷ rows) f = ground (arith, write-IsFresh r rows f.1, f.0)

-- In a list of distinct ids the other rows have other ids than the row `r` among them.
pub IsFresh-around :
    (before : List Record) (r : Record) (rest : List Record)
    → HasDistinctIds (before ++ r ∷ rest)
    → IsFresh r.id before × IsFresh r.id rest
IsFresh-around [] r rest d = (tt, d.0)
IsFresh-around (x ∷ before) r rest d =
    let (early, late) = IsFresh-around before r rest d.1 in ((other before d.0, early), late)
  where
    other : (l : List Record) → IsFresh x.id (l ++ r ∷ rest) → x.id ≢ r.id
    other [] f = λ e. f.0 (sym e)
    other (y ∷ l) f = other l f.1

IsFresh-without :
    (i : ℕ) (before : List Record) (r : Record) (rest : List Record)
    → IsFresh i (before ++ r ∷ rest)
    → IsFresh i (before ++ rest)
IsFresh-without i [] r rest f = f.1
IsFresh-without i (x ∷ before) r rest f = (f.0, IsFresh-without i before r rest f.1)

pub HasDistinctIds-without :
    (before : List Record) (r : Record) (rest : List Record)
    → HasDistinctIds (before ++ r ∷ rest)
    → HasDistinctIds (before ++ rest)
HasDistinctIds-without [] r rest d = d.1
HasDistinctIds-without (x ∷ before) r rest d =
    (IsFresh-without x.id before r rest d.0, HasDistinctIds-without before r rest d.1)

IsFresh-replaced :
    (i : ℕ) (before : List Record) (r r' : Record) (rest : List Record)
    → r'.id ≡ r.id
    → IsFresh i (before ++ r ∷ rest)
    → IsFresh i (before ++ r' ∷ rest)
IsFresh-replaced i [] r r' rest e f = (λ h. f.0 (sym e ∙ h), f.1)
IsFresh-replaced i (x ∷ before) r r' rest e f = (f.0, IsFresh-replaced i before r r' rest e f.1)

pub HasDistinctIds-replaced :
    (before : List Record) (r r' : Record) (rest : List Record)
    → r'.id ≡ r.id
    → HasDistinctIds (before ++ r ∷ rest)
    → HasDistinctIds (before ++ r' ∷ rest)
HasDistinctIds-replaced [] r r' rest e d = (rw e d.0, d.1)
HasDistinctIds-replaced (x ∷ before) r r' rest e d =
    (IsFresh-replaced x.id before r r' rest e d.0, HasDistinctIds-replaced before r r' rest e d.1)

module _ (before : List Record) (r : Record) (rest : List Record)
    (d : HasDistinctIds (before ++ r ∷ rest)) where
  pub count_one : count (has_id r.id) (before ++ r ∷ rest) ≡ 1
  count_one =
      let (early, late) = IsFresh-around before r rest d in
      rw count-append
        (ground (arith, count-IsFresh r.id before early, count-IsFresh r.id rest late))

  pub reject_one : reject (has_id r.id) (before ++ r ∷ rest) ≡ before ++ rest
  unfolding reject
  reject_one =
      let (early, late) = IsFresh-around before r rest d in
      rw (reject-append, reject-IsFresh r.id before early, reject-IsFresh r.id rest late)
        (ground arith)

  pub write_one : (r' : Record) → r'.id ≡ r.id → write r' (before ++ r ∷ rest) ≡ before ++ r' ∷ rest
  unfolding write
  write_one r' e =
      let (early, late) = IsFresh-around before r rest d in
      rw (write-append, write-IsFresh r' before (rw e early), write-IsFresh r' rest (rw e late))
        (ground arith)
