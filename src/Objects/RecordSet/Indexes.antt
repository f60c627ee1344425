-- ===== src/Objects/RecordSet/Indexes.antt =====
-- The indexes that `validate` reports, and when it accepts.
use designate_private.Prelude.{
  ℕ, zero, suc, ◌+◌, ◌≤◌, ◌<◌, ◌≡◌, ◌↔◌, refl, ap, sym, ◌∙◌, inl, inr, Bool, true, false,
  Bool-cases, Option-cases, Option, some, none, List, [], ◌∷◌, ◌++◌, leb, arith, length, All, map,
  count, count-le-length, ◌>>=◌,
}
use designate_private.Objects.RecordSet.{
  Loaded, loaded, broken, raised, Outcome, accepted, rejected, is_index, skip_broken, relocate,
  load_records, conclude, validate_loaded, schema_error, broken_at, one_loaded, one_broken,
  validate,
}

fewer : (i : ℕ) (js : List ℕ) → count (leb (suc i)) js ≤ count (leb i) js
fewer i [] = omega arith
fewer i (j ∷ js) = ground (arith, fewer i js)

one_fewer : (i : ℕ) (js : List ℕ) → is_index i js ≡ true → count (leb (suc i)) js < count (leb i) js
unfolding is_index
one_fewer i [] h = absurd cc
one_fewer i (j ∷ js) h = ground (arith, one_fewer i js, fewer i js)

skip_broken-Fresh :
    (fuel : ℕ) (error_indexes : List ℕ) (increment i : ℕ)
    → count (leb i) error_indexes < fuel
    → (more : ℕ) × (j : ℕ) × (skip_broken fuel error_indexes increment i ≡ some (more, j))
      × (is_index j error_indexes ≡ false)
      × (i ≤ j)
unfolding skip_broken
skip_broken-Fresh zero error_indexes increment i h = absurd (omega arith)
skip_broken-Fresh (suc fuel) error_indexes increment i h =
    elim (Bool-cases (is_index i error_indexes)) [
      | inl e ↦
          let (more, j, run, fresh, later) =
            skip_broken-Fresh fuel error_indexes (suc increment) (suc i)
              (omega (arith, one_fewer i error_indexes e)) in
          (more, j, rw e run, fresh, omega (arith, later))
      | inr e ↦ (increment, i, rw e refl, e, omega arith)
    ]

abbrev pub IsFresh : List ℕ → Option ℕ → Type 0
IsFresh error_indexes none = Unit
IsFresh error_indexes (some i) = is_index i error_indexes ≡ false

-- With a fuel above the number of records that could not be loaded the loops over the schema's errors
-- end, there are as many errors as before, and no error of the schema is reported at the index of a
-- record that could not be loaded.
pub relocate-IsFresh :
    (fuel : ℕ) (error_indexes : List ℕ) (increment : ℕ) (errors : List (Option ℕ))
    → length error_indexes < fuel
    → (moved : List (Option ℕ)) × (relocate fuel error_indexes increment errors ≡ some moved)
      × (length moved ≡ length errors)
      × All (IsFresh error_indexes) moved
unfolding relocate
relocate-IsFresh fuel error_indexes increment [] h = ([], refl, refl, tt)
relocate-IsFresh fuel error_indexes increment (none ∷ errors) h =
    let (moved, run, long, fresh) = relocate-IsFresh fuel error_indexes increment errors h in
    (none ∷ moved, rw run refl, ap suc long, (tt, fresh))
relocate-IsFresh fuel error_indexes increment (some i ∷ errors) h =
    let (more, j, step, here, later) =
      skip_broken-Fresh fuel error_indexes increment (i + increment)
        (omega (arith, count-le-length (leb (i + increment)) error_indexes)) in
    let (moved, run, long, fresh) = relocate-IsFresh fuel error_indexes more errors h in
    (some j ∷ moved, rw (step, run) refl, ap suc long, (here, fresh))

module _ {ℓ} {A : Type ℓ} where
  load_all : (i : ℕ) (seen : List A) → load_records i (map loaded seen) ≡ some (seen, [])
  unfolding load_records
  load_all i [] = refl
  load_all i (a ∷ seen) = rw (load_all (suc i) seen) refl

  all_loaded :
      (i : ℕ) (records : List (Loaded A)) (seen : List A)
      → load_records i records ≡ some (seen, [])
      → records ≡ map loaded seen
  unfolding load_records
  all_loaded i [] seen h = ap (map loaded) (let e : [] ≡ seen = cc in e)
  all_loaded i (loaded a ∷ rest) seen h = elim (Option-cases (load_records (suc i) rest)) [
    | inl e ↦ absurd (let j : none ≡ some (seen, []) = ap (one_loaded a) (sym e) ∙ h in cc)
    | inr ((readable, errors), e) ↦
        let j : ◌≡◌ {A = Option (List A × List ℕ)} (some (a ∷ readable, errors)) (some (seen, [])) =
          ap (one_loaded a) (sym e) ∙ h in
        let none_broken : errors ≡ [] = cc in
        let same : a ∷ readable ≡ seen = cc in
        ap (λ l. loaded a ∷ l)
          (all_loaded (suc i) rest readable (e ∙ ap (λ l. some (readable, l)) none_broken))
        ∙ ap (map loaded) same
  ]
  all_loaded i (broken ∷ rest) seen h = elim (Option-cases (load_records (suc i) rest)) [
    | inl e ↦ absurd (let j : none ≡ some (seen, []) = ap (one_broken i) (sym e) ∙ h in cc)
    | inr ((records, errors), e) ↦
        absurd (
          let j : some (records, i ∷ errors) ≡ some (seen, []) = ap (one_broken i) (sym e) ∙ h in
          cc)
  ]
  all_loaded i (raised ∷ rest) seen h = absurd cc

report : List ℕ → Option (List (Option ℕ)) → Option Outcome
report is moved = moved >>= λ m. some (rejected (map schema_error m ++ map broken_at is))

conclude-report :
    (fuel : ℕ) (is : List ℕ) (e : Option ℕ) (errors : List (Option ℕ))
    → report is (relocate fuel is 0 (e ∷ errors)) ≡ conclude fuel is (e ∷ errors)
unfolding conclude report
conclude-report fuel [] e errors = refl
conclude-report fuel (i ∷ is) e errors = refl

conclude-accepted :
    (fuel : ℕ) (error_indexes : List ℕ) (errors : List (Option ℕ))
    → conclude fuel error_indexes errors ≡ some accepted
    → (error_indexes ≡ []) × (errors ≡ [])
unfolding conclude report
conclude-accepted fuel [] [] h = (refl, refl)
conclude-accepted fuel (i ∷ is) [] h = absurd cc
conclude-accepted fuel is (e ∷ errors) h = elim (Option-cases (relocate fuel is 0 (e ∷ errors))) [
  | inl i ↦ absurd (let j = ap (report is) (sym i) ∙ conclude-report fuel is e errors ∙ h in cc)
  | inr (moved, i) ↦
      absurd (let j = ap (report is) (sym i) ∙ conclude-report fuel is e errors ∙ h in cc)
]

module _ {ℓ} {A : Type ℓ} where
  -- A recordset is accepted exactly when its type exists and is supported, every record of it can be
  -- read, and the schema has no error on the records that were read.
  pub validate-accepted :
      (fuel : ℕ) (is_known is_supported : Bool) (check : List A → List (Option ℕ))
      (records : List (Loaded A))
      → (validate fuel is_known is_supported check records ≡ some accepted) ↔ (
          (is_known ≡ true)
          × (is_supported ≡ true)
          × ((seen : List A) × (records ≡ map loaded seen) × (check seen ≡ [])))
  unfolding validate validate_loaded conclude
  validate-accepted fuel false is_supported check records = (λ h. absurd cc, λ h. absurd cc)
  validate-accepted fuel true false check records = (λ h. absurd cc, λ h. absurd cc)
  validate-accepted fuel true true check records = (
    λ h. elim (Option-cases (load_records 0 records)) [
      | inl e ↦ absurd (
          let j : some (rejected []) ≡ some accepted =
            ap (validate_loaded fuel check) (sym e) ∙ h in
          cc)
      | inr ((seen, errors), e) ↦
          let (whole, passed) =
            conclude-accepted fuel errors (check seen)
              (ap (validate_loaded fuel check) (sym e) ∙ h) in
          (
            refl,
            refl,
            (seen, all_loaded 0 records seen (e ∙ ap (λ l. some (seen, l)) whole), passed),
          )
    ],
    λ (known, supported, (seen, all, passed)).
        ap (λ l. validate_loaded fuel check (load_records 0 l)) all
        ∙ ap (validate_loaded fuel check) (load_all 0 seen)
        ∙ ap (conclude fuel []) passed,
  )
