-- ===== src/Objects/Tracking/Originals.antt =====
-- The original value of a field is its value at the last reset.
use mathlib.Core.Path.{subst}
use designate_private.Prelude.{
  ℕ, ◌≡◌, ◌≢◌, ◌⊎◌, inl, inr, refl, ap, sym, ◌∙◌, Bool, true, false, Bool-cases, Option, none, some,
  List, [], ◌∷◌, ◌==◌, ==_refl, ==_eq, ==_ne, ==_false, if◌then◌else◌,
}
use designate_private.Objects.Tracking.{
  Object, lookup, store, contains, add, keep_first, keep_original, record_change, set_field, update,
  obj_reset_changes, obj_get_original_value,
}

pub lookup-store_same {ℓ} :
    {A : Type ℓ} (k : ℕ) (a : A) (d : List (ℕ × A)) → lookup k (store k a d) ≡ some a
unfolding lookup store
lookup-store_same k a [] = rw (==_refl k) refl
lookup-store_same k a ((l, b) ∷ d) = elim (Bool-cases (l == k)) [
  | inl e ↦ rw (e, ==_refl k) refl
  | inr e ↦ rw (e, e) (lookup-store_same k a d)
]

pub lookup-store_other {ℓ} :
    {A : Type ℓ} (k l : ℕ) (a : A) (d : List (ℕ × A)) → k ≢ l → lookup l (store k a d) ≡ lookup l d
unfolding lookup store
lookup-store_other k l a [] h = rw (==_false k l h) refl
lookup-store_other k l a ((m, b) ∷ d) h = elim (Bool-cases (m == k)) [
  | inl e ↦
      let differs : m ≢ l = λ i. h (sym (==_eq m k e) ∙ i) in
      rw (e, ==_false k l h, ==_false m l differs) refl
  | inr e ↦ rw (e) (ap (λ o. if m == l then some b else o) (lookup-store_other k l a d h))
]

contains-add :
    (k l : ℕ) (s : List ℕ) → contains l (add k s) ≡ (if k == l then true else contains l s)
unfolding contains add
contains-add k l s = elim (Bool-cases (contains k s)) [
  | inl e ↦ rw e (elim (Bool-cases (k == l)) [
    | inl i ↦ rw i (sym (ap (λ j. contains j s) (==_eq k l i)) ∙ e)
    | inr i ↦ rw i refl
  ])
  | inr e ↦ rw e refl
]

contains-add_other : (k l : ℕ) (s : List ℕ) → k ≢ l → contains l (add k s) ≡ contains l s
contains-add_other k l s h = contains-add k l s ∙ rw (==_false k l h) refl

contains-add_same : (k : ℕ) (s : List ℕ) → contains k (add k s) ≡ true
contains-add_same k s = contains-add k k s ∙ rw (==_refl k) refl

keep_first_other {ℓ} :
    {A : Type ℓ} (name field : ℕ) (old : A) (kept : Option A) (originals : List (ℕ × A))
    → name ≢ field
    → lookup field (keep_first name old kept originals) ≡ lookup field originals
unfolding keep_first
keep_first_other name field old none originals h = lookup-store_other name field old originals h
keep_first_other name field old (some kept) originals h = refl

keep_original_other {ℓ} :
    {A : Type ℓ} (name field : ℕ) (old : A) (originals : List (ℕ × A))
    → name ≢ field
    → lookup field (keep_original name old originals) ≡ lookup field originals
unfolding keep_original
keep_original_other name field old originals h =
    keep_first_other name field old (lookup name originals) originals h

-- The first value is kept.
keep_original_same {ℓ} :
    {A : Type ℓ} (field : ℕ) (old v : A) (originals : List (ℕ × A))
    → (lookup field originals ≡ some v) ⊎ ((lookup field originals ≡ none) × (old ≡ v))
    → lookup field (keep_original field old originals) ≡ some v
unfolding keep_original keep_first
keep_original_same field old v originals (inl e) =
    ap (λ o. lookup field (keep_first field old o originals)) e ∙ e
keep_original_same field old v originals (inr (e, same)) =
    ap (λ o. lookup field (keep_first field old o originals)) e
    ∙ lookup-store_same field old originals
    ∙ ap some same

added : (k : ℕ) (s : List ℕ) → contains k (add k s) ≢ false
added k s h = let e : true ≡ false = sym (contains-add_same k s) ∙ h in cc

original_value {ℓ} :
    {A : Type ℓ} (field : ℕ) (v : A) (obj : Object A)
    → (lookup field (obj.original_values) ≡ some v)
      ⊎ ((lookup field (obj.original_values) ≡ none) × (lookup field (obj.values) ≡ some v))
    → obj_get_original_value field obj ≡ some v
unfolding obj_get_original_value
original_value field v obj (inl e) =
    ap (λ o. elim o [ none ↦ lookup field (obj.values) | some a ↦ some a ]) e
original_value field v obj (inr (e, current)) =
    ap (λ o. elim o [ none ↦ lookup field (obj.values) | some a ↦ some a ]) e ∙ current

module _ {ℓ} {A : Type ℓ} (same : A → A → Bool) where
  record_change-values :
      (name : ℕ) (value : A) (old : Option A) (obj : Object A)
      → (record_change same name value old obj).values ≡ obj.values
  unfolding record_change
  record_change-values name value none obj = refl
  record_change-values name value (some old) obj = elim (Bool-cases (same value old)) [
    | inl e ↦ rw e refl
    | inr e ↦ rw e refl
  ]

  record_change_other :
      (name field : ℕ) (value : A) (old : Option A) (obj : Object A)
      → name ≢ field
      → (contains field ((record_change same name value old obj).changes)
          ≡ contains field (obj.changes))
        × (lookup field ((record_change same name value old obj).original_values)
            ≡ lookup field (obj.original_values))
  unfolding record_change
  record_change_other name field value none obj h =
      (contains-add_other name field (obj.changes) h, refl)
  record_change_other name field value (some old) obj h = elim (Bool-cases (same value old)) [
    | inl e ↦ rw e (refl, refl)
    | inr e ↦
        rw e (contains-add_other name field (obj.changes) h, keep_original_other name field old _ h)
  ]

  set_field_other :
      (name field : ℕ) (value : A) (obj : Object A)
      → name ≢ field
      → (lookup field ((set_field same name value obj).values) ≡ lookup field (obj.values))
        × (contains field ((set_field same name value obj).changes) ≡ contains field (obj.changes))
        × (lookup field ((set_field same name value obj).original_values)
            ≡ lookup field (obj.original_values))
  unfolding set_field
  set_field_other name field value obj h =
      let others = record_change_other name field value (lookup name (obj.values)) obj h in
      (
        lookup-store_other name field value _ h
            ∙ ap (lookup field) (record_change-values name value (lookup name (obj.values)) obj),
        others.0,
        others.1,
      )

  module _ (same_eq : (a b : A) → same a b ≡ true → a ≡ b) where
    -- The field had the value `v` at the last reset.
    abbrev IsTracked : ℕ → A → Object A → Type ℓ
    IsTracked field v obj =
        (contains field (obj.changes) ≡ false → lookup field (obj.values) ≡ some v)
        × ((lookup field (obj.original_values) ≡ some v)
            ⊎ ((lookup field (obj.original_values) ≡ none) × (lookup field (obj.values) ≡ some v)))

    set_same :
        (field : ℕ) (value v : A) (obj : Object A) (old : Option A)
        → lookup field (obj.values) ≡ old
        → IsTracked field v obj
        → IsTracked field v (record (record_change same field value old obj) {
          values = store field value ((record_change same field value old obj).values);
        })
    unfolding record_change
    set_same field value v obj none e (now, inl original) =
        (λ h. absurd (added field (obj.changes) h), inl original)
    set_same field value v obj none e (now, inr (empty, current)) =
        absurd (let i : none ≡ some v = sym e ∙ current in cc)
    set_same field value v obj (some old) e (now, originally) = elim (Bool-cases (same value old)) [
      | inl i ↦ rw i (
          let stays : lookup field (store field value (obj.values)) ≡ lookup field (obj.values) =
            lookup-store_same field value (obj.values) ∙ ap some (same_eq value old i) ∙ sym e in
          (
            λ h. stays ∙ now h,
            elim originally [ inl o ↦ inl o | inr (empty, current) ↦ inr (empty, stays ∙ current) ],
          ))
      | inr i ↦ rw i (
        λ h. absurd (added field (obj.changes) h),
        inl (
            keep_original_same field old v (obj.original_values) (elim originally [
              | inl o ↦ inl o
              | inr (empty, current) ↦
                  inr (empty, let j : some old ≡ some v = sym e ∙ current in cc)
            ])),
      )
    ]

    IsTracked-set_field :
        (field : ℕ) (v : A) (name : ℕ) (value : A) (obj : Object A)
        → IsTracked field v obj
        → IsTracked field v (set_field same name value obj)
    unfolding set_field
    IsTracked-set_field field v name value obj (now, originally) =
        elim (Bool-cases (name == field)) [
          | inl e ↦
              subst (λ k. IsTracked field v (set_field same k value obj)) (sym (==_eq name field e))
                (set_same field value v obj (lookup field (obj.values)) refl (now, originally))
          | inr e ↦
              let (values, changes, originals) =
                set_field_other name field value obj (==_ne name field e) in
              (
                λ h. values ∙ now (sym changes ∙ h),
                elim originally [
                  | inl o ↦ inl (originals ∙ o)
                  | inr (empty, current) ↦ inr (originals ∙ empty, values ∙ current)
                ],
              )
        ]

    IsTracked-update :
        (field : ℕ) (v : A) (sets : List (ℕ × A)) (obj : Object A)
        → IsTracked field v obj
        → IsTracked field v (update same sets obj)
    unfolding update
    IsTracked-update field v [] obj h = h
    IsTracked-update field v ((name, value) ∷ sets) obj h =
        IsTracked-update field v sets (set_field same name value obj)
          (IsTracked-set_field field v name value obj h)

    -- A field is set when all changes are reset, and then fields of the object are set, any of them
    -- any number of times, where values that are the same are equal. Then the original value of the
    -- field is the one that it had at the reset, and unless the field is among the changes it still
    -- has that value.
    pub obj_get_original_value-update :
        (field : ℕ) (v : A) (obj : Object A) (sets : List (ℕ × A))
        → lookup field (obj.values) ≡ some v
        → (obj_get_original_value field (update same sets (obj_reset_changes [] obj)) ≡ some v)
          × ((contains field ((update same sets (obj_reset_changes [] obj)).changes) ≡ true)
              ⊎ (lookup field ((update same sets (obj_reset_changes [] obj)).values) ≡ some v))
    unfolding obj_reset_changes obj_get_original_value
    obj_get_original_value-update field v obj sets h =
        let reset : Object A = obj_reset_changes [] obj in
        let tracked = IsTracked-update field v sets reset (λ i. h, inr (refl, h)) in
        (
          original_value field v (update same sets reset) tracked.1,
          elim (Bool-cases (contains field ((update same sets reset).changes))) [
            | inl changed ↦ inl changed
            | inr unchanged ↦ inr (tracked.0 unchanged)
          ],
        )
