-- ===== src/Objects/Tracking.antt =====
-- objects/base.py: the fields of an object and what has changed. Every property of a class goes
-- through the setter of `make_class_properties`; a field is a number, and `same` is Python's ==.
pub mod Originals
mod Tests
use designate_private.Prelude.{
  ℕ, Bool, true, false, Option, none, some, List, [], ◌∷◌, ◌==◌, if◌then◌else◌,
}

-- A dictionary whose keys are fields.
unfoldable pub lookup {ℓ} : {A : Type ℓ} → ℕ → List (ℕ × A) → Option A
lookup k [] = none
lookup k ((l, a) ∷ rest) = let found = lookup k rest in if l == k then some a else found

unfoldable pub store {ℓ} : {A : Type ℓ} → ℕ → A → List (ℕ × A) → List (ℕ × A)
store k a [] = (k, a) ∷ []
store k a ((l, b) ∷ rest) =
    let others = store k a rest in if l == k then (k, a) ∷ rest else (l, b) ∷ others

-- dict.pop(k, None)
unfoldable pub discard {ℓ} : {A : Type ℓ} → ℕ → List (ℕ × A) → List (ℕ × A)
discard k [] = []
discard k ((l, a) ∷ rest) =
    let others = discard k rest in if l == k then others else (l, a) ∷ others

unfoldable pub contains : ℕ → List ℕ → Bool
contains k [] = false
contains k (l ∷ ls) = let rest = contains k ls in if l == k then true else rest

-- A set of fields: a member is not added again.
unfoldable pub add : ℕ → List ℕ → List ℕ
unfolding contains
add k set = if contains k set then set else k ∷ set

unfoldable pub remove : ℕ → List ℕ → List ℕ
remove k [] = []
remove k (l ∷ ls) = let rest = remove k ls in if l == k then rest else l ∷ rest

pub record Object {ℓ} (A : Type ℓ) : Type ℓ where
  pub values : List (ℕ × A)
  pub changes : List ℕ
  pub original_values : List (ℕ × A)

module _ {ℓ} {A : Type ℓ} where
  abbrev pub obj_attr_is_set : ℕ → Object A → Bool
  unfolding lookup
  obj_attr_is_set name obj = elim (lookup name (obj.values)) [ none ↦ false | some a ↦ true ]

  -- `kept` is what the original values have of the field.
  unfoldable pub keep_first : ℕ → A → Option A → List (ℕ × A) → List (ℕ × A)
  unfolding store
  keep_first name old none originals = store name old originals
  keep_first name old (some kept) originals = originals

  unfoldable pub keep_original : ℕ → A → List (ℕ × A) → List (ℕ × A)
  unfolding lookup keep_first
  keep_original name old originals = keep_first name old (lookup name originals) originals

  module _ (same : A → A → Bool) where
    -- What the setter records of a field whose value was `old`; `none` is that it was not set.
    unfoldable pub record_change : ℕ → A → Option A → Object A → Object A
    unfolding add keep_original
    record_change name value none obj = record obj { changes = add name (obj.changes) }
    record_change name value (some old) obj = if same value old then obj else record obj {
      changes = add name (obj.changes);
      original_values = keep_original name old (obj.original_values);
    }

    unfoldable pub set_field : ℕ → A → Object A → Object A
    unfolding record_change lookup store
    set_field name value obj =
        let recorded = record_change name value (lookup name (obj.values)) obj in
        record recorded { values = store name value (recorded.values) }

    unfoldable pub update : List (ℕ × A) → Object A → Object A
    unfolding set_field
    update [] obj = obj
    update ((name, value) ∷ rest) obj = update rest (set_field name value obj)

  reset_fields : List ℕ → Object A → Object A
  unfolding remove discard
  reset_fields [] obj = obj
  reset_fields (name ∷ rest) obj = reset_fields rest (record obj {
    changes = remove name (obj.changes);
    original_values = discard name (obj.original_values);
  })

  -- No fields are all of them.
  unfoldable pub obj_reset_changes : List ℕ → Object A → Object A
  unfolding reset_fields
  obj_reset_changes [] obj = record obj { changes = []; original_values = [] }
  obj_reset_changes (name ∷ rest) obj = reset_fields (name ∷ rest) obj

  -- The changed fields and their values; a relation that is not loaded is RelationNotLoaded, `none`.
  unfoldable pub changes_of : List (ℕ × A) → List ℕ → Option (List (ℕ × A))
  unfolding lookup
  changes_of values [] = some []
  changes_of values (name ∷ names) =
      let rest = changes_of values names in
      elim (lookup name values) [
        | none ↦ none
        | some a ↦ elim rest [ none ↦ none | some others ↦ some ((name, a) ∷ others) ]
      ]

  pub obj_get_changes : Object A → Option (List (ℕ × A))
  unfolding changes_of
  obj_get_changes obj = changes_of (obj.values) (obj.changes)

  -- `none` is KeyError.
  unfoldable pub obj_get_original_value : ℕ → Object A → Option A
  unfolding lookup
  obj_get_original_value field obj = elim (lookup field (obj.original_values)) [
    | none ↦ lookup field (obj.values)
    | some a ↦ some a
  ]

  unfoldable pub new : Object A
  new = record { values = []; changes = []; original_values = [] }

  -- The copy's fields are set one by one, then it takes over the changes.
  unfoldable pub deepcopy : (A → A → Bool) → Object A → Object A
  unfolding update new
  deepcopy same obj = record (update same (obj.values) new) { changes = obj.changes }
