-- ===== src/Objects/Tracking/Tests.antt =====
-- An object with two fields.
use designate_private.Prelude.{ℕ, ◌≡◌, ◌⊎◌, refl, Bool, true, some, List, [], ◌∷◌, ◌==◌, ==_eq}
use designate_private.Objects.Tracking.{
  Object, lookup, store, contains, set_field, update, record_change, add, keep_original, keep_first,
  obj_reset_changes, obj_get_original_value, deepcopy, new,
}
use designate_private.Objects.Tracking.Originals.{obj_get_original_value-update}

abbrev loaded : Object ℕ
loaded = record { values = (1, 10) ∷ (2, 20) ∷ []; changes = 2 ∷ []; original_values = [] }

abbrev same_number : ℕ → ℕ → Bool
same_number a b = a == b

abbrev sets : List (ℕ × ℕ)
sets = (1, 11) ∷ (2, 20) ∷ (1, 12) ∷ []

obj_get_original_value-update_example :
    (obj_get_original_value 1 (update same_number sets (obj_reset_changes [] loaded)) ≡ some 10)
    × ((contains 1 ((update same_number sets (obj_reset_changes [] loaded)).changes) ≡ true)
        ⊎ (lookup 1 ((update same_number sets (obj_reset_changes [] loaded)).values) ≡ some 10))
unfolding lookup
obj_get_original_value-update_example =
    obj_get_original_value-update same_number (λ a b. ==_eq a b) 1 10 loaded sets refl

-- The copy does not know the original value.
deepcopy_test :
    obj_get_original_value 1
      (deepcopy same_number (update same_number sets (obj_reset_changes [] loaded)))
    ≡ some 12
unfolding deepcopy update set_field record_change obj_reset_changes obj_get_original_value lookup
    store add contains keep_original keep_first new
deepcopy_test = refl
