-- ===== src/Central/Purge/Rows.antt =====
-- The rows after one step of the purge.
use mathlib.Core.Path.{subst}
use designate_private.Prelude.{
  ℕ, ◌≡◌, refl, sym, ap, ◌⊎◌, inl, inr, Bool, true, false, Option, List, [], ◌∷◌, arith, ◌==◌,
  if◌then◌else◌, IsIn, Bool-cases,
}
use designate_private.Central.Purge.{Node, is_parent, reparent, delete_row}

either_way :
    (b : Bool) (u v z : Node) (rest : List Node)
    → IsIn z (if b then u ∷ rest else v ∷ rest)
    → (((b ≡ true) × (u ≡ z)) ⊎ ((b ≡ false) × (v ≡ z))) ⊎ IsIn z rest
either_way true u v z rest (inl e) = inl (inl (refl, e))
either_way false u v z rest (inl e) = inl (inr (refl, e))
either_way true u v z rest (inr h) = inr h
either_way false u v z rest (inr h) = inr h

unless_hit :
    (b : Bool) (x z : Node) (rest : List Node)
    → IsIn z (if b then rest else x ∷ rest)
    → ((b ≡ false) × (x ≡ z)) ⊎ IsIn z rest
unless_hit true x z rest h = inr h
unless_hit false x z rest (inl e) = inl (refl, e)
unless_hit false x z rest (inr h) = inr h

pub reparent-member :
    (id : ℕ) (survivor : Option ℕ) (t : List Node) (z : Node)
    → IsIn z (reparent id survivor t)
    → (y : Node) × IsIn y t
      × (y.id ≡ z.id)
      × ((z.parent ≡ survivor) ⊎ ((z.parent ≡ y.parent) × (is_parent id z.parent ≡ false)))
unfolding reparent
reparent-member id survivor [] z h = absurd h
reparent-member id survivor (x ∷ xs) z h =
    elim (either_way (is_parent id x.parent) (record x { parent = survivor }) x z
      (reparent id survivor xs) h) [
        | inl (inl (b, e)) ↦
            (x, inl refl, ap (λ (r : Node). r.id) e, inl (sym (ap (λ (r : Node). r.parent) e)))
        | inl (inr (b, e)) ↦ (
          x,
          inl refl,
          ap (λ (r : Node). r.id) e,
          inr (
            sym (ap (λ (r : Node). r.parent) e),
            subst (λ (r : Node). is_parent id r.parent ≡ false) e b,
          ),
        )
        | inr more ↦
            let (y, y_in, same, how) = reparent-member id survivor xs z more in
            (y, inr y_in, same, how)
      ]

pub reparent-keeps :
    (id : ℕ) (survivor : Option ℕ) (t : List Node) (y : Node)
    → IsIn y t
    → (z : Node) × IsIn z (reparent id survivor t) × (z.id ≡ y.id)
unfolding reparent
reparent-keeps id survivor [] y h = absurd h
reparent-keeps id survivor (x ∷ xs) y (inl same) = elim (Bool-cases (is_parent id x.parent)) [
  | inl child ↦ (record x { parent = survivor }, rw child (inl refl), ap (λ (r : Node). r.id) same)
  | inr other ↦ (x, rw other (inl refl), ap (λ (r : Node). r.id) same)
]
reparent-keeps id survivor (x ∷ xs) y (inr more) =
    let (z, z_in, same) = reparent-keeps id survivor xs y more in
    elim (Bool-cases (is_parent id x.parent)) [
      | inl child ↦ (z, rw child (inr z_in), same)
      | inr other ↦ (z, rw other (inr z_in), same)
    ]

pub delete_row-member :
    (id : ℕ) (t : List Node) (z : Node)
    → IsIn z (delete_row id t)
    → IsIn z t × ((z.id == id) ≡ false)
unfolding delete_row
delete_row-member id [] z h = absurd h
delete_row-member id (x ∷ xs) z h = elim (unless_hit (x.id == id) x z (delete_row id xs) h) [
  | inl (b, e) ↦ (inl e, subst (λ (r : Node). (r.id == id) ≡ false) e b)
  | inr more ↦ let (z_in, apart) = delete_row-member id xs z more in (inr z_in, apart)
]

pub delete_row-keeps :
    (id : ℕ) (t : List Node) (z : Node) → IsIn z t → (z.id == id) ≡ false → IsIn z (delete_row id t)
unfolding delete_row
delete_row-keeps id [] z h e = absurd h
delete_row-keeps id (x ∷ xs) z (inl same) e = ground arith
delete_row-keeps id (x ∷ xs) z (inr more) e = ground (arith, delete_row-keeps id xs z more e)
