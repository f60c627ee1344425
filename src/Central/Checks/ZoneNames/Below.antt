-- ===== src/Central/Checks/ZoneNames/Below.antt =====
-- _is_superzone finds every zone below a name.
use mathlib.Core.Path.{subst}
use designate_private.Prelude.{
  ℕ, ◌≡◌, refl, sym, inl, inr, true, List, [], ◌∷◌, ◌++◌, arith, IsIn, ==_refl,
}
use designate_private.Prelude.Texts.{Text, dot}
use designate_private.Central.Checks.{ZoneRow}
use designate_private.Central.Checks.ZoneNames.{is_like, ends_like, is_superzone}
use designate_private.Central.Checks.ZoneNames.Closest.{Encloses}

is_like_refl : (t : Text) → is_like t t ≡ true
unfolding is_like
is_like_refl [] = refl
is_like_refl (c ∷ t) = ground (arith, is_like_refl t, ==_refl c)

ends_like-append : (p t : Text) → ends_like (p ++ t) t ≡ true
unfolding ends_like
ends_like-append [] [] = unfold is_like in refl
ends_like-append [] (c ∷ t) = ground (arith, is_like_refl (c ∷ t))
ends_like-append (c ∷ p) t = ground (arith, ends_like-append p t)

pub is_superzone_complete :
    (zones : List ZoneRow) (name : Text) (pool_id : ℕ) (z : ZoneRow)
    → IsIn z zones
    → Encloses name z.name
    → z.pool_id ≡ pool_id
    → IsIn z (is_superzone zones name pool_id)
unfolding is_superzone
is_superzone_complete [] name pool_id z h below e = absurd h
is_superzone_complete (y ∷ zones) name pool_id z h below e =
    let like : ends_like z.name (dot ∷ name) ≡ true =
      subst (λ t. ends_like t (dot ∷ name) ≡ true) (sym below.1)
        (ends_like-append below.0 (dot ∷ name)) in
    elim h [
      | inl same ↦ ground (arith, like)
      | inr more ↦
          let found = is_superzone_complete zones name pool_id z more below e in ground arith
    ]
