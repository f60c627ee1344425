-- ===== src/Producer/Paging/Listing.antt =====
-- The pages put together are the listing.
use mathlib.Core.List.{append_assoc}
use mathlib.Core.Path.{subst}
use designate_private.Prelude.{
  ℕ, zero, suc, ◌<◌, ◌≡◌, ◌≢◌, refl, ap, sym, ◌∙◌, Option, some, none, List, [], ◌∷◌, ◌++◌, map,
  ◌==◌, ==_refl, if◌then◌else◌, arith, length, take, drop, take-append-drop, length-drop-le,
  AreDistinct, All,
}
use designate_private.Producer.Paging.{last_item, yield_page, iter}

split_last {ℓ} :
    {A : Type ℓ} (x : A) (xs : List A) → (front : List A) × (x ∷ xs ≡ front ++ last_item x xs ∷ [])
unfolding last_item
split_last x [] = ([], refl)
split_last x (y ∷ ys) = let (front, e) = split_last y ys in (x ∷ front, ap (λ l. x ∷ l) e)

module _ {ℓ} {A : Type ℓ} (id_of : A → ℕ) where
  -- What stands after the item with this id.
  abbrev pub after : Option ℕ → List A → List A
  after none xs = xs
  after (some i) [] = []
  after (some i) (x ∷ xs) = let rest = after (some i) xs in if id_of x == i then xs else rest

  All-middle :
      (P : ℕ → Type 0) (xs : List A) (y : A) (zs : List A)
      → All P (map id_of (xs ++ y ∷ zs))
      → P (id_of y)
  All-middle P [] y zs h = h.0
  All-middle P (x ∷ xs) y zs h = All-middle P xs y zs h.1

  after-append :
      (xs : List A) (y : A) (zs : List A)
      → AreDistinct (map id_of (xs ++ y ∷ zs))
      → after (some (id_of y)) (xs ++ y ∷ zs) ≡ zs
  after-append [] y zs h = rw (==_refl (id_of y)) refl
  after-append (x ∷ xs) y zs h =
      let different : id_of x ≢ id_of y = All-middle (λ n. id_of x ≢ n) xs y zs h.0 in
      ground (arith, after-append xs y zs h.1)

  module _ (fetch : Option ℕ → List A) (all : List A) (limit : ℕ)
      (pages : (marker : Option ℕ) → fetch marker ≡ take (suc limit) (after marker all))
      (distinct : AreDistinct (map id_of all)) where
    iter_rest :
        (fuel : ℕ) (marker : Option ℕ) (seen xs : List A)
        → all ≡ seen ++ xs
        → after marker all ≡ xs
        → length xs < fuel
        → iter id_of fetch fuel marker ≡ some xs
    unfolding iter yield_page
    iter_rest zero marker seen xs e f h = absurd (omega arith)
    iter_rest (suc fuel) marker seen [] e f h = rw (pages marker, f) refl
    iter_rest (suc fuel) marker seen (x ∷ xs) e f h =
        let page : List A = take limit xs in
        let rest : List A = drop limit xs in
        let final : A = last_item x page in
        let (front, split) = split_last x page in
        let cut : all ≡ (seen ++ (front ++ final ∷ [])) ++ rest =
          e
          ∙ ap (λ l. seen ++ x ∷ l) (sym (take-append-drop limit xs))
          ∙ ap (λ l. seen ++ (l ++ rest)) split
          ∙ sym (append_assoc seen (front ++ final ∷ []) rest) in
        let place : all ≡ (seen ++ front) ++ final ∷ rest =
          cut
          ∙ ap (λ l. l ++ rest) (sym (append_assoc seen front (final ∷ [])))
          ∙ append_assoc (seen ++ front) (final ∷ []) rest in
        let behind : after (some (id_of final)) all ≡ rest =
          subst (λ l. after (some (id_of final)) l ≡ rest) (sym place)
            (after-append (seen ++ front) final rest
              (subst (λ l. AreDistinct (map id_of l)) place distinct)) in
        let next : iter id_of fetch fuel (some (id_of final)) ≡ some rest =
          iter_rest fuel (some (id_of final)) (seen ++ (front ++ final ∷ [])) rest cut behind
            (omega (arith, length-drop-le limit xs)) in
        rw (pages marker, f, next) (ap (λ l. some (x ∷ l)) (take-append-drop limit xs))

  -- A listing has no two items of one id and a page is what stands after its marker, cut at the
  -- limit, which is not 0. Then with a fuel above the number of items `_iter` ends, and it yields
  -- every item of the listing once and in its order.
  pub iter-after :
      (fetch : Option ℕ → List A) (all : List A) (limit fuel : ℕ)
      → ((marker : Option ℕ) → fetch marker ≡ take (suc limit) (after marker all))
      → AreDistinct (map id_of all)
      → length all < fuel
      → iter id_of fetch fuel none ≡ some all
  iter-after fetch all limit fuel pages distinct h =
      iter_rest fetch all limit pages distinct fuel none [] all refl refl h
