-- ===== src/Producer/Paging/Tests.antt =====
-- Three items, two on a page.
use designate_private.Prelude.{ℕ, ◌≡◌, refl, Option, some, none, List, [], ◌∷◌, take, arith}
use designate_private.Producer.Paging.{iter}
use designate_private.Producer.Paging.Listing.{after, iter-after}

abbrev items : List ℕ
items = 3 ∷ 1 ∷ 9 ∷ []

abbrev find_items : Option ℕ → List ℕ
find_items marker = take 2 (after (λ i. i) marker items)

iter-after_example : iter (λ i. i) find_items 4 none ≡ some items
iter-after_example =
    iter-after (λ i. i) find_items items 1 4 (λ marker. refl)
      (((λ e. omega arith), ((λ e. omega arith), tt)), (((λ e. omega arith), tt), (tt, tt)))
      (omega arith)
