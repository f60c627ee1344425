-- ===== src/Coordination/Partitioner/Agreement.antt =====
-- All members compute their shares from the same order of the group.
use mathlib.Core.Path.{ap₂}
use mathlib.Core.Logic.{∥∥₁_elim}
use mathlib.Core.List.{Perm, Permᴰ}
use designate_private.Prelude.{ℕ, ◌≡◌, refl, ap, ◌∙◌, List, [], ◌∷◌, arith}
use designate_private.Coordination.Partitioner.{insert, sorted, partition, update_partitions}

insert_comm : (a b : ℕ) (l : List ℕ) → insert a (insert b l) ≡ insert b (insert a l)
unfolding insert
insert_comm a b [] = ground arith
insert_comm a b (c ∷ l) = ground (arith, insert_comm a b l)

List-ℕ-set : IsSet (List ℕ)
List-ℕ-set = hlevel

sorted-permᴰ : {xs ys : List ℕ} → Permᴰ xs ys → sorted xs ≡ sorted ys
unfolding sorted
sorted-permᴰ Permᴰ.nil = refl
sorted-permᴰ (Permᴰ.cons {l₂ = l₂} e p) =
    ap (insert _) (sorted-permᴰ p) ∙ ap (λ a. insert a (sorted l₂)) e
sorted-permᴰ (Permᴰ.swap {a = a} {b = b} {l = l} e f) =
    insert_comm a b (sorted l) ∙ ap₂ (λ x y. insert x (insert y (sorted l))) f e
sorted-permᴰ (Permᴰ.trans p q) = sorted-permᴰ p ∙ sorted-permᴰ q

-- The backend's answer is a set: in whatever order two nodes see the same members, they sort them
-- to the same list and give every member the same share.
pub update_partitions-perm {ℓ} :
    {A : Type ℓ} (xs ys : List ℕ) (me : ℕ) (partitions : List A)
    → Perm xs ys
    → update_partitions xs me partitions ≡ update_partitions ys me partitions
unfolding update_partitions
update_partitions-perm xs ys me partitions p =
    let same : sorted xs ≡ sorted ys = ∥∥₁_elim p (List-ℕ-set _ _) sorted-permᴰ in
    ap (λ ms. (ms, partition ms me partitions)) same
