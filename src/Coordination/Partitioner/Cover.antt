-- ===== src/Coordination/Partitioner/Cover.antt =====
-- The members' shares are together the whole range of partitions.
use native.Mathlib.Nat.{div-add-mod, mod-lt, mul-suc}
use designate_private.Prelude.{
  ℕ, suc, ◌+◌, ◌-◌, ◌*◌, ◌≤◌, ◌<◌, ◌≡◌, refl, ◌≢◌, ◌⊎◌, inl, inr, ap, sym, ◌∙◌, Option, some, List,
  [], ◌∷◌, ◌++◌, map, arith, length, take, drop, All, AreDistinct, take-append-take-drop, drop-drop,
  take-of_le,
}
use designate_private.Coordination.Partitioner.{
  PartitionError, Share, ok, err, index, ceil_div, slice_at, partition,
}

Share-cases {ℓ} :
    {A : Type ℓ} (s : Share A) → ((a : List A) × (s ≡ ok a)) ⊎ ((e : PartitionError) × (s ≡ err e))
Share-cases (ok a) = inl (a, refl)
Share-cases (err e) = inr (e, refl)

module _ {ℓ} {A : Type ℓ} where
  join_with : Share A → Share A → Share A
  join_with (ok xs) (ok ys) = ok (xs ++ ys)
  join_with (ok xs) (err e) = err e
  join_with (err e) other = err e

  -- The shares one after the other; an error if any member got one.
  unfoldable pub joined : List (Share A) → Share A
  unfolding join_with
  joined [] = ok []
  joined (s ∷ ss) = join_with s (joined ss)

  -- What is joined is the first share and the others joined.
  pub joined-cons :
      (s : Share A) (ss : List (Share A)) (xs : List A)
      → joined (s ∷ ss) ≡ ok xs
      → (a : List A) × (b : List A) × (s ≡ ok a) × (joined ss ≡ ok b) × (xs ≡ a ++ b)
  unfolding joined join_with
  joined-cons (err e) ss xs h = absurd cc
  joined-cons (ok a) ss xs h = elim (Share-cases (joined ss)) [
    | inl (b, e) ↦
        (a, b, refl, e, let j : ok xs ≡ ok (a ++ b) = sym h ∙ ap (join_with (ok a)) e in cc)
    | inr (e, k) ↦ absurd (let j : ok xs ≡ err e = sym h ∙ ap (join_with (ok a)) k in cc)
  ]

-- `f` numbers the members of a list, from `k` on.
abbrev IsNumbered : (ℕ → Option ℕ) → ℕ → List ℕ → Type 0
IsNumbered f k [] = Unit
IsNumbered f k (m ∷ ms) = (f m ≡ some k) × IsNumbered f (suc k) ms

IsNumbered-cons :
    (m : ℕ) (ms : List ℕ) (k : ℕ) (ns : List ℕ)
    → All (λ n. m ≢ n) ns
    → IsNumbered (index ms) k ns
    → IsNumbered (index (m ∷ ms)) (suc k) ns
unfolding index
IsNumbered-cons m ms k [] h i = tt
IsNumbered-cons m ms k (n ∷ ns) h i = (ground arith, IsNumbered-cons m ms (suc k) ns h.1 i.1)

IsNumbered-index : (ms : List ℕ) → AreDistinct ms → IsNumbered (index ms) 0 ms
unfolding index
IsNumbered-index [] h = tt
IsNumbered-index (m ∷ ms) h =
    (ground arith, IsNumbered-cons m ms 0 ms h.0 (IsNumbered-index ms h.1))

ceil_div_cover : (a b : ℕ) → 0 < b → a ≤ ceil_div a b * b
unfolding ceil_div
ceil_div_cover a b h = omega (arith, div-add-mod (a + b - 1) b, mod-lt (a + b - 1) h)

nothing : (size : ℕ) → 0 ≡ size * 0
nothing size = omega arith

module _ {ℓ} {A : Type ℓ} (size : ℕ) (partitions : List A) (f : ℕ → Option ℕ) where
  slices :
      (k l : ℕ)
      → take size (drop (size * k) partitions) ++ take (size * l) (drop (size * suc k) partitions)
        ≡ take (size * suc l) (drop (size * k) partitions)
  slices k l =
      let rest = drop (size * k) partitions in
      ap (λ n. take size rest ++ take (size * l) (drop n partitions)) (mul-suc size k)
      ∙ ap (λ d. take size rest ++ take (size * l) d) (sym (drop-drop (size * k) size partitions))
      ∙ take-append-take-drop size (size * l) rest
      ∙ ap (λ n. take n rest) (omega arith)

  joined_slices :
      (k : ℕ) (ms : List ℕ)
      → IsNumbered f k ms
      → joined (map (λ m. slice_at size partitions (f m)) ms)
        ≡ ok (take (size * length ms) (drop (size * k) partitions))
  unfolding joined slice_at
  joined_slices k [] h = ap (λ n. ok (take n (drop (size * k) partitions))) (nothing size)
  joined_slices k (m ∷ ms) h =
      rw (h.0) (rw (joined_slices (suc k) ms h.1) (ap ok (slices k (length ms))))

-- For a non-empty list of distinct members, no member gets an error from `_partition`, and the
-- members' shares put together in the members' order are exactly the list of partitions: every
-- partition is some member's, and none is given out twice.
pub joined-partition {ℓ} :
    {A : Type ℓ} (m : ℕ) (ms : List ℕ) (partitions : List A)
    → AreDistinct (m ∷ ms)
    → joined (map (λ me. partition (m ∷ ms) me partitions) (m ∷ ms)) ≡ ok partitions
unfolding partition
joined-partition m ms partitions h =
    let members = m ∷ ms in
    let size = ceil_div (length partitions) (length members) in
    joined_slices size partitions (index members) 0 members (IsNumbered-index members h)
    ∙ ap (λ n. ok (take (size * length members) (drop n partitions))) (sym (nothing size))
    ∙ ap ok (
        take-of_le (size * length members) partitions
          (ceil_div_cover (length partitions) (length members) (omega arith)))
