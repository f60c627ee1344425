-- ===== src/Scheduler/Filters.antt =====
-- What the attribute filter keeps.
use mathlib.Core.Path.{subst}
use designate_private.Prelude.{
  ℕ, ◌≡◌, ◌↔◌, refl, inl, inr, true, some, List, [], ◌∷◌, arith, IsIn, IsIn-if, Option-cases,
}
use designate_private.Scheduler.{
  Pool, Attributes, to_dict, get_value, evaluate_pool, attribute_filter,
}

module _ (as_bool : ℕ → ℕ) where
  -- The pool has every requested attribute, with a value that reads the same.
  abbrev pub IsMatch : Attributes → Attributes → Type 0
  IsMatch wanted pool =
      (key v : ℕ)
      → IsIn (key, v) wanted
      → (w : ℕ) × (get_value key pool ≡ some w) × (as_bool w ≡ as_bool v)

  evaluate_pool-IsMatch :
      (wanted pool : Attributes) → evaluate_pool as_bool wanted pool ≡ true → IsMatch wanted pool
  unfolding evaluate_pool
  evaluate_pool-IsMatch [] pool e key v h = absurd h
  evaluate_pool-IsMatch ((k, u) ∷ rest) pool e key v h = elim (Option-cases (get_value k pool)) [
    | inl missing ↦ absurd (ground arith)
    | inr (w, held) ↦ elim h [
      | inl same ↦ (w, ground arith, ground arith)
      | inr more ↦ evaluate_pool-IsMatch rest pool (ground arith) key v more
    ]
  ]

  IsMatch-evaluate_pool :
      (wanted pool : Attributes) → IsMatch wanted pool → evaluate_pool as_bool wanted pool ≡ true
  unfolding evaluate_pool
  IsMatch-evaluate_pool [] pool m = refl
  IsMatch-evaluate_pool ((k, u) ∷ rest) pool m =
      let (w, held, same) = m k u (inl refl) in
      let others = IsMatch-evaluate_pool rest pool (λ key v h. m key v (inr h)) in ground arith

  kept-IsIn :
      (wanted : Attributes) (pools : List Pool) (p : Pool)
      → IsIn p (attribute_filter as_bool wanted pools)
      → IsIn p pools × (evaluate_pool as_bool wanted (to_dict p.attributes) ≡ true)
  unfolding attribute_filter
  kept-IsIn wanted [] p h = absurd h
  kept-IsIn wanted (q ∷ qs) p h =
      elim (IsIn-if (evaluate_pool as_bool wanted (to_dict q.attributes)) q p
        (attribute_filter as_bool wanted qs) h) [
          | inl (good, same) ↦ (
            inl same,
            subst (λ (r : Pool). evaluate_pool as_bool wanted (to_dict r.attributes) ≡ true) same
                good,
          )
          | inr more ↦ let (member, good) = kept-IsIn wanted qs p more in (inr member, good)
        ]

  IsIn-kept :
      (wanted : Attributes) (pools : List Pool) (p : Pool)
      → IsIn p pools
      → evaluate_pool as_bool wanted (to_dict p.attributes) ≡ true
      → IsIn p (attribute_filter as_bool wanted pools)
  unfolding attribute_filter
  IsIn-kept wanted [] p h e = absurd h
  IsIn-kept wanted (q ∷ qs) p (inl same) e = ground arith
  IsIn-kept wanted (q ∷ qs) p (inr more) e = let rest = IsIn-kept wanted qs p more e in ground arith

  pub attribute_filter-IsMatch :
      (wanted : Attributes) (pools : List Pool) (p : Pool)
      → IsIn p (attribute_filter as_bool wanted pools)
        ↔ (IsIn p pools × IsMatch wanted (to_dict p.attributes))
  attribute_filter-IsMatch wanted pools p = (
    λ h.
        let (member, good) = kept-IsIn wanted pools p h in
        (member, evaluate_pool-IsMatch wanted (to_dict p.attributes) good),
    λ (member, m).
        IsIn-kept wanted pools p member (IsMatch-evaluate_pool wanted (to_dict p.attributes) m),
  )
