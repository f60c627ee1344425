-- ===== src/Scheduler/Choice.antt =====
-- Which pool the scheduler answers, and when it answers one.
use mathlib.Core.Path.{subst}
use designate_private.Prelude.{
  ℕ, zero, suc, ◌≡◌, refl, ap, ◌∙◌, ◌⊎◌, inl, inr, Bool, true, not, Option, none, some, List, [],
  ◌∷◌, ◌++◌, arith, if◌then◌else◌, IsIn, Bool-cases, Option-cases, ltb, length,
}
use designate_private.Central.Checks.{
  Refusal, forbidden, refuse_if, ◌>>◌, Checked-cases, passed-injective, >>-passed, passed, refused,
  ◌>>=◌, >>=-passed,
}
use designate_private.Scheduler.Filters.{attribute_filter-IsMatch}
use designate_private.Scheduler.{
  Pool, same_pool, is_member, attribute_filter, fallback_filter, default_pool_filter, default_pool,
  in_doubt_default_pool_filter, pool_id_attribute_filter, nth, random_filter, Filter, attribute,
  fallback, default_only, in_doubt, pool_id_attribute, random, Context, run_filter, run_filters,
  pick, schedule_zone,
}

is_member-found :
    (p : Pool) (qs : List Pool) → is_member p qs ≡ true → (q : Pool) × IsIn q qs × (q.id ≡ p.id)
unfolding is_member same_pool
is_member-found p [] e = absurd (ground arith)
is_member-found p (q ∷ qs) e = elim (Bool-cases (same_pool q p)) [
  | inl same ↦ (q, inl refl, ground arith)
  | inr other ↦ let (r, h, i) = is_member-found p qs (ground arith) in (r, inr h, i)
]

-- A property of the pools' ids, which the default pool's id has.
module _ (P : ℕ → Type 0) where
  abbrev HasIds : List Pool → Type 0
  HasIds pools = (p : Pool) → IsIn p pools → P p.id

  attribute_filter-HasIds :
      (as_bool : ℕ → ℕ) (wanted : List (ℕ × ℕ)) (pools : List Pool)
      → HasIds pools
      → HasIds (attribute_filter as_bool wanted pools)
  attribute_filter-HasIds as_bool wanted pools ids p h =
      ids p ((attribute_filter-IsMatch as_bool wanted pools p).0 h).0

  nth-HasIds : (n : ℕ) (p : Pool) (qs : List Pool) → P p.id → HasIds qs → P (nth n p qs).id
  unfolding nth
  nth-HasIds n p [] here rest = here
  nth-HasIds zero p (q ∷ qs) here rest = here
  nth-HasIds (suc m) p (q ∷ qs) here rest =
      nth-HasIds m q qs (rest q (inl refl)) (λ r h. rest r (inr h))

  one-HasIds : (p : Pool) → P p.id → HasIds (p ∷ [])
  one-HasIds p here q (inl same) = subst (λ (r : Pool). P r.id) same here
  one-HasIds p here q (inr h) = absurd h

  -- The pool takes the place of the pools among which it is.
  chosen-HasIds :
      (p : Pool) (pools : List Pool)
      → HasIds pools
      → HasIds (if is_member p pools then p ∷ [] else pools)
  chosen-HasIds p pools ids = elim (Bool-cases (is_member p pools)) [
    | inl found ↦
        let (q, h, same) = is_member-found p pools found in
        rw found (one-HasIds p (subst P same (ids q h)))
    | inr missing ↦ rw missing ids
  ]

  random_filter-HasIds :
      (drawn : ℕ) (pools : List Pool) → HasIds pools → HasIds (random_filter drawn pools)
  unfolding random_filter
  random_filter-HasIds drawn [] ids = ids
  random_filter-HasIds drawn (p ∷ ps) ids =
      one-HasIds (nth drawn p ps) (nth-HasIds drawn p ps (ids p (inl refl)) (λ q h. ids q (inr h)))

  fallback_filter-HasIds :
      (default_id : ℕ) (pools : List Pool)
      → P default_id
      → HasIds pools
      → HasIds (fallback_filter default_id pools)
  unfolding fallback_filter default_pool
  fallback_filter-HasIds default_id [] known ids =
      one-HasIds (record { id = default_id; attributes = none }) known
  fallback_filter-HasIds default_id (p ∷ ps) known ids = ids

  in_doubt-HasIds :
      (get_pool : ℕ → Option Pool) (default_id : ℕ) (pools : List Pool)
      → HasIds pools
      → HasIds (in_doubt_default_pool_filter get_pool default_id pools)
  unfolding in_doubt_default_pool_filter
  in_doubt-HasIds get_pool default_id pools ids = elim (Bool-cases (ltb 1 (length pools))) [
    | inr few ↦ rw (in_doubt_default_pool_filter, few) ids
    | inl many ↦ elim (Option-cases (get_pool default_id)) [
      | inl missing ↦ rw (in_doubt_default_pool_filter, many, missing) ids
      | inr (pool, found) ↦
          rw (in_doubt_default_pool_filter, many, found) (chosen-HasIds pool pools ids)
    ]
  ]

  forced-HasIds :
      (get_pool : ℕ → Option Pool) (may_force : Pool → Bool) (wanted : Option ℕ)
      (pools left : List Pool)
      → HasIds pools
      → pool_id_attribute_filter get_pool may_force wanted pools ≡ passed left
      → HasIds left
  unfolding pool_id_attribute_filter
  forced-HasIds get_pool may_force none pools left ids e =
      subst HasIds (passed-injective pools left e) ids
  forced-HasIds get_pool may_force (some id) pools left ids e = elim (Option-cases (get_pool id)) [
    | inl missing ↦ subst HasIds (passed-injective [] left (ground arith)) (λ p h. absurd h)
    | inr (pool, found) ↦
        let chosen = if is_member pool pools then pool ∷ [] else pools in
        let both : (refuse_if (not (may_force pool)) forbidden >> passed chosen) ≡ passed left =
          ground arith in
        subst HasIds (passed-injective chosen left (>>-passed _ _ left both).1)
          (chosen-HasIds pool pools ids)
  ]

  module _ (c : Context) (known : P c.default_pool_id) where
    run_filter-HasIds :
        (f : Filter) (pools left : List Pool)
        → HasIds pools
        → run_filter c f pools ≡ passed left
        → HasIds left
    unfolding run_filter default_pool_filter default_pool
    run_filter-HasIds attribute pools left ids e =
        subst HasIds (passed-injective _ left e)
          (attribute_filter-HasIds c.as_bool c.wanted pools ids)
    run_filter-HasIds fallback pools left ids e =
        subst HasIds (passed-injective _ left e)
          (fallback_filter-HasIds c.default_pool_id pools known ids)
    run_filter-HasIds default_only pools left ids e =
        subst HasIds (passed-injective _ left e)
          (one-HasIds (record { id = c.default_pool_id; attributes = none }) known)
    run_filter-HasIds in_doubt pools left ids e =
        subst HasIds (passed-injective _ left e)
          (in_doubt-HasIds c.get_pool c.default_pool_id pools ids)
    run_filter-HasIds pool_id_attribute pools left ids e =
        forced-HasIds c.get_pool c.may_force c.wanted_pool_id pools left ids e
    run_filter-HasIds (random drawn) pools left ids e =
        subst HasIds (passed-injective _ left e) (random_filter-HasIds drawn pools ids)

    run_filters-HasIds :
        (fs : List Filter) (pools left : List Pool)
        → HasIds pools
        → run_filters c fs pools ≡ passed left
        → HasIds left
    unfolding run_filters
    run_filters-HasIds [] pools left ids e = subst HasIds (passed-injective pools left e) ids
    run_filters-HasIds (f ∷ fs) pools left ids e =
        let (between, first, rest) =
          >>=-passed (run_filter c f pools) (λ ps. run_filters c fs ps) left e in
        run_filters-HasIds fs between left (run_filter-HasIds f pools between ids first) rest

pick-passed : (ps : List Pool) (id : ℕ) → pick ps ≡ passed id → (p : Pool) × IsIn p ps × (p.id ≡ id)
unfolding pick
pick-passed [] id e = cc
pick-passed (p ∷ []) id e = (p, inl refl, passed-injective p.id id e)
pick-passed (p ∷ q ∷ ps) id e = cc

-- The id of a pool in the list, or the default pool's.
abbrev pub IsKnown : Context → List Pool → ℕ → Type 0
IsKnown c pools id = ((p : Pool) × IsIn p pools × (p.id ≡ id)) ⊎ (id ≡ c.default_pool_id)

-- Whatever filters are configured, the scheduler answers the id of one of the stored pools or that of
-- the default pool.
pub schedule_zone-IsKnown :
    (c : Context) (fs : List Filter) (pools : List Pool) (id : ℕ)
    → schedule_zone c fs pools ≡ passed id
    → IsKnown c pools id
unfolding schedule_zone
schedule_zone-IsKnown c [] pools id e = cc
schedule_zone-IsKnown c (f ∷ fs) pools id e =
    let (left, ran, picked) = >>=-passed (run_filters c (f ∷ fs) pools) pick id e in
    let (p, h, same) = pick-passed left id picked in
    subst (IsKnown c pools) same (
      run_filters-HasIds (IsKnown c pools) c (inr refl) (f ∷ fs) pools left
        (λ q i. inl (q, i, refl)) ran p h)

run_filters-append :
    (c : Context) (fs gs : List Filter) (pools : List Pool)
    → run_filters c (fs ++ gs) pools ≡ (run_filters c fs pools >>= λ left. run_filters c gs left)
unfolding run_filters
run_filters-append c [] gs pools = refl
run_filters-append c (f ∷ fs) gs pools = elim (Checked-cases (run_filter c f pools)) [
  | inl (left, e) ↦ let rest = run_filters-append c fs gs left in rw (run_filters, e) rest
  | inr (r, e) ↦ rw (run_filters, e) refl
]

run_filter-refused :
    (c : Context) (f : Filter) (pools : List Pool) (r : Refusal)
    → run_filter c f pools ≡ refused r
    → r ≡ forbidden
unfolding run_filter pool_id_attribute_filter
run_filter-refused c attribute pools r e = cc
run_filter-refused c fallback pools r e = cc
run_filter-refused c default_only pools r e = cc
run_filter-refused c in_doubt pools r e = cc
run_filter-refused c pool_id_attribute pools r e = ground arith
run_filter-refused c (random drawn) pools r e = cc

run_filters-refused :
    (c : Context) (fs : List Filter) (pools : List Pool) (r : Refusal)
    → run_filters c fs pools ≡ refused r
    → r ≡ forbidden
unfolding run_filters
run_filters-refused c [] pools r e = cc
run_filters-refused c (f ∷ fs) pools r e = elim (Checked-cases (run_filter c f pools)) [
  | inl (left, g) ↦ run_filters-refused c fs left r (ground arith)
  | inr (q, g) ↦ run_filter-refused c f pools r (ground arith)
]

last_two :
    (c : Context) (drawn : ℕ) (left : List Pool)
    → (p : Pool) × (run_filters c (random drawn ∷ fallback ∷ []) left ≡ passed (p ∷ []))
unfolding run_filters run_filter random_filter fallback_filter
last_two c drawn [] = (default_pool c.default_pool_id, refl)
last_two c drawn (p ∷ ps) = (nth drawn p ps, refl)

schedule-append :
    (c : Context) (fs : List Filter) (g : Filter) (gs : List Filter) (pools : List Pool)
    → schedule_zone c (fs ++ g ∷ gs) pools
      ≡ (run_filters c fs pools >>= (λ left. run_filters c (g ∷ gs) left) >>= pick)
unfolding schedule_zone
schedule-append c [] g gs pools = ap (λ m. m >>= pick) (run_filters-append c [] (g ∷ gs) pools)
schedule-append c (f ∷ fs) g gs pools =
    ap (λ m. m >>= pick) (run_filters-append c (f ∷ fs) (g ∷ gs) pools)

-- Where the last two filters are the random filter and the fallback filter, the scheduler answers a
-- pool whatever the pools are and the other filters do, unless the policy forbids a forced pool.
pub schedule_zone-answers :
    (c : Context) (fs : List Filter) (drawn : ℕ) (pools : List Pool)
    → ((id : ℕ) × (schedule_zone c (fs ++ random drawn ∷ fallback ∷ []) pools ≡ passed id))
      ⊎ (schedule_zone c (fs ++ random drawn ∷ fallback ∷ []) pools ≡ refused forbidden)
schedule_zone-answers c fs drawn pools =
    let split = schedule-append c fs (random drawn) (fallback ∷ []) pools in
    elim (Checked-cases (run_filters c fs pools)) [
      | inr (r, e) ↦ inr (split ∙ rw e (ap (λ q. refused q) (run_filters-refused c fs pools r e)))
      | inl (left, e) ↦
          let (p, one) = last_two c drawn left in
          inl (p.id, split ∙ rw (e, one) (unfold pick in refl))
    ]
