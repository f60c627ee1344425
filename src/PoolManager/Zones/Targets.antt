-- ===== src/PoolManager/Zones/Targets.antt =====
-- How a change on a pool's targets ends.
use designate_private.Prelude.{
  ℕ, zero, suc, ◌+◌, ◌<◌, ◌≤◌, ◌≡◌, refl, sym, ap, ◌∙◌, ◌⊎◌, inl, inr, Bool, true, false, Option,
  none, some, List, [], ◌∷◌, arith, ◌==◌, if◌then◌else◌, IsIn, Bool-cases, ==_eq, ==_ne, ◌↔◌,
}
use designate_private.Objects.{Action, create, update, delete, no_action}
use designate_private.PoolManager.Consensus.{NsStatus}
use designate_private.PoolManager.Statuses.{Cache, build_status_object, store_status, same_action}
use designate_private.PoolManager.Zones.{
  attempts, zone_on_target, store_all, store_if_missing, store_missing,
}

-- Some attempt from `from` on, of `left` at most, raises nothing.
abbrev pub Succeeds : (ℕ → Bool) → ℕ → ℕ → Type 0
Succeeds backend from left =
    (attempt : ℕ) × (from ≤ attempt) × (attempt < from + left) × (backend attempt ≡ true)

attempts-Succeeds :
    (backend : ℕ → Bool) (left from : ℕ)
    → attempts backend left from ≡ true ↔ Succeeds backend from left
unfolding attempts
attempts-Succeeds backend zero from =
    (λ e. absurd (ground arith), λ s. absurd (omega (arith, s.1, s.2)))
attempts-Succeeds backend (suc left) from = elim (Bool-cases (backend from)) [
  | inl ok ↦ (λ _. (from, omega arith, omega arith, ok), λ _. ground arith)
  | inr failed ↦
      let rest = attempts-Succeeds backend left (suc from) in
      (
        λ e.
            let (attempt, late, early, ok) = rest.0 (ground arith) in
            (attempt, omega arith, omega arith, ok),
        λ s. rw failed (rest.1 (later s failed)),
      )
]
  where
    later :
        Succeeds backend from (suc left) → backend from ≡ false → Succeeds backend (suc from) left
    later (attempt, late, early, ok) failed = (attempt, ground arith, omega arith, ok)

same_action_refl : (change : Action) → same_action change change ≡ true
unfolding same_action
same_action_refl create = refl
same_action_refl update = refl
same_action_refl delete = refl
same_action_refl no_action = refl

-- Storing a new status changes that nameserver's status alone.
fresh_stored :
    (n k : ℕ) (change : Action) (cache : Cache)
    → store_status (build_status_object n change) cache k change
      ≡ (if k == n then some (build_status_object n change) else cache k change)
unfolding store_status build_status_object
fresh_stored n k change cache = rw (same_action_refl change) (ground arith)

store_if_missing-keeps :
    (k n : ℕ) (change : Action) (cache : Cache) (s : NsStatus)
    → cache k change ≡ some s
    → (o : Option NsStatus) → cache n change ≡ o
    → store_if_missing o n change cache k change ≡ some s
unfolding store_if_missing
store_if_missing-keeps k n change cache s e (some t) o = e
store_if_missing-keeps k n change cache s e none o = elim (Bool-cases (k == n)) [
  | inl same ↦ absurd (ground (arith, ap (λ i. cache i change) (==_eq k n same)))
  | inr other ↦ fresh_stored n k change cache ∙ rw other e
]

pub store_missing-keeps :
    (k : ℕ) (change : Action) (ns : List ℕ) (cache : Cache) (s : NsStatus)
    → cache k change ≡ some s
    → store_missing change ns cache k change ≡ some s
unfolding store_missing
store_missing-keeps k change [] cache s e = e
store_missing-keeps k change (n ∷ ns) cache s e =
    store_missing-keeps k change ns (store_if_missing (cache n change) n change cache) s
      (store_if_missing-keeps k n change cache s e (cache n change) refl)

store_if_missing-fills :
    (k n : ℕ) (change : Action) (cache : Cache)
    → cache k change ≡ none
    → (o : Option NsStatus) → cache n change ≡ o
    → store_if_missing o n change cache k change
      ≡ (if k == n then some (build_status_object k change) else none)
unfolding store_if_missing
store_if_missing-fills k n change cache e (some t) o = elim (Bool-cases (k == n)) [
  | inl same ↦ absurd (ground (arith, ap (λ i. cache i change) (==_eq k n same)))
  | inr other ↦ e ∙ rw other refl
]
store_if_missing-fills k n change cache e none o =
    fresh_stored n k change cache ∙ ground (arith, ==_eq k n)

pub store_missing-fills :
    (k : ℕ) (change : Action) (ns : List ℕ) (cache : Cache)
    → IsIn k ns
    → cache k change ≡ none
    → store_missing change ns cache k change ≡ some (build_status_object k change)
unfolding store_missing
store_missing-fills k change [] cache h e = absurd h
store_missing-fills k change (n ∷ ns) cache h e =
    let cache' = store_if_missing (cache n change) n change cache in
    let at = store_if_missing-fills k n change cache e (cache n change) refl in
    elim (Bool-cases (k == n)) [
      | inl same ↦ store_missing-keeps k change ns cache' _ (at ∙ rw same refl)
      | inr other ↦ elim h [
        | inl e' ↦ absurd (==_ne k n other (sym e'))
        | inr more ↦ store_missing-fills k change ns cache' more (at ∙ rw other refl)
      ]
    ]

pub store_all-fresh :
    (k : ℕ) (change : Action) (ns : List ℕ) (cache : Cache)
    → IsIn k ns ⊎ (cache k change ≡ some (build_status_object k change))
    → store_all change ns cache k change ≡ some (build_status_object k change)
unfolding store_all
store_all-fresh k change [] cache (inl h) = absurd h
store_all-fresh k change [] cache (inr e) = e
store_all-fresh k change (n ∷ ns) cache h =
    store_all-fresh k change ns (store_status (build_status_object n change) cache)
      (elim (Bool-cases (k == n)) [
        | inl same ↦ inr (fresh_stored n k change cache ∙ ground (arith, ==_eq k n same))
        | inr other ↦ elim h [
          | inl (inl e) ↦ absurd (==_ne k n other (sym e))
          | inl (inr more) ↦ inl more
          | inr e ↦ inr (fresh_stored n k change cache ∙ rw other e)
        ]
      ])

-- A target takes the creation or the deletion of a zone exactly when one of its first `max_retries`
-- attempts raises nothing.
pub zone_on_target-Succeeds :
    (max_retries : ℕ) (backend : ℕ → Bool)
    → zone_on_target max_retries backend ≡ true ↔ Succeeds backend 0 max_retries
unfolding zone_on_target
zone_on_target-Succeeds max_retries backend = attempts-Succeeds backend max_retries 0
