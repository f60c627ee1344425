-- ===== src/Central/Purge/Ends.antt =====
-- A purge comes to its end.
use designate_private.Prelude.{
  ℕ, zero, suc, ◌+◌, ◌<◌, ◌≡◌, refl, ◌∙◌, inl, inr, true, Option, some, List, [], ◌∷◌, arith, IsIn,
  Option-cases,
}
use designate_private.Central.Purge.{
  Node, find_parent, walk_up_zones, reparent, delete_row, purge_loop, purge_zones,
}
use designate_private.Central.Purge.Links.{IsLinked, IsPurged, ended-IsPurged, find_parent-IsIn}

-- A parent among the dead ranks below what is left of the steps.
abbrev IsWithin : (ℕ → ℕ) → List Node → ℕ → Option ℕ → Type 0
IsWithin rank dead steps parent =
    (z : Node) → find_parent parent dead ≡ some z → rank z.id + 1 < steps

-- Each zone ranks above its parent, and all rank below the number of steps.
abbrev pub IsRanked : (ℕ → ℕ) → List Node → ℕ → Type 0
IsRanked rank dead max_steps =
    ((z y : Node) → IsIn z dead → find_parent z.parent dead ≡ some y → rank y.id < rank z.id)
    × ((z : Node) → IsIn z dead → rank z.id + 1 < max_steps)

walk-ends :
    (rank : ℕ → ℕ) (dead : List Node) (steps : ℕ) (parent : Option ℕ)
    → ((z y : Node) → IsIn z dead → find_parent z.parent dead ≡ some y → rank y.id < rank z.id)
    → 0 < steps
    → IsWithin rank dead steps parent
    → (survivor : Option ℕ) × (walk_up_zones dead steps parent ≡ some survivor)
unfolding walk_up_zones
walk-ends rank dead zero parent up pos within = absurd (omega arith)
walk-ends rank dead (suc steps) parent up pos within =
    elim (Option-cases (find_parent parent dead)) [
      | inl alive ↦ (parent, rw (walk_up_zones, alive) refl)
      | inr (z, gone) ↦
          let room = within z gone in
          let z_in = find_parent-IsIn parent dead z gone in
          let (survivor, walked) =
            walk-ends rank dead steps z.parent up (omega arith)
              (λ y found. let lower = up z y z_in found in omega arith) in
          (survivor, ground arith)
    ]

purge_loop-step :
    (max_steps : ℕ) (dead : List Node) (d : Node) (ds t : List Node) (survivor : Option ℕ)
    → walk_up_zones dead max_steps d.parent ≡ some survivor
    → purge_loop max_steps dead (d ∷ ds) t
      ≡ purge_loop max_steps dead ds (delete_row d.id (reparent d.id survivor t))
unfolding purge_loop
purge_loop-step max_steps dead d ds t survivor walked = rw (purge_loop, walked) refl

loop-ends :
    (rank : ℕ → ℕ) (max_steps : ℕ) (dead ds t : List Node)
    → IsRanked rank dead max_steps
    → ((z : Node) → IsIn z ds → IsIn z dead)
    → (table' : List Node) × (purge_loop max_steps dead ds t ≡ (table', true))
unfolding purge_loop
loop-ends rank max_steps dead [] t ranked sub = (t, refl)
loop-ends rank max_steps dead (d ∷ ds) t (up, below) sub =
    let d_in = sub d (inl refl) in
    let low = below d d_in in
    let (survivor, walked) =
      walk-ends rank dead max_steps d.parent up (omega arith)
        (λ y found. let lower = up d y d_in found in omega arith) in
    let (table', rest) =
      loop-ends rank max_steps dead ds (delete_row d.id (reparent d.id survivor t)) (up, below)
        (λ z h. sub z (inr h)) in
    (table', purge_loop-step max_steps dead d ds t survivor walked ∙ rest)

-- Where the parent of every zone is in the table and the purged zones are rows of it that rank above
-- their purged parents, with ranks more than one below the maximum of steps, the purge comes to its
-- end; then the parent of every zone is in the table, the purged zones are gone and the others are there.
pub purge_zones-IsPurged :
    (rank : ℕ → ℕ) (max_steps : ℕ) (dead table : List Node)
    → IsLinked table
    → ((z : Node) → IsIn z dead → IsIn z table)
    → IsRanked rank dead max_steps
    → (table' : List Node) × (purge_zones max_steps dead table ≡ (table', true))
      × IsPurged table dead table'
purge_zones-IsPurged rank max_steps dead table linked found ranked =
    let (table', ends) = loop-ends rank max_steps dead dead table ranked (λ z h. h) in
    let whole : purge_zones max_steps dead table ≡ (table', true) = unfold purge_zones in ends in
    (table', whole, ended-IsPurged max_steps dead table table' linked found whole)
