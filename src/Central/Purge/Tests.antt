-- ===== src/Central/Purge/Tests.antt =====
-- Zone 1 above 2 above 3 above 4; 2 and 3 are purged.
use mathlib.Core.Path.{subst}
use designate_private.Prelude.{
  ◌+◌, ◌<◌, ◌≡◌, refl, inl, inr, IsIn, true, none, some, List, [], ◌∷◌, arith,
}
use designate_private.Central.Purge.{Node, find_parent, purge_zones, walk_up_zones}
use designate_private.Central.Purge.Links.{IsRow, IsLinked, IsPurged}
use designate_private.Central.Purge.Ends.{IsRanked, purge_zones-IsPurged}

abbrev top : Node
top = record { id = 1; parent = none }

abbrev second : Node
second = record { id = 2; parent = some 1 }

abbrev third : Node
third = record { id = 3; parent = some 2 }

abbrev bottom : Node
bottom = record { id = 4; parent = some 3 }

abbrev table : List Node
table = top ∷ second ∷ third ∷ bottom ∷ []

abbrev dead : List Node
dead = second ∷ third ∷ []

bottom_reparented :
    purge_zones 128 dead table ≡ (top ∷ record bottom { parent = some 1 } ∷ [], true)
unfolding purge_zones
bottom_reparented = refl

loop_detected : walk_up_zones (record { id = 1; parent = some 1 } ∷ []) 128 (some 1) ≡ none
unfolding walk_up_zones
loop_detected = refl

table-IsLinked : IsLinked table
table-IsLinked z (inl e) = subst (λ (r : Node). IsRow table r.parent) e tt
table-IsLinked z (inr (inl e)) = subst (λ (r : Node). IsRow table r.parent) e (top, inl refl, refl)
table-IsLinked z (inr (inr (inl e))) =
    subst (λ (r : Node). IsRow table r.parent) e (second, inr (inl refl), refl)
table-IsLinked z (inr (inr (inr (inl e)))) =
    subst (λ (r : Node). IsRow table r.parent) e (third, inr (inr (inl refl)), refl)
table-IsLinked z (inr (inr (inr (inr e)))) = absurd e

dead-found : (z : Node) → IsIn z dead → IsIn z table
dead-found z (inl e) = inr (inl e)
dead-found z (inr (inl e)) = inr (inr (inl e))
dead-found z (inr (inr e)) = absurd e

dead_low : (z : Node) → IsIn z dead → z.id + 1 < 128
dead_low z (inl e) = subst (λ (r : Node). r.id + 1 < 128) e (omega arith)
dead_low z (inr (inl e)) = subst (λ (r : Node). r.id + 1 < 128) e (omega arith)
dead_low z (inr (inr e)) = absurd e

dead_ordered : (z y : Node) → IsIn z dead → find_parent z.parent dead ≡ some y → y.id < z.id
unfolding find_parent
dead_ordered z y (inl e) found =
    subst (λ (r : Node). find_parent r.parent dead ≡ some y → y.id < r.id) e
      (λ f. absurd (ground arith)) found
dead_ordered z y (inr (inl e)) found =
    subst (λ (r : Node). find_parent r.parent dead ≡ some y → y.id < r.id) e (λ f. ground arith)
      found
dead_ordered z y (inr (inr e)) found = absurd e

dead-IsRanked : IsRanked (λ i. i) dead 128
dead-IsRanked = (dead_ordered, dead_low)

purge_zones-IsPurged_example :
    (table' : List Node) × (purge_zones 128 dead table ≡ (table', true))
    × IsPurged table dead table'
purge_zones-IsPurged_example =
    purge_zones-IsPurged (λ i. i) 128 dead table table-IsLinked dead-found dead-IsRanked
