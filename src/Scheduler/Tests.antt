-- ===== src/Scheduler/Tests.antt =====
-- Three pools, of which two are gold; bool_from_string reads 1 and 11 as one value.
use designate_private.Prelude.{
  ℕ, ◌≡◌, ◌⊎◌, refl, true, Option, none, some, List, [], ◌∷◌, ◌==◌, if◌then◌else◌,
}
use designate_private.Central.Checks.{passed, refused, multiple_pools, forbidden}
use designate_private.Scheduler.{
  Pool, attribute, fallback, in_doubt, pool_id_attribute, random, Context, schedule_zone,
}
use designate_private.Scheduler.Choice.{IsKnown, schedule_zone-IsKnown, schedule_zone-answers}

abbrev gold : Pool
gold = record { id = 1; attributes = some ((5, 1) ∷ []) }

abbrev plain : Pool
plain = record { id = 2; attributes = some [] }

abbrev shiny : Pool
shiny = record { id = 3; attributes = some ((6, 0) ∷ (5, 11) ∷ []) }

abbrev pools : List Pool
pools = gold ∷ plain ∷ shiny ∷ []

abbrev read : ℕ → ℕ
read v = if v == 11 then 1 else v

abbrev find : ℕ → Option Pool
find i = if i == 3 then some shiny else (if i == 2 then some plain else none)

abbrev context : Context
context = record {
  as_bool = read;
  get_pool = find;
  may_force = λ p. true;
  default_pool_id = 3;
  wanted = (5, 1) ∷ [];
  wanted_pool_id = some 2;
}

two_match : schedule_zone context (attribute ∷ []) pools ≡ refused multiple_pools
unfolding schedule_zone
two_match = refl

default_of_two : schedule_zone context (attribute ∷ in_doubt ∷ []) pools ≡ passed 3
unfolding schedule_zone
default_of_two = refl

-- A forced pool that no earlier filter left is not taken: all that were left stay.
forced_pool_ignored :
    schedule_zone context (attribute ∷ pool_id_attribute ∷ []) pools ≡ refused multiple_pools
unfolding schedule_zone
forced_pool_ignored = refl

schedule_zone-IsKnown_test : IsKnown context pools 3
schedule_zone-IsKnown_test =
    schedule_zone-IsKnown context (attribute ∷ in_doubt ∷ []) pools 3 default_of_two

schedule_zone-answers_example :
    ((id : ℕ) × (schedule_zone context (attribute ∷ random 1 ∷ fallback ∷ []) pools ≡ passed id))
    ⊎ (schedule_zone context (attribute ∷ random 1 ∷ fallback ∷ []) pools ≡ refused forbidden)
schedule_zone-answers_example = schedule_zone-answers context (attribute ∷ []) 1 pools
