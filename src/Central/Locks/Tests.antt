-- ===== src/Central/Locks/Tests.antt =====
-- A thread that updates zone 7 from within a call on zone 7, and one that goes on after an exception.
use designate_private.Prelude.{◌≡◌, refl, inl, inr, true, false, none, some, [], ◌∷◌}
use designate_private.Central.Locks.{
  zone, child, plain, find_zone_id, Program, return, raise, call, returned, Thread, run,
}
use designate_private.Central.Locks.Reentry.{IsSafe, run-IsSafe}
use designate_private.Central.Locks.Exclusion.{IsExclusive, run-IsExclusive}

abbrev idle : Thread
idle = record { held = []; owned = []; log = [] }

abbrev nested : Program
nested =
    call false false (some 7) (call false false (some 7) return return)
      (call true false none return return)

abbrev broken : Program
broken = call false true (some 7) raise (call false false (some 7) return return)

nested_runs : run nested idle ≡ some (record idle { log = true ∷ true ∷ true ∷ [] }, returned)
unfolding run
nested_runs = refl

-- After the exception zone 7 stays recorded, so the second body starts without the lock.
second_unlocked :
    run broken idle
    ≡ some (record { held = some 7 ∷ []; owned = []; log = false ∷ true ∷ [] }, returned)
unfolding run
second_unlocked = refl

by_object :
    find_zone_id 1
      (record { zone_id = none; zone = none; recordset = none; record_zone = none; values = [] })
      (plain (some 3) ∷ child none ∷ zone (some 7) ∷ [])
    ≡ some 7
unfolding find_zone_id
by_object = refl

by_position :
    find_zone_id 1
      (record { zone_id = none; zone = none; recordset = none; record_zone = none; values = [] })
      (plain none ∷ plain (some 7) ∷ [])
    ≡ some 7
unfolding find_zone_id
by_position = refl

run-IsSafe_example : IsSafe (λ u. run broken u) idle
run-IsSafe_example = run-IsSafe broken idle (λ k h. h)

run-IsExclusive_example : IsExclusive (λ u. run nested u) idle
run-IsExclusive_example =
    run-IsExclusive nested idle (inr (λ e. cc), (inr (λ e. cc), tt, tt), (inl refl, tt, tt))
      (refl, tt)
