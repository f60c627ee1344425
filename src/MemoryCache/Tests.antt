-- ===== src/MemoryCache/Tests.antt =====
-- A small cache of numbers: `int` reads every value, `str` writes it.
use designate_private.Prelude.{ℕ, true, false, none, some, ◌≡◌, refl, arith}
use mathlib.Core.Option
use designate_private.MemoryCache.{Cache, empty, get, set, add, incr, new_value}
use designate_private.MemoryCache.Expiry.{view, view-get, add_live, add_new, incr_live}

-- Key 1 holds 5 until the time 110.
abbrev five : Cache ℕ
five = (set 100 1 5 10 empty).1

set_run : (view 109 five 1 ≡ some 5) × (view 110 five 1 ≡ none)
unfolding set get
set_run = (refl, refl)

five_live : view 105 five 1 ≡ some 5
unfolding set get
five_live = refl

five_gone : view 111 five 1 ≡ none
unfolding set get
five_gone = refl

view-get_test : view 112 (get 111 2 five).1 1 ≡ view 112 five 1
view-get_test = view-get 111 112 2 1 five (omega arith)

add_live_test :
    ((add 105 1 9 0 five).0 ≡ false) × (view 106 (add 105 1 9 0 five).1 1 ≡ view 106 five 1)
add_live_test = add_live 105 106 1 1 0 9 5 five (omega arith) five_live

add_new_test : ((add 111 1 9 0 five).0 ≡ true) × (view 200 (add 111 1 9 0 five).1 1 ≡ some 9)
add_new_test = add_new 111 200 1 1 0 9 five (omega arith) five_gone

incr_live_test :
    ((incr some (λ n. n) 105 1 2 five).0 ≡ new_value 7)
    × (view 106 (incr some (λ n. n) 105 1 2 five).1 1 ≡ Option.map (λ _. 7) (view 106 five 1))
incr_live_test = incr_live some (λ n. n) 105 106 1 1 2 5 5 five (omega arith) five_live refl
