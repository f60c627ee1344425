-- ===== src/NotifyLimit/Tests.antt =====
-- Two NOTIFYs of zone 1 within the delay, one after it, and one after a release.
use designate_private.Prelude.{◌≡◌, refl, true, false, List, [], ◌∷◌}
use designate_private.NotifyLimit.{Call, acquiring, releasing, answered, released, serve}
use designate_private.NotifyLimit.Fair.{IsRecord, IsFair, serve-IsFair}

abbrev calls : List Call
calls = acquiring 1 100 ∷ acquiring 1 105 ∷ acquiring 1 106 ∷ releasing 1 ∷ acquiring 1 107 ∷ []

limits :
    (serve 5 calls ([], [])).1
    ≡ answered 1 107 true
      ∷ released 1
      ∷ answered 1 106 true
      ∷ answered 1 105 false
      ∷ answered 1 100 true
      ∷ []
unfolding serve
limits = refl

serve-IsFair_example :
    IsRecord (serve 5 calls ([], [])).0 (serve 5 calls ([], [])).1
    × IsFair 5 (serve 5 calls ([], [])).1
serve-IsFair_example = serve-IsFair 5 calls
