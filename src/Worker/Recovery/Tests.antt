-- ===== src/Worker/Recovery/Tests.antt =====
-- Two zones in ERROR, one of which has nothing to do.
use designate_private.Prelude.{◌≡◌, refl, [], ◌∷◌}
use designate_private.Objects.{create, no_action, error, Zone}
use designate_private.Worker.Recovery.{recover_zones}

abbrev broken_zone : Zone
broken_zone = record { id = 1; action = create; status = error; serial = 0 }

abbrev idle_zone : Zone
idle_zone = record { id = 2; action = no_action; status = error; serial = 0 }

recover_zones_test : recover_zones (idle_zone ∷ broken_zone ∷ []) ≡ (create, broken_zone) ∷ []
unfolding recover_zones
recover_zones_test = refl
