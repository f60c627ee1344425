-- ===== src/Central/Transfers/Tests.antt =====
-- Zone 1 of tenant 5, offered with the key 77, and zone 2, which is being deleted.
use designate_private.Prelude.{ℕ, ◌≡◌, refl, Bool, true, false, [], ◌∷◌}
use designate_private.Central.Checks.{passed, refused, transfer_used, deleting_zone, incorrect_key}
use designate_private.Central.Transfers.{
  active, complete, TransferRequest, TransferAccept, Tables, create_zone_transfer_accept,
}
use designate_private.Central.Transfers.Once.{
  IsTransfer, create_zone_transfer_accept-IsTransfer, create_zone_transfer_accept-once,
  create_zone_transfer_accept-rolls_back,
}

abbrev offered : TransferRequest
offered = record { id = 10; zone_id = 1; key = 77; tenant_id = 5; status = active }

abbrev doomed : TransferRequest
doomed = record { id = 11; zone_id = 2; key = 78; tenant_id = 5; status = active }

abbrev db : Tables
db = record {
  zones =
      record { id = 1; tenant_id = 5; deleting = false }
      ∷ record { id = 2; tenant_id = 5; deleting = true }
      ∷ [];
  requests = offered ∷ doomed ∷ [];
  accepts = [];
}

abbrev offer : ℕ → ℕ → TransferAccept
offer request_id tenant = record {
  id = 20;
  request_id = request_id;
  tenant_id = tenant;
  status = active;
}

abbrev anyone : TransferRequest → Bool
anyone r = true

abbrev moved : Tables
moved = record {
  zones =
      record { id = 1; tenant_id = 6; deleting = false }
      ∷ record { id = 2; tenant_id = 5; deleting = true }
      ∷ [];
  requests = record offered { status = complete } ∷ doomed ∷ [];
  accepts = record (offer 10 6) { status = complete } ∷ [];
}

moves : create_zone_transfer_accept anyone anyone 77 (offer 10 6) db ≡ (moved, passed tt)
unfolding create_zone_transfer_accept
moves = refl

wrong_key :
    create_zone_transfer_accept anyone anyone 76 (offer 10 6) db ≡ (db, refused incorrect_key)
unfolding create_zone_transfer_accept
wrong_key = refl

-- The accept that the handler marks 'ERROR' is rolled back with the rest.
deleting_refused :
    create_zone_transfer_accept anyone anyone 78 (offer 11 6) db ≡ (db, refused deleting_zone)
unfolding create_zone_transfer_accept
deleting_refused = refl

create_zone_transfer_accept-IsTransfer_example : IsTransfer anyone anyone 77 (offer 10 6) db moved
create_zone_transfer_accept-IsTransfer_example =
    create_zone_transfer_accept-IsTransfer anyone anyone 77 (offer 10 6) db moved moves

create_zone_transfer_accept-rolls_back_example : db ≡ db
create_zone_transfer_accept-rolls_back_example =
    create_zone_transfer_accept-rolls_back anyone anyone 78 (offer 11 6) db db deleting_zone
      deleting_refused

create_zone_transfer_accept-once_example :
    create_zone_transfer_accept anyone anyone 77 (offer 10 7) moved ≡ (moved, refused transfer_used)
create_zone_transfer_accept-once_example =
    create_zone_transfer_accept-once anyone anyone 77 (offer 10 6) db moved anyone anyone 77
      (offer 10 7) moves refl (λ r. refl)
