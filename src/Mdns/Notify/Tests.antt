-- ===== src/Mdns/Notify/Tests.antt =====
-- The nameserver times out, serves the serial 19, and then 20.
use designate_private.Prelude.{ℕ, zero, suc, ◌≡◌, refl, true, some, [], ◌∷◌}
use designate_private.Objects.{Zone, update, delete, pending, success, no_zone}
use designate_private.Mdns.Notify.{
  Sent, Response, noerror, nxdomain, response, no_reply, answered, get_serial_number,
}
use designate_private.Mdns.Notify.Serials.{IsAnswer, get_serial_number-IsAnswer}

abbrev zone : Zone
zone = record { id = 1; action = update; status = pending; serial = 20 }

abbrev serves : ℕ → Response
serves n = record {
  rcode = noerror;
  authoritative = true;
  answer = record { is_zone_soa = true; serial = n } ∷ [];
}

abbrev sends : ℕ → Sent
sends zero = no_reply
sends (suc zero) = response (serves 19)
sends _ = response (serves 20)

poll_runs :
    (get_serial_number zone sends 3 ≡ answered success (some 20) 1)
    × (get_serial_number
          (record zone { action = delete; serial = 0 })
          (λ n. response (record (serves 0) { rcode = nxdomain }))
          3
        ≡ answered no_zone (some 0) 3)
unfolding get_serial_number
poll_runs = (refl, refl)

get_serial_number-IsAnswer_example : IsAnswer zone 3 (get_serial_number zone sends 3)
get_serial_number-IsAnswer_example = get_serial_number-IsAnswer zone sends 3
