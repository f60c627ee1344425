-- ===== src/PoolManager/Consensus/Tests.antt =====
-- Three nameservers that have seen different serials.
use designate_private.Prelude.{ℕ, ◌≡◌, refl, none, some, List, [], ◌∷◌, arith}
use designate_private.Objects.{update, success}
use designate_private.PoolManager.Consensus.{NsStatus, consensus_serial, error_serial}
use designate_private.PoolManager.Consensus.Greatest.{
  IsConsensus, IsErrorSerial, serials, consensus_serial-IsConsensus, error_serial-IsErrorSerial,
}

abbrev seen : ℕ → ℕ → NsStatus
seen n serial = record {
  nameserver = n;
  action = update;
  status = some success;
  serial_number = serial;
}

abbrev statuses : List NsStatus
statuses = seen 1 20 ∷ seen 2 19 ∷ seen 3 21 ∷ []

consensus_runs :
    (consensus_serial 60 3 statuses ≡ some 20)
    × (consensus_serial 100 3 statuses ≡ some 19)
    × (consensus_serial 60 0 statuses ≡ none)
    × (error_serial 20 statuses ≡ 21)
unfolding consensus_serial error_serial
consensus_runs = (refl, refl, refl, refl)

consensus_serial-IsConsensus_example : IsConsensus 60 3 statuses (consensus_serial 60 3 statuses)
consensus_serial-IsConsensus_example = consensus_serial-IsConsensus 60 3 statuses (omega arith)

error_serial-IsErrorSerial_test : IsErrorSerial 20 (serials statuses) (error_serial 20 statuses)
error_serial-IsErrorSerial_test = error_serial-IsErrorSerial 20 statuses
