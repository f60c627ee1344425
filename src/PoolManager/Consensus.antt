-- ===== src/PoolManager/Consensus.antt =====
-- The consensus of pool_manager/service.py: _exceed_or_meet_threshold and the serials that enough
-- nameservers have reached. The percentage is compared on whole numbers: Decimal keeps 28 digits,
-- which is exact on both sides of an integral threshold for any number of targets that a pool has.
pub mod Greatest
mod Tests
use designate_private.Prelude.{
  ℕ, zero, suc, ◌+◌, ◌*◌, Bool, true, false, not, ◌&&◌, ◌||◌, Option, none, some, List, [], ◌∷◌,
  map, ◌==◌, ltb, leb, if◌then◌else◌, length, count, ◌>>=◌,
}
use designate_private.Objects.{Action, Status}

-- PoolManagerStatus of one zone; the status is None until a nameserver has answered.
pub record NsStatus : Type 0 where
  pub nameserver : ℕ
  pub action : Action
  pub status : Option Status
  pub serial_number : ℕ

-- `threshold or self.threshold`, then the division, which raises for a pool without targets.
unfoldable pub exceed_or_meet_threshold : ℕ → ℕ → ℕ → ℕ → Option Bool
exceed_or_meet_threshold default targets occurrences threshold =
    let wanted : ℕ = if threshold == 0 then default else threshold in
    if targets == 0 then none else some (leb (wanted * targets) (100 * occurrences))

insert_with : (ℕ → ℕ → Bool) → ℕ → List ℕ → List ℕ
insert_with before a [] = a ∷ []
insert_with before a (b ∷ bs) =
    let rest = insert_with before a bs in if before a b then a ∷ b ∷ bs else b ∷ rest

pub sort_with : (ℕ → ℕ → Bool) → List ℕ → List ℕ
unfolding insert_with
sort_with before [] = []
sort_with before (a ∷ l) = insert_with before a (sort_with before l)

pub serials_ascending : List NsStatus → List ℕ
unfolding sort_with
serials_ascending statuses = sort_with leb (map (λ s. s.serial_number) statuses)

pub serials_descending : List NsStatus → List ℕ
unfolding sort_with
serials_descending statuses = sort_with (λ a b. leb b a) (map (λ s. s.serial_number) statuses)

abbrev pub has_reached : ℕ → NsStatus → Bool
has_reached serial s = leb serial s.serial_number

-- `self.threshold` and `len(self.pool.targets)`
module _ (default targets : ℕ) where
  -- The loop of _get_consensus_serial.
  consensus_loop : List NsStatus → List ℕ → Option ℕ
  unfolding exceed_or_meet_threshold
  consensus_loop statuses [] = some 0
  consensus_loop statuses (serial ∷ serials) =
      let rest = consensus_loop statuses serials in
      exceed_or_meet_threshold default targets (count (has_reached serial) statuses) default
      >>= λ met. if met then some serial else rest

  unfoldable pub consensus_serial : List NsStatus → Option ℕ
  unfolding consensus_loop serials_descending
  consensus_serial statuses = consensus_loop statuses (serials_descending statuses)

-- The loop of _get_error_serial.
error_loop : ℕ → List ℕ → ℕ
error_loop consensus [] = 0
error_loop consensus (serial ∷ serials) =
    let rest = error_loop consensus serials in if ltb consensus serial then serial else rest

pub error_serial : ℕ → List NsStatus → ℕ
unfolding error_loop serials_ascending
error_serial consensus statuses = error_loop consensus (serials_ascending statuses)
