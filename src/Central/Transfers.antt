-- ===== src/Central/Transfers.antt =====
-- Zone transfers in central/service.py: create_zone_transfer_request, create_zone_transfer_accept and
-- the `transaction` decorator of storage/__init__.py around them. A key, a tenant and an id are
-- numbers: they are only compared. The policy's answers, the ids and the random key are arguments;
-- storage's update_zone finds the row that get_zone has just read.
pub mod Once
mod Tests
use designate_private.Prelude.{
  ℕ, Bool, true, false, not, ◌&&◌, Option, none, some, List, [], ◌∷◌, ◌==◌, if◌then◌else◌, count,
}
use designate_private.Central.Checks.{
  Refusal, forbidden, request_not_found, transfer_used, transfer_invalid, incorrect_key,
  zone_not_found, deleting_zone, duplicate_request, Checked, passed, refused, ◌>>=◌, ◌>>◌,
  refuse_if,
}

pub data TransferStatus : Type 0 where
  active pending deleted error complete : TransferStatus

pub record TransferRequest : Type 0 where
  pub id : ℕ
  pub zone_id : ℕ
  pub key : ℕ
  pub tenant_id : ℕ
  pub status : TransferStatus

pub record TransferAccept : Type 0 where
  pub id : ℕ
  pub request_id : ℕ
  pub tenant_id : ℕ
  pub status : TransferStatus

pub record Owned : Type 0 where
  pub id : ℕ
  pub tenant_id : ℕ
  pub deleting : Bool

pub record Tables : Type 0 where
  pub zones : List Owned
  pub requests : List TransferRequest
  pub accepts : List TransferAccept

-- What a call leaves in the database, and how it ends.
abbrev pub Outcome : Type 0
Outcome = Tables × Checked (Unit {0})

-- The rows that a body wrote are rolled back when it raises.
settle : Tables → Outcome → Outcome
settle db (written, passed a) = (written, passed a)
settle db (written, refused r) = (db, refused r)

transaction : (Tables → Outcome) → Tables → Outcome
unfolding settle
transaction f db = settle db (f db)

-- storage.get_zone; an id is the key of its table.
pub get_zone : ℕ → List Owned → Checked Owned
get_zone id [] = refused zone_not_found
get_zone id (z ∷ zs) = let rest = get_zone id zs in if z.id == id then passed z else rest

-- storage.get_zone_transfer_request, in an elevated context.
pub get_request : ℕ → List TransferRequest → Checked TransferRequest
get_request id [] = refused request_not_found
get_request id (r ∷ rs) = let rest = get_request id rs in if r.id == id then passed r else rest

-- storage.update_zone, update_zone_transfer_request and update_zone_transfer_accept, by id.
pub give_zone : ℕ → ℕ → List Owned → List Owned
give_zone tenant_id id [] = []
give_zone tenant_id id (z ∷ zs) =
    let rest = give_zone tenant_id id zs in
    if z.id == id then record z { tenant_id = tenant_id } ∷ zs else z ∷ rest

pub set_request : TransferStatus → ℕ → List TransferRequest → List TransferRequest
set_request report id [] = []
set_request report id (r ∷ rs) =
    let rest = set_request report id rs in
    if r.id == id then record r { status = report } ∷ rs else r ∷ rest

-- The refusals for a request that is not ACTIVE.
require_active : TransferStatus → Checked (Unit {0})
require_active active = passed tt
require_active complete = refused transfer_used
require_active _ = refused transfer_invalid

-- The checks of create_zone_transfer_accept.
vet : Bool → Bool → ℕ → TransferRequest → Checked (Unit {0})
unfolding require_active
vet may_get may_accept key request = do
  refuse_if (not may_get) forbidden
  require_active request.status
  refuse_if (not (request.key == key)) incorrect_key
  refuse_if (not may_accept) forbidden

-- storage.create_zone_transfer_accept, with the status that the accept gets in the end.
add_accept : TransferStatus → TransferAccept → Tables → Tables
add_accept report offer db = record db { accepts = record offer { status = report } ∷ db.accepts }

-- The `try` of create_zone_transfer_accept: a zone that is being deleted is not given away.
find_movable : ℕ → List Owned → Checked Owned
unfolding get_zone
find_movable zone_id zones = do
  zone ← get_zone zone_id zones
  refuse_if zone.deleting deleting_zone
  passed zone

-- What follows the checks.
move : TransferRequest → TransferAccept → Tables → Outcome
unfolding add_accept find_movable give_zone set_request
move request offer db = elim (find_movable request.zone_id db.zones) [
  | refused r ↦ (add_accept error offer db, refused r)
  | passed zone ↦ (
    record (add_accept complete offer db) {
      zones = give_zone offer.tenant_id zone.id db.zones;
      requests = set_request complete request.id db.requests;
    },
    passed tt,
  )
]

-- create_zone_transfer_accept without its transaction.
accept : (TransferRequest → Bool) → (TransferRequest → Bool) → ℕ → TransferAccept → Tables → Outcome
unfolding get_request vet move
accept may_get may_accept key offer db = elim (get_request offer.request_id db.requests) [
  | refused r ↦ (db, refused r)
  | passed request ↦ elim (vet (may_get request) (may_accept request) key request) [
    | refused r ↦ (db, refused r)
    | passed _ ↦ move request offer db
  ]
]

pub create_zone_transfer_accept :
    (TransferRequest → Bool) → (TransferRequest → Bool) → ℕ → TransferAccept → Tables → Outcome
unfolding accept transaction
create_zone_transfer_accept may_get may_accept key offer db =
    transaction (accept may_get may_accept key offer) db

is_active : TransferStatus → Bool
is_active active = true
is_active _ = false

-- storage.create_zone_transfer_request: a zone with exactly one ACTIVE request that the context may
-- see gets no other.
insert_request : (TransferRequest → Bool) → TransferRequest → Tables → Outcome
unfolding is_active
insert_request visible request db =
    if count
        (λ (r : TransferRequest). (r.zone_id == request.zone_id) && is_active r.status && visible r)
        db.requests
      == 1
    then (db, refused duplicate_request)
    else (record db { requests = request ∷ db.requests }, passed tt)

pub create_zone_transfer_request :
    (TransferRequest → Bool) → (Owned → Bool) → (Owned → Bool) → TransferRequest → Tables → Outcome
unfolding insert_request get_zone transaction
create_zone_transfer_request visible may_get may_create request db =
    transaction
      (λ t. elim (get_zone request.zone_id t.zones) [
        | refused r ↦ (t, refused r)
        | passed zone ↦
            if not (may_get zone)
            then (t, refused forbidden)
            else (if zone.deleting
                then (t, refused deleting_zone)
                else (if may_create zone
                    then insert_request visible request t
                    else (t, refused forbidden)))
      ])
      db
