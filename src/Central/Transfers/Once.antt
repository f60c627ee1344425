-- ===== src/Central/Transfers/Once.antt =====
-- What accepting a transfer does, and that it happens once.
use designate_private.Prelude.{
  ℕ, ◌≡◌, ◌≢◌, refl, sym, ap, ◌∙◌, inl, inr, Bool, true, false, List, [], ◌∷◌, arith,
}
use mathlib.Core.Path.{subst}
use designate_private.Central.Checks.{Refusal, transfer_used, Checked-cases, passed, refused}
use designate_private.Central.Transfers.{
  TransferStatus, active, complete, TransferRequest, TransferAccept, Owned, Tables, Outcome, settle,
  transaction, get_zone, get_request, give_zone, set_request, require_active, vet, add_accept,
  find_movable, move, accept, create_zone_transfer_accept,
}

get_zone-id : (id : ℕ) (zs : List Owned) (z : Owned) → get_zone id zs ≡ passed z → z.id ≡ id
unfolding get_zone
get_zone-id id [] z e = cc
get_zone-id id (y ∷ ys) z e = ground (arith, get_zone-id id ys z)

get_request-id :
    (id : ℕ) (rs : List TransferRequest) (r : TransferRequest)
    → get_request id rs ≡ passed r
    → r.id ≡ id
unfolding get_request
get_request-id id [] r e = cc
get_request-id id (y ∷ ys) r e = ground (arith, get_request-id id ys r)

get_zone-give_zone :
    (tenant_id id : ℕ) (zs : List Owned) (z : Owned)
    → get_zone id zs ≡ passed z
    → get_zone id (give_zone tenant_id id zs) ≡ passed (record z { tenant_id = tenant_id })
unfolding get_zone give_zone
get_zone-give_zone tenant_id id [] z e = cc
get_zone-give_zone tenant_id id (y ∷ ys) z e = ground (arith, get_zone-give_zone tenant_id id ys z)

get_zone-give_other :
    (tenant_id id other : ℕ) (zs : List Owned)
    → other ≢ id
    → get_zone other (give_zone tenant_id id zs) ≡ get_zone other zs
unfolding get_zone give_zone
get_zone-give_other tenant_id id other [] ne = refl
get_zone-give_other tenant_id id other (y ∷ ys) ne =
    ground (arith, get_zone-give_other tenant_id id other ys ne)

get_request-set_request :
    (report : TransferStatus) (id : ℕ) (rs : List TransferRequest) (r : TransferRequest)
    → get_request id rs ≡ passed r
    → get_request id (set_request report id rs) ≡ passed (record r { status = report })
unfolding get_request set_request
get_request-set_request report id [] r e = cc
get_request-set_request report id (y ∷ ys) r e =
    ground (arith, get_request-set_request report id ys r)

settle-passed :
    (db db' : Tables) (out : Outcome) → settle db out ≡ (db', passed tt) → out ≡ (db', passed tt)
unfolding settle
settle-passed db db' (written, passed a) e = e
settle-passed db db' (written, refused r) e = absurd (ground arith)

settle-refused :
    (db db' : Tables) (out : Outcome) (r : Refusal) → settle db out ≡ (db', refused r) → db' ≡ db
unfolding settle
settle-refused db db' (written, passed a) r e = absurd (ground arith)
settle-refused db db' (written, refused q) r e = ground arith

vet-passed :
    (may_get may_accept : Bool) (key : ℕ) (request : TransferRequest)
    → vet may_get may_accept key request ≡ passed tt
    → (may_get ≡ true) × (request.status ≡ active) × (request.key ≡ key) × (may_accept ≡ true)
unfolding vet require_active
vet-passed may_get may_accept key request e = ground arith

find_movable-passed :
    (zone_id : ℕ) (zones : List Owned) (zone : Owned)
    → find_movable zone_id zones ≡ passed zone
    → (get_zone zone_id zones ≡ passed zone) × (zone.deleting ≡ false)
unfolding find_movable
find_movable-passed zone_id zones zone e = ground arith

accept-passed :
    (may_get may_accept : TransferRequest → Bool) (key : ℕ) (offer : TransferAccept)
    (db db' : Tables)
    → accept may_get may_accept key offer db ≡ (db', passed tt)
    → (request : TransferRequest) × (get_request offer.request_id db.requests ≡ passed request)
      × (vet (may_get request) (may_accept request) key request ≡ passed tt)
      × (move request offer db ≡ (db', passed tt))
unfolding accept
accept-passed may_get may_accept key offer db db' e =
    elim (Checked-cases (get_request offer.request_id db.requests)) [
      | inr (r, g) ↦ absurd (ground arith)
      | inl (request, g) ↦
          elim (Checked-cases (vet (may_get request) (may_accept request) key request)) [
            | inr (r, v) ↦ absurd (ground arith)
            | inl (a, v) ↦ (request, g, v, ground arith)
          ]
    ]

move-passed :
    (request : TransferRequest) (offer : TransferAccept) (db db' : Tables)
    → move request offer db ≡ (db', passed tt)
    → (zone : Owned) × (find_movable request.zone_id db.zones ≡ passed zone)
      × (db'.zones ≡ give_zone offer.tenant_id zone.id db.zones)
      × (db'.requests ≡ set_request complete request.id db.requests)
unfolding move add_accept
move-passed request offer db db' e = elim (Checked-cases (find_movable request.zone_id db.zones)) [
  | inr (r, f) ↦ absurd (ground arith)
  | inl (zone, f) ↦ (zone, f, ground arith, ground arith)
]

-- What an accept that passes found and did.
pub record IsTransfer (may_get may_accept : TransferRequest → Bool) (key : ℕ)
    (offer : TransferAccept) (db db' : Tables) : Type 0 where
  pub request : TransferRequest
  pub zone : Owned
  pub found : get_request offer.request_id db.requests ≡ passed request
  pub usable :
      (may_get request ≡ true)
      × (request.status ≡ active)
      × (request.key ≡ key)
      × (may_accept request ≡ true)
  pub movable : (get_zone request.zone_id db.zones ≡ passed zone) × (zone.deleting ≡ false)
  pub given : get_zone zone.id db'.zones ≡ passed (record zone { tenant_id = offer.tenant_id })
  pub others : (id : ℕ) → id ≢ zone.id → get_zone id db'.zones ≡ get_zone id db.zones
  pub used :
      get_request offer.request_id db'.requests ≡ passed (record request { status = complete })

module _ (may_get may_accept : TransferRequest → Bool) (key : ℕ) (offer : TransferAccept)
    (db db' : Tables) where
  -- An accept that passes found an ACTIVE request with its key, allowed by the policy, for a zone that
  -- is not being deleted; afterwards the zone belongs to the accept's tenant, the other zones are as
  -- they were, and the request is COMPLETE.
  pub create_zone_transfer_accept-IsTransfer :
      create_zone_transfer_accept may_get may_accept key offer db ≡ (db', passed tt)
      → IsTransfer may_get may_accept key offer db db'
  unfolding create_zone_transfer_accept transaction
  create_zone_transfer_accept-IsTransfer e =
      let done = settle-passed db db' (accept may_get may_accept key offer db) e in
      let (r, g, v, moved) = accept-passed may_get may_accept key offer db db' done in
      let (z, f, zones_after, requests_after) = move-passed r offer db db' moved in
      let (at, alive) = find_movable-passed r.zone_id db.zones z f in
      let here =
        subst (λ i. get_zone i db.zones ≡ passed z) (sym (get_zone-id r.zone_id db.zones z at))
          at in
      let own = get_request-id offer.request_id db.requests r g in
      record {
        request = r;
        zone = z;
        found = g;
        usable = vet-passed (may_get r) (may_accept r) key r v;
        movable = (at, alive);
        given =
            ap (λ l. get_zone z.id l) zones_after
            ∙ get_zone-give_zone offer.tenant_id z.id db.zones z here;
        others = λ id ne.
            ap (λ l. get_zone id l) zones_after
            ∙ get_zone-give_other offer.tenant_id z.id id db.zones ne;
        used =
            ap (λ l. get_request offer.request_id l) requests_after
            ∙ subst
                (λ i.
                  get_request offer.request_id (set_request complete i db.requests)
                  ≡ passed (record r { status = complete }))
                (sym own) (get_request-set_request complete offer.request_id db.requests r g);
      }

  -- An accept that raises leaves every row as it was.
  pub create_zone_transfer_accept-rolls_back :
      (r : Refusal)
      → create_zone_transfer_accept may_get may_accept key offer db ≡ (db', refused r)
      → db' ≡ db
  unfolding create_zone_transfer_accept transaction
  create_zone_transfer_accept-rolls_back r e =
      settle-refused db db' (accept may_get may_accept key offer db) r e

vet-complete :
    (may_accept : Bool) (key : ℕ) (request : TransferRequest)
    → vet true may_accept key (record request { status = complete }) ≡ refused transfer_used
unfolding vet require_active
vet-complete may_accept key request = refl

-- A request is good for one accept: once one with it has passed, every accept with the same request
-- that may read it raises InvaildZoneTransfer and changes nothing.
pub create_zone_transfer_accept-once :
    (may_get may_accept : TransferRequest → Bool) (key : ℕ) (offer : TransferAccept)
    (db db' : Tables) (may_get' may_accept' : TransferRequest → Bool) (key' : ℕ)
    (offer' : TransferAccept)
    → create_zone_transfer_accept may_get may_accept key offer db ≡ (db', passed tt)
    → offer'.request_id ≡ offer.request_id
    → ((r : TransferRequest) → may_get' r ≡ true)
    → create_zone_transfer_accept may_get' may_accept' key' offer' db'
      ≡ (db', refused transfer_used)
unfolding create_zone_transfer_accept transaction accept settle
create_zone_transfer_accept-once may_get may_accept key offer db db' may_get' may_accept' key'
      offer' e same reads =
    let t = create_zone_transfer_accept-IsTransfer may_get may_accept key offer db db' e in
    let r : TransferRequest = record t.request { status = complete } in
    let found : get_request offer'.request_id db'.requests ≡ passed r =
      subst (λ i. get_request i db'.requests ≡ passed r) (sym same) t.used in
    let barred : vet (may_get' r) (may_accept' r) key' r ≡ refused transfer_used =
      subst (λ b. vet b (may_accept' r) key' r ≡ refused transfer_used) (sym (reads r))
        (vet-complete (may_accept' r) key' t.request) in
    rw (accept, found, barred) refl
