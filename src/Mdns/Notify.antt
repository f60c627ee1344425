-- ===== src/Mdns/Notify.antt =====
-- NotifyEndpoint of mdns/notify.py: _make_and_send_dns_message and get_serial_number. What comes of the
-- n-th message that is sent is a parameter; `time.sleep` and the log are left out.
pub mod Serials
mod Tests
use designate_private.Prelude.{
  ℕ, zero, suc, ◌+◌, ◌-◌, Bool, true, false, not, ◌&&◌, ◌||◌, Option, none, some, List, [], ◌∷◌,
  ◌==◌, leb, if◌then◌else◌, ◌>>=◌,
}
use designate_private.Objects.{Action, delete, no_action, Status, error, success, no_zone, Zone}

pub data Rcode : Type 0 where
  noerror nxdomain refused servfail other_rcode : Rcode

-- An RRset of the answer section: whether its name is the zone's, its class IN and its type SOA, and
-- the serial of its first record.
pub record RrSet : Type 0 where
  pub is_zone_soa : Bool
  pub serial : ℕ

pub record Response : Type 0 where
  pub rcode : Rcode
  pub authoritative : Bool
  pub answer : List RrSet

-- What comes of one message: a response, EAGAIN or a timeout, BadResponse, or another socket error.
pub data Sent : Type 0 where
  response : Response → Sent
  no_reply bad_response socket_error : Sent

is_refusal : Rcode → Bool
is_refusal nxdomain = true
is_refusal refused = true
is_refusal servfail = true
is_refusal _ = false

is_noerror : Rcode → Bool
is_noerror noerror = true
is_noerror _ = false

is_empty : List RrSet → Bool
is_empty [] = true
is_empty _ = false

-- The checks at the end of _make_and_send_dns_message.
accepted : Response → Option Response
unfolding is_refusal is_noerror is_empty
accepted r =
    if is_refusal r.rcode || (is_noerror r.rcode && is_empty r.answer)
    then some r
    else if not r.authoritative || not (is_noerror r.rcode)
    then none
    else some r

module _ (sends : ℕ → Sent) where
  -- The loop: the retries left, the messages sent before, and the current retry. `none` is the
  -- socket error that is raised again.
  send_loop : ℕ → ℕ → ℕ → Option (Option Response × ℕ)
  unfolding accepted
  send_loop zero sent retry = some (none, retry)
  send_loop (suc left) sent retry = elim (sends sent) [
    | response r ↦ some (accepted r, suc retry)
    | no_reply ↦ send_loop left (suc sent) (suc retry)
    | bad_response ↦ some (none, suc retry)
    | socket_error ↦ none
  ]

  pub make_and_send_dns_message : ℕ → ℕ → Option (Option Response × ℕ)
  unfolding send_loop
  make_and_send_dns_message max_retries sent = send_loop max_retries sent 0

-- How get_serial_number ends: the status, the actual serial and the retries left.
pub data Polled : Type 0 where
  out_of_fuel raised : Polled
  answered : Status → Option ℕ → ℕ → Polled

-- `response and (response.rcode() in (…) or not bool(response.answer))`
lacks_zone : Option Response → Bool
unfolding is_refusal is_empty
lacks_zone none = false
lacks_zone (some r) = is_refusal r.rcode || is_empty r.answer

-- The serial of a response with exactly one RRset, the zone's SOA.
soa_serial : List RrSet → Option ℕ
soa_serial (s ∷ []) = if s.is_zone_soa then some s.serial else none
soa_serial _ = none

next_serial : Option Response → Option ℕ → Option ℕ
unfolding soa_serial
next_serial none actual = actual
next_serial (some r) actual = elim (soa_serial r.answer) [ none ↦ actual | some n ↦ some n ]

-- `zone.action in ('DELETE', 'NONE')`
may_be_gone : Action → Bool
may_be_gone delete = true
may_be_gone no_action = true
may_be_gone _ = false

-- `actual_serial is not None and actual_serial >= zone.serial`
pub is_current : Option ℕ → ℕ → Bool
is_current none wanted = false
is_current (some n) wanted = leb wanted n

module _ (zone : Zone) where
  -- The rest of the loop body: `again` is what the next round answers.
  judge : Option Response → Status → Option ℕ → ℕ → (Status → Option ℕ → Polled) → Polled
  unfolding lacks_zone next_serial may_be_gone is_current
  judge found status actual left again =
      let gone = lacks_zone found in
      let status' : Status = if gone then no_zone else status in
      let actual' : Option ℕ = if gone then actual else next_serial found actual in
      if gone && (zone.serial == 0) && may_be_gone zone.action
      then answered no_zone (some 0) left
      else again status' actual'

  -- What follows the message: `next` is the next round, by the messages that were sent.
  after_send :
      Option (Option Response × ℕ)
      → Status
      → Option ℕ
      → ℕ
      → (Status → Option ℕ → ℕ → Polled)
      → Polled
  unfolding judge
  after_send none status actual left next = raised
  after_send (some (found, sent)) status actual left next =
      judge found status actual left (λ status' actual'.
        if is_current actual' zone.serial
        then answered success actual' left
        else if (left - sent) == 0
        then answered status' actual' 0
        else next status' actual' sent)

  -- By the fuel; the status, the actual serial, the retries left and the messages sent so far.
  poll_loop : (ℕ → Sent) → ℕ → Status → Option ℕ → ℕ → ℕ → Polled
  unfolding make_and_send_dns_message after_send
  poll_loop sends zero status actual left total = out_of_fuel
  poll_loop sends (suc fuel) status actual left total =
      after_send (make_and_send_dns_message sends left total) status actual left
        (λ status' actual' sent. poll_loop sends fuel status' actual' (left - sent) (total + sent))

  -- Every round but one without retries sends a message, so the retries bound the rounds.
  pub get_serial_number : (ℕ → Sent) → ℕ → Polled
  unfolding poll_loop
  get_serial_number sends max_retries = poll_loop sends (suc max_retries) error none max_retries 0
