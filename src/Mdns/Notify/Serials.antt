-- ===== src/Mdns/Notify/Serials.antt =====
-- get_serial_number ends, and what its answer means.
use designate_private.Prelude.{
  ==_ne, ℕ, zero, suc, ◌+◌, ◌-◌, ◌<◌, ◌≤◌, ◌≡◌, ◌≢◌, refl, ◌⊎◌, inl, inr, Bool, true, false, ◌&&◌,
  Option, none, some, arith, ◌==◌, if◌then◌else◌, Bool-cases,
}
use designate_private.Objects.{Status, error, success, no_zone, Zone}
use designate_private.Mdns.Notify.{
  Response, Sent, send_loop, make_and_send_dns_message, Polled, out_of_fuel, raised, answered,
  judge, poll_loop, after_send, is_current, get_serial_number, lacks_zone, may_be_gone,
}

-- As many messages are sent as there are retries, at most, and one at least if there is a retry.
send_loop-count :
    (sends : ℕ → Sent) (left sent retry count : ℕ) (found : Option Response)
    → send_loop sends left sent retry ≡ some (found, count)
    → (count ≤ retry + left) × ((left ≡ 0) ⊎ (retry < count)) × (retry ≤ count)
unfolding send_loop
send_loop-count sends zero sent retry count found e = (ground arith, inl refl, ground arith)
send_loop-count sends (suc left) sent retry count found e =
    ground (arith, send_loop-count sends left (suc sent) (suc retry) count found)

-- The answer of a poll that began with `retries` retries.
pub record IsVerdict (zone : Zone) (retries : ℕ) (status : Status) (actual : Option ℕ) (left : ℕ)
    : Type 0 where
  pub one_of_three : (status ≡ success) ⊎ (status ≡ error) ⊎ (status ≡ no_zone)
  pub current : status ≡ success → (n : ℕ) × (actual ≡ some n) × (zone.serial ≤ n)
  pub given_up :
      status ≢ success → (left ≡ 0) ⊎ ((status ≡ no_zone) × (zone.serial ≡ 0) × (actual ≡ some 0))
  pub bounded : left ≤ retries

abbrev pub IsAnswer : Zone → ℕ → Polled → Type 0
IsAnswer zone retries out_of_fuel = ⊥
IsAnswer zone retries raised = Unit
IsAnswer zone retries (answered status actual left) = IsVerdict zone retries status actual left

IsOpen : Status → Type 0
IsOpen status = (status ≡ error) ⊎ (status ≡ no_zone)

IsOpen-if : (b : Bool) (status : Status) → IsOpen status → IsOpen (if b then no_zone else status)
unfolding IsOpen
IsOpen-if true status h = inr refl
IsOpen-if false status h = h

is_current-serial :
    (actual : Option ℕ) (wanted : ℕ)
    → is_current actual wanted ≡ true
    → (n : ℕ) × (actual ≡ some n) × (wanted ≤ n)
unfolding is_current
is_current-serial none wanted e = absurd (ground arith)
is_current-serial (some n) wanted e = (n, refl, ground arith)

module _ (zone : Zone) (retries : ℕ) where
  success-IsVerdict :
      (actual : Option ℕ) (left : ℕ)
      → left ≤ retries
      → is_current actual zone.serial ≡ true
      → IsVerdict zone retries success actual left
  success-IsVerdict actual left b e = record {
    one_of_three = inl refl;
    current = λ _. is_current-serial actual zone.serial e;
    given_up = λ h. absurd (h refl);
    bounded = b;
  }

  open-IsVerdict :
      (status : Status) (actual : Option ℕ) → IsOpen status → IsVerdict zone retries status actual 0
  unfolding IsOpen
  open-IsVerdict status actual h = record {
    one_of_three = inr h;
    current = λ e. absurd (ground arith);
    given_up = λ _. inl refl;
    bounded = omega arith;
  }

  gone-IsVerdict :
      (left : ℕ) → left ≤ retries → zone.serial ≡ 0 → IsVerdict zone retries no_zone (some 0) left
  gone-IsVerdict left b e = record {
    one_of_three = inr (inr refl);
    current = λ f. absurd (ground arith);
    given_up = λ _. inr (refl, e, refl);
    bounded = b;
  }

  judge-IsAnswer :
      (found : Option Response) (status : Status) (actual : Option ℕ) (left : ℕ)
      (again : Status → Option ℕ → Polled)
      → left ≤ retries
      → IsOpen status
      → ((s : Status) (a : Option ℕ) → IsOpen s → IsAnswer zone retries (again s a))
      → IsAnswer zone retries (judge zone found status actual left again)
  unfolding judge
  judge-IsAnswer found status actual left again b h k =
      elim (Bool-cases (lacks_zone found && (zone.serial == 0) && may_be_gone zone.action)) [
        | inl gone ↦ rw gone (gone-IsVerdict left b (ground arith))
        | inr there ↦ rw there (k _ _ (IsOpen-if (lacks_zone found) status h))
      ]

  again-IsAnswer :
      (left left' : ℕ) (s : Status) (a : Option ℕ) (rest : Polled)
      → left ≤ retries
      → IsOpen s
      → (left' ≢ 0 → IsAnswer zone retries rest)
      → IsAnswer zone retries (
          if is_current a zone.serial
          then answered success a left
          else if left' == 0
          then answered s a 0
          else rest)
  again-IsAnswer left left' s a rest b o k = elim (Bool-cases (is_current a zone.serial)) [
    | inl current ↦ rw current (success-IsVerdict a left b current)
    | inr late ↦ elim (Bool-cases (left' == 0)) [
      | inl spent ↦ rw (late, spent) (open-IsVerdict s a o)
      | inr more ↦ rw (late, more) (k (==_ne left' 0 more))
    ]
  ]

  after_send-IsAnswer :
      (end : Option (Option Response × ℕ)) (status : Status) (actual : Option ℕ) (left : ℕ)
      (next : Status → Option ℕ → ℕ → Polled)
      → left ≤ retries
      → IsOpen status
      → ((found : Option Response) (sent : ℕ) (s : Status) (a : Option ℕ)
          → end ≡ some (found, sent)
          → IsOpen s
          → left - sent ≢ 0
          → IsAnswer zone retries (next s a sent))
      → IsAnswer zone retries (after_send zone end status actual left next)
  unfolding after_send
  after_send-IsAnswer none status actual left next b h k = tt
  after_send-IsAnswer (some (found, sent)) status actual left next b h k =
      judge-IsAnswer found status actual left _ b h (λ s a o.
        again-IsAnswer left (left - sent) s a (next s a sent) b o (k found sent s a refl o))

  poll_loop-IsAnswer :
      (sends : ℕ → Sent) (fuel : ℕ) (status : Status) (actual : Option ℕ) (left total : ℕ)
      → left < fuel
      → left ≤ retries
      → IsOpen status
      → IsAnswer zone retries (poll_loop zone sends fuel status actual left total)
  unfolding poll_loop make_and_send_dns_message
  poll_loop-IsAnswer sends zero status actual left total l b h = absurd (omega arith)
  poll_loop-IsAnswer sends (suc fuel) status actual left total l b h =
      after_send-IsAnswer (make_and_send_dns_message sends left total) status actual left _ b h
        (λ found sent s a e o more.
          poll_loop-IsAnswer sends fuel s a (left - sent) (total + sent)
            (ground (arith, send_loop-count sends left total 0 sent found e)) (omega arith) o)

-- With one more round than retries get_serial_number never runs out of fuel: it ends with an answer,
-- unless a socket error is raised. The status is SUCCESS, ERROR or NO_ZONE. SUCCESS comes with a
-- serial not older than the zone's. With another status no retry is left, but when the zone's serial
-- is 0 and the status is NO_ZONE with the serial 0. The retries left are at most those given.
pub get_serial_number-IsAnswer :
    (zone : Zone) (sends : ℕ → Sent) (max_retries : ℕ)
    → IsAnswer zone max_retries (get_serial_number zone sends max_retries)
unfolding get_serial_number IsOpen
get_serial_number-IsAnswer zone sends max_retries =
    poll_loop-IsAnswer zone max_retries sends (suc max_retries) error none max_retries 0
      (omega arith) (omega arith) (inl refl)
