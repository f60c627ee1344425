-- ===== src/PoolManager/Consensus/Greatest.antt =====
-- The consensus serial is the greatest serial that enough nameservers have reached, and the error
-- serial the least beyond it.
use mathlib.Core.Path.{subst}
use native.Mathlib.Decide.{dec_le}
use designate_private.Prelude.{
  ℕ, ◌*◌, ◌<◌, ◌≤◌, ◌≡◌, ◌≢◌, refl, sym, ◌∙◌, ◌⊎◌, inl, inr, Bool, Option, some, List, [], ◌∷◌, map,
  arith, ◌==◌, ltb, leb, if◌then◌else◌, count, IsIn, All, Bool-cases, ◌↔◌,
}
use designate_private.PoolManager.Consensus.{
  NsStatus, exceed_or_meet_threshold, insert_with, sort_with, serials_ascending, serials_descending,
  has_reached, consensus_loop, consensus_serial, error_loop, error_serial,
}

module _ (before : ℕ → ℕ → Bool) where
  IsIn-insert_with : (n a : ℕ) (l : List ℕ) → (a ≡ n) ⊎ IsIn n l → IsIn n (insert_with before a l)
  unfolding insert_with
  IsIn-insert_with n a [] h = h
  IsIn-insert_with n a (b ∷ bs) h = elim (Bool-cases (before a b)) [
    | inl first ↦ rw first h
    | inr later ↦ rw later (elim h [
      | inl same ↦ inr (IsIn-insert_with n a bs (inl same))
      | inr (inl same) ↦ inl same
      | inr (inr more) ↦ inr (IsIn-insert_with n a bs (inr more))
    ])
  ]

  inserted-IsIn : (n a : ℕ) (l : List ℕ) → IsIn n (insert_with before a l) → (a ≡ n) ⊎ IsIn n l
  unfolding insert_with
  inserted-IsIn n a [] h = h
  inserted-IsIn n a (b ∷ bs) h = ground (arith, inserted-IsIn n a bs)

  pub IsIn-sort_with : (n : ℕ) (l : List ℕ) → IsIn n l ↔ IsIn n (sort_with before l)
  unfolding sort_with
  IsIn-sort_with n [] = (λ h. h, λ h. h)
  IsIn-sort_with n (a ∷ l) = (
    λ h.
        IsIn-insert_with n a (sort_with before l)
          (elim h [ inl same ↦ inl same | inr more ↦ inr ((IsIn-sort_with n l).0 more) ]),
    λ h. elim (inserted-IsIn n a (sort_with before l) h) [
      | inl same ↦ inl same
      | inr more ↦ inr ((IsIn-sort_with n l).1 more)
    ],
  )

IsDescending : List ℕ → Type 0
IsDescending [] = Unit
IsDescending (a ∷ l) = All (λ b. b ≤ a) l × IsDescending l

IsAscending : List ℕ → Type 0
IsAscending [] = Unit
IsAscending (a ∷ l) = All (λ b. a ≤ b) l × IsAscending l

All-insert_with :
    (before : ℕ → ℕ → Bool) (P : ℕ → Type 0) (a : ℕ) (l : List ℕ)
    → P a
    → All P l
    → All P (insert_with before a l)
unfolding insert_with
All-insert_with before P a [] h k = (h, tt)
All-insert_with before P a (b ∷ bs) h k = elim (Bool-cases (before a b)) [
  | inl first ↦ rw first (h, k)
  | inr later ↦ rw later (k.0, All-insert_with before P a bs h k.1)
]

All-imp : {P Q : ℕ → Type 0} (l : List ℕ) → ((n : ℕ) → P n → Q n) → All P l → All Q l
All-imp [] f h = tt
All-imp (a ∷ l) f h = (f a h.0, All-imp l f h.1)

IsDescending-insert :
    (a : ℕ) (l : List ℕ) → IsDescending l → IsDescending (insert_with (λ a b. leb b a) a l)
unfolding insert_with IsDescending
IsDescending-insert a [] h = (tt, tt)
IsDescending-insert a (b ∷ bs) h = elim (Bool-cases (leb b a)) [
  | inl first ↦ rw first ((ground arith, All-imp bs (λ n k. ground arith) h.0), h)
  | inr later ↦ rw later (
    All-insert_with (λ a b. leb b a) (λ c. c ≤ b) a bs (ground arith) h.0,
    IsDescending-insert a bs h.1,
  )
]

IsAscending-insert : (a : ℕ) (l : List ℕ) → IsAscending l → IsAscending (insert_with leb a l)
unfolding insert_with IsAscending
IsAscending-insert a [] h = (tt, tt)
IsAscending-insert a (b ∷ bs) h = elim (Bool-cases (leb a b)) [
  | inl first ↦ rw first ((ground arith, All-imp bs (λ n k. ground arith) h.0), h)
  | inr later ↦
      rw later
        (All-insert_with leb (λ c. b ≤ c) a bs (ground arith) h.0, IsAscending-insert a bs h.1)
]

IsDescending-sort : (l : List ℕ) → IsDescending (sort_with (λ a b. leb b a) l)
unfolding sort_with IsDescending
IsDescending-sort [] = tt
IsDescending-sort (a ∷ l) =
    IsDescending-insert a (sort_with (λ a b. leb b a) l) (IsDescending-sort l)

IsAscending-sort : (l : List ℕ) → IsAscending (sort_with leb l)
unfolding sort_with IsAscending
IsAscending-sort [] = tt
IsAscending-sort (a ∷ l) = IsAscending-insert a (sort_with leb l) (IsAscending-sort l)

All-IsIn : (P : ℕ → Type 0) (n : ℕ) (l : List ℕ) → All P l → IsIn n l → P n
All-IsIn P n (a ∷ l) h (inl e) = subst P e h.0
All-IsIn P n (a ∷ l) h (inr k) = All-IsIn P n l h.1 k
All-IsIn P n [] h k = absurd k

abbrev pub serials : List NsStatus → List ℕ
serials statuses = map (λ s. s.serial_number) statuses

module _ (default targets : ℕ) (statuses : List NsStatus) where
  -- The threshold's percentage of the pool's targets is met by the nameservers at this serial or a
  -- later one.
  abbrev pub IsReached : ℕ → Type 0
  IsReached serial = default * targets ≤ 100 * count (has_reached serial) statuses

  pub record IsConsensus (end : Option ℕ) : Type 0 where
    pub serial : ℕ
    pub returned : end ≡ some serial
    pub reported : serial ≢ 0 → IsIn serial (serials statuses)
    pub reached : serial ≢ 0 → IsReached serial
    pub greatest : (n : ℕ) → IsIn n (serials statuses) → IsReached n → n ≤ serial

  -- What the loop finds in a list.
  record Found (l : List ℕ) (end : Option ℕ) : Type 0 where
    serial : ℕ
    returned : end ≡ some serial
    listed : serial ≢ 0 → IsIn serial l
    reached : serial ≢ 0 → IsReached serial
    greatest : (n : ℕ) → IsIn n l → IsReached n → n ≤ serial

  module _ (some_target : 0 < targets) where
    divided :
        (k : ℕ)
        → exceed_or_meet_threshold default targets k default
          ≡ some (leb (default * targets) (100 * k))
    unfolding exceed_or_meet_threshold
    divided k = ground arith

    consensus_loop-met :
        (serial : ℕ) (serials : List ℕ)
        → IsReached serial
        → consensus_loop default targets statuses (serial ∷ serials) ≡ some serial
    unfolding consensus_loop
    consensus_loop-met serial serials h =
        rw (divided (count (has_reached serial) statuses)) (ground arith)

    consensus_loop-missed :
        (serial : ℕ) (serials : List ℕ)
        → ¬ IsReached serial
        → consensus_loop default targets statuses (serial ∷ serials)
          ≡ consensus_loop default targets statuses serials
    unfolding consensus_loop
    consensus_loop-missed serial serials h =
        rw (divided (count (has_reached serial) statuses)) (ground arith)

    loop-Found : (l : List ℕ) → IsDescending l → Found l (consensus_loop default targets statuses l)
    unfolding consensus_loop IsDescending
    loop-Found [] d = record {
      serial = 0;
      returned = refl;
      listed = λ h. absurd (h refl);
      reached = λ h. absurd (h refl);
      greatest = λ n h k. absurd h;
    }
    loop-Found (a ∷ l) d =
        elim (dec_le (default * targets) (100 * count (has_reached a) statuses)) [
          | yes met ↦ record {
            serial = a;
            returned = consensus_loop-met a l met;
            listed = λ h. inl refl;
            reached = λ h. met;
            greatest = λ n h k. elim h [
              | inl e ↦ omega arith
              | inr more ↦ All-IsIn (λ b. b ≤ a) n l d.0 more
            ];
          }
          | no missed ↦
              let rest = loop-Found l d.1 in
              record {
                serial = rest.serial;
                returned = consensus_loop-missed a l missed ∙ rest.returned;
                listed = λ h. inr (rest.listed h);
                reached = rest.reached;
                greatest = λ n h k. elim h [
                  | inl e ↦ absurd (missed (subst IsReached (sym e) k))
                  | inr more ↦ rest.greatest n more k
                ];
              }
        ]

-- For a pool with targets _get_consensus_serial raises nothing and finds the greatest of the
-- reported serials such that the nameservers at that serial or a later one are at least the
-- threshold's percentage of the number of targets, and 0 where there is none.
pub consensus_serial-IsConsensus :
    (default targets : ℕ) (statuses : List NsStatus)
    → 0 < targets
    → IsConsensus default targets statuses (consensus_serial default targets statuses)
unfolding consensus_serial serials_descending
consensus_serial-IsConsensus default targets statuses some_target =
    let all = serials statuses in
    let found =
      loop-Found default targets statuses some_target (sort_with (λ a b. leb b a) all)
        (IsDescending-sort all) in
    let moved = λ (n : ℕ). IsIn-sort_with (λ a b. leb b a) n all in
    record {
      serial = found.serial;
      returned = found.returned;
      reported = λ h. (moved found.serial).1 (found.listed h);
      reached = found.reached;
      greatest = λ n h k. found.greatest n ((moved n).0 h) k;
    }

-- The least of the serials beyond the consensus, and 0 where there is none.
pub record IsErrorSerial (consensus : ℕ) (serials : List ℕ) (e : ℕ) : Type 0 where
  pub listed : e ≢ 0 → IsIn e serials × (consensus < e)
  pub least : (n : ℕ) → IsIn n serials → consensus < n → (e ≢ 0) × (e ≤ n)

error_loop-IsErrorSerial :
    (consensus : ℕ) (l : List ℕ)
    → IsAscending l
    → IsErrorSerial consensus l (error_loop consensus l)
unfolding error_loop IsAscending
error_loop-IsErrorSerial consensus [] asc = record {
  listed = λ h. absurd (h refl);
  least = λ n h k. absurd h;
}
error_loop-IsErrorSerial consensus (a ∷ l) asc =
    let rest = error_loop-IsErrorSerial consensus l asc.1 in
    elim (Bool-cases (ltb consensus a)) [
      | inl beyond ↦ rw beyond (record {
        listed = λ h. (inl refl, ground arith);
        least = λ n h k. elim h [
          | inl e ↦ (ground arith, ground arith)
          | inr more ↦ (ground arith, All-IsIn (λ b. a ≤ b) n l asc.0 more)
        ];
      })
      | inr within ↦ rw within (record {
        listed = λ h. (inr (rest.listed h).0, (rest.listed h).1);
        least = λ n h k. elim h [ inl e ↦ absurd (ground arith) | inr more ↦ rest.least n more k ];
      })
    ]

-- The loop of _get_error_serial finds the least of the reported serials beyond the consensus serial,
-- and 0 where there is none.
pub error_serial-IsErrorSerial :
    (consensus : ℕ) (statuses : List NsStatus)
    → IsErrorSerial consensus (serials statuses) (error_serial consensus statuses)
unfolding error_serial serials_ascending
error_serial-IsErrorSerial consensus statuses =
    let all = serials statuses in
    let found = error_loop-IsErrorSerial consensus (sort_with leb all) (IsAscending-sort all) in
    let moved = λ (n : ℕ). IsIn-sort_with leb n all in
    record {
      listed = λ h. ((moved _).1 (found.listed h).0, (found.listed h).1);
      least = λ n h k. found.least n ((moved n).0 h) k;
    }

pub exceed_or_meet_threshold-returns :
    (default targets k threshold : ℕ)
    → 0 < targets
    → (met : Bool) × (exceed_or_meet_threshold default targets k threshold ≡ some met)
unfolding exceed_or_meet_threshold
exceed_or_meet_threshold-returns default targets k threshold some_target =
    (leb ((if threshold == 0 then default else threshold) * targets) (100 * k), ground arith)
