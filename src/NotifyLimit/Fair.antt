-- ===== src/NotifyLimit/Fair.antt =====
-- Who gets the lock.
use mathlib.Core.Path.{subst}
use designate_private.Prelude.{
  ℕ, ◌+◌, ◌≤◌, ◌<◌, ◌≡◌, refl, sym, ◌⊎◌, inl, inr, Bool, true, false, Option, none, some, List, [],
  ◌∷◌, ◌==◌, ltb, if◌then◌else◌, arith, Bool-cases, Option-cases,
}
use designate_private.NotifyLimit.{
  Locked, locked_at, forget, acquire, release, Call, acquiring, releasing, Entry, answered,
  released, step, serve,
}

-- When the zone's lock was granted last, if it was not released since.
pub granted_at : ℕ → List Entry → Option ℕ
granted_at zone [] = none
granted_at zone (answered z now false ∷ log) = granted_at zone log
granted_at zone (answered z now true ∷ log) =
    let before = granted_at zone log in if z == zone then some now else before
granted_at zone (released z ∷ log) =
    let before = granted_at zone log in if z == zone then none else before

-- The lock may be granted: nobody has it, or somebody for longer than the delay.
abbrev IsFree : ℕ → ℕ → Option ℕ → Type 0
IsFree delay now none = Unit
IsFree delay now (some t) = t + delay < now

abbrev IsTaken : ℕ → ℕ → Option ℕ → Type 0
IsTaken delay now none = ⊥
IsTaken delay now (some t) = now ≤ t + delay

-- Every answer was right.
abbrev pub IsFair : ℕ → List Entry → Type 0
IsFair delay [] = Unit
IsFair delay (answered z now true ∷ log) = IsFree delay now (granted_at z log) × IsFair delay log
IsFair delay (answered z now false ∷ log) = IsTaken delay now (granted_at z log) × IsFair delay log
IsFair delay (released z ∷ log) = IsFair delay log

-- The table says when the zones were locked.
abbrev pub IsRecord : Locked → List Entry → Type 0
IsRecord locks log = (zone : ℕ) → locked_at zone locks ≡ granted_at zone log

locked_at-forget_same : (zone : ℕ) (locks : Locked) → locked_at zone (forget zone locks) ≡ none
unfolding locked_at forget
locked_at-forget_same zone [] = refl
locked_at-forget_same zone ((z, t) ∷ rest) = ground (arith, locked_at-forget_same zone rest)

locked_at-forget_other :
    (zone other : ℕ) (locks : Locked)
    → (zone == other) ≡ false
    → locked_at other (forget zone locks) ≡ locked_at other locks
unfolding locked_at forget
locked_at-forget_other zone other [] ne = refl
locked_at-forget_other zone other ((z, t) ∷ rest) ne =
    ground (arith, locked_at-forget_other zone other rest ne)

abbrev IsGood : ℕ → Locked × List Entry → Type 0
IsGood delay (locks, log) = IsRecord locks log × IsFair delay log

granted-IsGood :
    (delay zone now : ℕ) (locks : Locked) (log : List Entry)
    → IsGood delay (locks, log)
    → IsFree delay now (locked_at zone locks)
    → IsGood delay ((zone, now) ∷ locks, answered zone now true ∷ log)
unfolding granted_at locked_at
granted-IsGood delay zone now locks log (rec, fair) free =
    (λ other. ground (arith, rec other), (subst (IsFree delay now) (rec zone) free, fair))

refused-IsGood :
    (delay zone now : ℕ) (locks : Locked) (log : List Entry)
    → IsGood delay (locks, log)
    → IsTaken delay now (locked_at zone locks)
    → IsGood delay (locks, answered zone now false ∷ log)
unfolding granted_at
refused-IsGood delay zone now locks log (rec, fair) taken =
    (rec, (subst (IsTaken delay now) (rec zone) taken, fair))

acquire-cases :
    (delay now zone : ℕ) (locks : Locked)
    → ((acquire delay now zone locks ≡ ((zone, now) ∷ locks, true))
        × IsFree delay now (locked_at zone locks))
      ⊎ ((acquire delay now zone locks ≡ (locks, false)) × IsTaken delay now (locked_at zone locks))
unfolding acquire
acquire-cases delay now zone locks = elim (Option-cases (locked_at zone locks)) [
  | inl missing ↦ inl (rw (acquire, missing) refl, subst (IsFree delay now) (sym missing) tt)
  | inr (t, found) ↦ elim (Bool-cases (ltb (t + delay) now)) [
    | inl late ↦
        inl (rw (acquire, found, late) refl, subst (IsFree delay now) (sym found) (ground arith))
    | inr early ↦
        inr (rw (acquire, found, early) refl, subst (IsTaken delay now) (sym found) (ground arith))
  ]
]

forget-IsRecord :
    (zone : ℕ) (locks : Locked) (log : List Entry)
    → IsRecord locks log
    → IsRecord (release zone locks) (released zone ∷ log)
unfolding release granted_at
forget-IsRecord zone locks log rec other = elim (Bool-cases (zone == other)) [
  | inl same ↦ ground (arith, locked_at-forget_same zone locks)
  | inr apart ↦ ground (arith, locked_at-forget_other zone other locks apart, rec other)
]

step-IsGood :
    (delay : ℕ) (c : Call) (s : Locked × List Entry)
    → IsGood delay s
    → IsGood delay (step delay c s)
unfolding step
step-IsGood delay (acquiring zone now) (locks, log) good =
    elim (acquire-cases delay now zone locks) [
      | inl (e, free) ↦
          subst (λ (r : Locked × Bool). IsGood delay (r.0, answered zone now r.1 ∷ log)) (sym e)
            (granted-IsGood delay zone now locks log good free)
      | inr (e, taken) ↦
          subst (λ (r : Locked × Bool). IsGood delay (r.0, answered zone now r.1 ∷ log)) (sym e)
            (refused-IsGood delay zone now locks log good taken)
    ]
step-IsGood delay (releasing zone) (locks, log) (rec, fair) =
    (forget-IsRecord zone locks log rec, fair)

serve-IsGood :
    (delay : ℕ) (cs : List Call) (s : Locked × List Entry)
    → IsGood delay s
    → IsGood delay (serve delay cs s)
unfolding serve
serve-IsGood delay [] s good = good
serve-IsGood delay (c ∷ cs) s good =
    serve-IsGood delay cs (step delay c s) (step-IsGood delay c s good)

-- In every history of calls the lock of a zone is granted exactly when it was never granted, was
-- released since, or was granted more than the delay ago; and the table holds the times of the grants
-- that were not released.
pub serve-IsFair :
    (delay : ℕ) (cs : List Call)
    → IsRecord (serve delay cs ([], [])).0 (serve delay cs ([], [])).1
      × IsFair delay (serve delay cs ([], [])).1
serve-IsFair delay cs =
    serve-IsGood delay cs ([], []) (λ zone. unfold locked_at granted_at in refl, tt)
