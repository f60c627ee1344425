-- ===== src/Central/Locks/Exclusion.antt =====
-- While nothing raises, a method runs with its zone's lock.
use mathlib.Core.Path.{subst}
use designate_private.Prelude.{
  ℕ, ◌≡◌, ◌≢◌, refl, sym, ap, ◌∙◌, ◌⊎◌, inl, inr, Bool, true, false, Option, none, some, ◌∷◌, ◌>>=◌,
  All, Bool-cases,
}
use designate_private.Central.Locks.{
  holds, remove, Program, return, raise, call, End, returned, Thread, enter, take_lock, leave,
  locked, sync_wrapper, resume, run,
}
use designate_private.Central.Locks.Reentry.{holds-cons, remove-cons, locked-again, locked-fresh}

-- No method raises, and every call names a zone or may do without.
abbrev pub IsCalm : Program → Type 0
IsCalm return = Unit
IsCalm raise = ⊥
IsCalm (call new_zone caught zone_id body next) =
    ((new_zone ≡ true) ⊎ (zone_id ≢ none)) × IsCalm body × IsCalm next

-- Every body so far started with its lock, and `held` lists the locks.
abbrev pub IsInStep : Thread → Type 0
IsInStep t = (t.held ≡ t.owned) × All (λ b. b ≡ true) t.log

-- The run returns and leaves the locks as they were.
pub record IsExclusive (f : Thread → Option (Thread × End)) (t : Thread) : Type 0 where
  pub after : Thread
  pub ends : f t ≡ some (after, returned)
  pub owns : after.owned ≡ t.owned
  pub in_step : IsInStep after

module _ (body : Thread → Option (Thread × End))
    (calm : (t : Thread) → IsInStep t → IsExclusive body t) where
  enter-IsInStep :
      (id : Option ℕ) (t : Thread) → IsInStep t → holds id t.owned ≡ true → IsInStep (enter id t)
  unfolding enter
  enter-IsInStep id t (same, logged) mine = (same, (mine, logged))

  take_lock-IsInStep : (id : Option ℕ) (t : Thread) → IsInStep t → IsInStep (take_lock id t)
  unfolding take_lock
  take_lock-IsInStep id t (same, logged) = (ap (λ l. id ∷ l) same, logged)

  owned-take_lock : (id : Option ℕ) (t : Thread) → (take_lock id t).owned ≡ id ∷ t.owned
  unfolding take_lock
  owned-take_lock id t = refl

  owned-enter : (id : Option ℕ) (t : Thread) → (enter id t).owned ≡ t.owned
  unfolding enter
  owned-enter id t = refl

  leave-IsInStep : (id : Option ℕ) (t u : Thread) → IsInStep u → IsInStep (leave id returned u)
  unfolding leave
  leave-IsInStep id t u (same, logged) = (ap (λ l. remove id l) same, logged)

  leave-owned :
      (id : Option ℕ) (t u : Thread)
      → u.owned ≡ id ∷ t.owned
      → (leave id returned u).owned ≡ t.owned
  unfolding leave
  leave-owned id t u e = ap (λ l. remove id l) e ∙ remove-cons id t.owned

  locked-IsExclusive : (id : Option ℕ) (t : Thread) → IsInStep t → IsExclusive (locked id body) t
  locked-IsExclusive id t step = elim (Bool-cases (holds id t.held)) [
    | inl again ↦
        let s =
          calm (enter id t)
            (enter-IsInStep id t step (subst (λ l. holds id l ≡ true) step.0 again)) in
        record {
          after = s.after;
          ends = locked-again body id t again ∙ s.ends;
          owns = s.owns ∙ owned-enter id t;
          in_step = s.in_step;
        }
    | inr fresh ↦
        let mine : holds id (take_lock id t).owned ≡ true =
          subst (λ l. holds id l ≡ true) (sym (owned-take_lock id t)) (holds-cons id t.owned) in
        let s =
          calm (enter id (take_lock id t))
            (enter-IsInStep id (take_lock id t) (take_lock-IsInStep id t step) mine) in
        record {
          after = leave id returned s.after;
          ends =
              locked-fresh body id t s.after returned fresh
                (subst (λ l. holds id l ≡ false) step.0 fresh) s.ends;
          owns =
              leave-owned id t s.after
                (s.owns ∙ owned-enter id (take_lock id t) ∙ owned-take_lock id t);
          in_step = leave-IsInStep id t s.after s.in_step;
        }
  ]

  sync_wrapper-IsExclusive :
      (new_zone : Bool) (id : Option ℕ) (t : Thread)
      → (new_zone ≡ true) ⊎ (id ≢ none)
      → IsInStep t
      → IsExclusive (sync_wrapper new_zone id body) t
  unfolding sync_wrapper
  sync_wrapper-IsExclusive false none t (inl bad) step = cc
  sync_wrapper-IsExclusive false none t (inr bad) step = absurd (bad refl)
  sync_wrapper-IsExclusive false (some id) t named step =
      let s = locked-IsExclusive (some id) t step in
      record { after = s.after; ends = s.ends; owns = s.owns; in_step = s.in_step }
  sync_wrapper-IsExclusive true id t named step =
      let s = locked-IsExclusive id t step in
      record { after = s.after; ends = s.ends; owns = s.owns; in_step = s.in_step }

-- Where no method raises and every call finds its zone, a thread whose record of held zones agrees with
-- its locks runs every body with the lock of its zone, returns, and has the locks that it began with.
pub run-IsExclusive :
    (p : Program) (t : Thread) → IsCalm p → IsInStep t → IsExclusive (λ u. run p u) t
unfolding run resume
run-IsExclusive return t calm step = record { after = t; ends = refl; owns = refl; in_step = step }
run-IsExclusive raise t calm step = absurd calm
run-IsExclusive (call new_zone caught zone_id body next) t (named, calm_body, calm_next) step =
    let within =
      sync_wrapper-IsExclusive (λ u. run body u) (λ u s. run-IsExclusive body u calm_body s)
        new_zone zone_id t named step in
    let later = run-IsExclusive next within.after calm_next within.in_step in
    record {
      after = later.after;
      ends = ap (λ m. m >>= resume caught (λ u. run next u)) within.ends ∙ later.ends;
      owns = later.owns ∙ within.owns;
      in_step = later.in_step;
    }
