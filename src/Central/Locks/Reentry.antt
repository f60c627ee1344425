-- ===== src/Central/Locks/Reentry.antt =====
-- No thread waits for itself.
use mathlib.Core.Path.{subst}
use designate_private.Prelude.{
  ℕ, ◌≡◌, refl, sym, ap, ◌∙◌, inl, inr, Bool, true, false, Option, none, some, List, [], ◌∷◌, arith,
  ◌>>=◌, Bool-cases, if_false, ==_eq, ==_refl,
}
use designate_private.Central.Locks.{
  same_key, holds, remove, Program, return, raise, call, End, returned, raised, Thread, enter,
  take_lock, leave, close, locked, sync_wrapper, resume, run,
}

pub same_key_refl : (k : Option ℕ) → same_key k k ≡ true
unfolding same_key
same_key_refl none = refl
same_key_refl (some a) = ==_refl a

same_key_eq : (j k : Option ℕ) → same_key j k ≡ true → j ≡ k
unfolding same_key
same_key_eq none none e = refl
same_key_eq none (some b) e = cc
same_key_eq (some a) none e = cc
same_key_eq (some a) (some b) e = ap (λ n. some n) (==_eq a b e)

pub holds-cons : (k : Option ℕ) (ks : List (Option ℕ)) → holds k (k ∷ ks) ≡ true
unfolding holds
holds-cons k ks = rw (same_key_refl k) refl

pub remove-cons : (k : Option ℕ) (ks : List (Option ℕ)) → remove k (k ∷ ks) ≡ ks
unfolding remove
remove-cons k ks = rw (same_key_refl k) refl

holds-remove_other :
    (id k : Option ℕ) (ks : List (Option ℕ))
    → same_key id k ≡ false
    → holds k ks ≡ true
    → holds k (remove id ks) ≡ true
unfolding holds remove
holds-remove_other id k [] ne h = h
holds-remove_other id k (j ∷ js) ne h = elim (Bool-cases (same_key j id)) [
  | inl same ↦
      let apart : same_key j k ≡ false =
        subst (λ i. same_key i k ≡ false) (sym (same_key_eq j id same)) ne in
      ground arith
  | inr other ↦ ground (arith, holds-remove_other id k js ne)
]

-- What the thread has, ZONE_LOCKS.held knows.
abbrev pub IsCovered : List (Option ℕ) → List (Option ℕ) → Type 0
IsCovered owned held = (k : Option ℕ) → holds k owned ≡ true → holds k held ≡ true

IsCovered-cons :
    (id : Option ℕ) (owned held : List (Option ℕ))
    → IsCovered owned held
    → IsCovered (id ∷ owned) (id ∷ held)
unfolding holds
IsCovered-cons id owned held c k h = ground (arith, c k)

IsCovered-weaken :
    (id : Option ℕ) (owned held : List (Option ℕ))
    → IsCovered (id ∷ owned) held
    → IsCovered owned held
unfolding holds
IsCovered-weaken id owned held c k h = c k (ground arith)

IsCovered-remove :
    (id : Option ℕ) (before after : List (Option ℕ))
    → holds id before ≡ false
    → IsCovered (id ∷ before) after
    → IsCovered before (remove id after)
IsCovered-remove id before after fresh c k h = elim (Bool-cases (same_key id k)) [
  | inl same ↦ absurd (ground (arith, same_key_eq id k same))
  | inr other ↦ holds-remove_other id k after other (IsCovered-weaken id before after c k h)
]

-- A run ends, with the locks that the thread had, and with nothing that was held given up.
pub record IsSafe (f : Thread → Option (Thread × End)) (t : Thread) : Type 0 where
  pub after : Thread
  pub end : End
  pub ends : f t ≡ some (after, end)
  pub owns : after.owned ≡ t.owned
  pub keeps : IsCovered t.held after.held

-- The two ways through `locked`.
module _ (body : Thread → Option (Thread × End)) (id : Option ℕ) (t : Thread) where
  pub locked-again : holds id t.held ≡ true → locked id body t ≡ body (enter id t)
  unfolding locked
  locked-again again = rw again refl

  pub locked-fresh :
      (u : Thread) (end : End)
      → holds id t.held ≡ false
      → holds id t.owned ≡ false
      → body (enter id (take_lock id t)) ≡ some (u, end)
      → locked id body t ≡ some (leave id end u, end)
  unfolding locked enter take_lock close
  locked-fresh u end fresh free e =
      if_false (holds id t.held) (body (enter id t)) _ fresh
      ∙ if_false (holds id t.owned) none _ free
      ∙ ap (λ m. m >>= close id) e

module _ (body : Thread → Option (Thread × End))
    (safe : (t : Thread) → IsCovered t.owned t.held → IsSafe body t) where
  leave-keeps :
      (id : Option ℕ) (end : End) (t u : Thread)
      → holds id t.held ≡ false
      → IsCovered (id ∷ t.held) u.held
      → IsCovered t.held (leave id end u).held
  unfolding leave
  leave-keeps id returned t u fresh c = IsCovered-remove id t.held u.held fresh c
  leave-keeps id raised t u fresh c = IsCovered-weaken id t.held u.held c

  leave-owned :
      (id : Option ℕ) (end : End) (t u : Thread)
      → u.owned ≡ id ∷ t.owned
      → (leave id end u).owned ≡ t.owned
  unfolding leave
  leave-owned id returned t u e = ap (λ l. remove id l) e ∙ remove-cons id t.owned
  leave-owned id raised t u e = ap (λ l. remove id l) e ∙ remove-cons id t.owned

  locked-IsSafe :
      (id : Option ℕ) (t : Thread) → IsCovered t.owned t.held → IsSafe (locked id body) t
  unfolding enter take_lock
  locked-IsSafe id t c = elim (Bool-cases (holds id t.held)) [
    | inl again ↦
        let s = safe (enter id t) c in
        record {
          after = s.after;
          end = s.end;
          ends = locked-again body id t again ∙ s.ends;
          owns = s.owns;
          keeps = s.keeps;
        }
    | inr fresh ↦ elim (Bool-cases (holds id t.owned)) [
      | inl mine ↦ absurd (ground (arith, c id mine))
      | inr free ↦
          let s = safe (enter id (take_lock id t)) (IsCovered-cons id t.owned t.held c) in
          record {
            after = leave id s.end s.after;
            end = s.end;
            ends = locked-fresh body id t s.after s.end fresh free s.ends;
            owns = leave-owned id s.end t s.after s.owns;
            keeps = leave-keeps id s.end t s.after fresh s.keeps;
          }
    ]
  ]

  sync_wrapper-IsSafe :
      (new_zone : Bool) (id : Option ℕ) (t : Thread)
      → IsCovered t.owned t.held
      → IsSafe (sync_wrapper new_zone id body) t
  unfolding sync_wrapper
  sync_wrapper-IsSafe false none t c = record {
    after = t;
    end = raised;
    ends = refl;
    owns = refl;
    keeps = λ k h. h;
  }
  sync_wrapper-IsSafe false (some id) t c =
      let s = locked-IsSafe (some id) t c in
      record { after = s.after; end = s.end; ends = s.ends; owns = s.owns; keeps = s.keeps }
  sync_wrapper-IsSafe true id t c =
      let s = locked-IsSafe id t c in
      record { after = s.after; end = s.end; ends = s.ends; owns = s.owns; keeps = s.keeps }

resume-IsSafe :
    (f next : Thread → Option (Thread × End)) (caught : Bool) (t : Thread)
    → IsSafe f t
    → ((u : Thread) → u.owned ≡ t.owned → IsCovered t.held u.held → IsSafe next u)
    → IsSafe (λ v. f v >>= resume caught next) t
resume-IsSafe f next caught t s n = go caught s.end s.ends
  where
    on : IsSafe next s.after
    on = n s.after s.owns s.keeps

    go : (c : Bool) (end : End) → f t ≡ some (s.after, end) → IsSafe (λ v. f v >>= resume c next) t
    go c returned e = record {
      after = on.after;
      end = on.end;
      ends = ap (λ m. m >>= resume c next) e ∙ unfold resume in on.ends;
      owns = on.owns ∙ s.owns;
      keeps = λ k h. on.keeps k (s.keeps k h);
    }
    go true raised e = record {
      after = on.after;
      end = on.end;
      ends = ap (λ m. m >>= resume true next) e ∙ unfold resume in on.ends;
      owns = on.owns ∙ s.owns;
      keeps = λ k h. on.keeps k (s.keeps k h);
    }
    go false raised e = record {
      after = s.after;
      end = raised;
      ends = ap (λ m. m >>= resume false next) e ∙ unfold resume in refl;
      owns = s.owns;
      keeps = s.keeps;
    }

-- Whatever decorated methods call each other, raise and catch, a thread whose locks are all recorded
-- in ZONE_LOCKS.held never waits for a lock that it has: every run ends, with the locks that it began with,
-- and nothing that was recorded is lost.
pub run-IsSafe : (p : Program) (t : Thread) → IsCovered t.owned t.held → IsSafe (λ u. run p u) t
unfolding run
run-IsSafe return t c = record {
  after = t;
  end = returned;
  ends = refl;
  owns = refl;
  keeps = λ k h. h;
}
run-IsSafe raise t c = record {
  after = t;
  end = raised;
  ends = refl;
  owns = refl;
  keeps = λ k h. h;
}
run-IsSafe (call new_zone caught zone_id body next) t c =
    let within =
      sync_wrapper-IsSafe (λ u. run body u) (λ u d. run-IsSafe body u d) new_zone zone_id t c in
    resume-IsSafe (sync_wrapper new_zone zone_id (λ u. run body u)) (λ u. run next u) caught t
      within
      (λ u same kept.
        run-IsSafe next u (λ k h. kept k (c k (subst (λ l. holds k l ≡ true) same h))))
