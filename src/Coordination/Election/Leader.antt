-- ===== src/Coordination/Election/Leader.antt =====
-- Who leads, and who was told.
use mathlib.Core.Path.{subst}
use designate_private.Prelude.{
  ℕ, zero, suc, ◌<◌, ◌&&◌, if◌then◌else◌, Bool, true, false, some, List, [], ◌∷◌, ◌++◌, ◌≡◌, ◌⊎◌,
  inl, inr, refl, sym, arith,
}
use designate_private.Coordination.Election.{
  Election, init, start, stop, start_with, done, hook_not_found, stand_down, unwatch_election,
  stop_with, trigger, on_elected_leader, watch_elected_as_leader, remove, unwatch_elected_as_leader,
  Step, Reach,
}

abbrev pub IsIn : ℕ → List ℕ → Type 0
IsIn c [] = ⊥
IsIn c (d ∷ ds) = (d ≡ c) ⊎ IsIn c ds

pub record IsSound (coordinator : Bool) (e : Election) : Type 0 where
  pub same_coordinator : e.coordinator ≡ coordinator
  -- Only a started node leads.
  pub leader_started : e.leader ≡ true → e.started ≡ true
  -- The coordinator has one hook for a node that is started, and none otherwise.
  pub one_hook : e.hooks ≡ (if coordinator && e.started then 1 else 0)
  -- With no coordinator a node leads exactly while it is started.
  pub alone : coordinator ≡ false → e.leader ≡ e.started
  -- While the node leads, each registered callback has been called.
  pub told : e.leader ≡ true → (c : ℕ) → IsIn c e.callbacks → IsIn c e.called

IsIn-append_left : (c : ℕ) (xs ys : List ℕ) → IsIn c xs → IsIn c (xs ++ ys)
IsIn-append_left c (x ∷ xs) ys (inl e) = inl e
IsIn-append_left c (x ∷ xs) ys (inr m) = inr (IsIn-append_left c xs ys m)
IsIn-append_left c [] ys m = absurd m

IsIn-append_right : (c : ℕ) (xs ys : List ℕ) → IsIn c ys → IsIn c (xs ++ ys)
IsIn-append_right c [] ys m = m
IsIn-append_right c (x ∷ xs) ys m = inr (IsIn-append_right c xs ys m)

IsIn-append : (c : ℕ) (xs ys : List ℕ) → IsIn c (xs ++ ys) → IsIn c xs ⊎ IsIn c ys
IsIn-append c [] ys m = inr m
IsIn-append c (x ∷ xs) ys (inl e) = inl (inl e)
IsIn-append c (x ∷ xs) ys (inr m) = elim (IsIn-append c xs ys m) [
  | inl l ↦ inl (inr l)
  | inr r ↦ inr r
]

-- What a callback list and a call list share is kept when one callback is added to both.
IsIn-snoc_both :
    (c d : ℕ) (xs ys : List ℕ)
    → ((b : ℕ) → IsIn b xs → IsIn b ys)
    → IsIn d (xs ++ c ∷ [])
    → IsIn d (ys ++ c ∷ [])
IsIn-snoc_both c d xs ys h m = elim (IsIn-append d xs (c ∷ []) m) [
  | inl l ↦ IsIn-append_left d ys (c ∷ []) (h d l)
  | inr r ↦ IsIn-append_right d ys (c ∷ []) r
]

remove_cases :
    (c x : ℕ) (xs ys : List ℕ)
    → remove c (x ∷ xs) ≡ some ys
    → (xs ≡ ys) ⊎ ((l : List ℕ) × (remove c xs ≡ some l) × (x ∷ l ≡ ys))
unfolding remove
remove_cases c x xs ys e = ground arith

IsIn-remove : (c d : ℕ) (xs ys : List ℕ) → remove c xs ≡ some ys → IsIn d ys → IsIn d xs
unfolding remove
IsIn-remove c d [] ys e m = cc
IsIn-remove c d (x ∷ xs) ys e m = elim (remove_cases c x xs ys e) [
  | inl h ↦ inr (subst (IsIn d) (sym h) m)
  | inr (l, r, h) ↦ later l r (subst (IsIn d) (sym h) m) (IsIn-remove c d xs l r)
]
  where
    later :
        (l : List ℕ)
        → remove c xs ≡ some l
        → IsIn d (x ∷ l)
        → (IsIn d l → IsIn d xs)
        → IsIn d (x ∷ xs)
    later l r (inl same) rest = inl same
    later l r (inr m') rest = inr (rest m')

unwatch_inv :
    (c : ℕ) (e e' : Election)
    → unwatch_elected_as_leader c e ≡ some e'
    → (l : List ℕ) × (remove c e.callbacks ≡ some l) × (record e { callbacks = l } ≡ e')
unfolding unwatch_elected_as_leader
unwatch_inv c e e' u = ground arith

if_false : (b : Bool) → zero ≡ (if b && false then suc zero else zero)
if_false true = refl
if_false false = refl

IsSound-init : (coordinator : Bool) → IsSound coordinator (init coordinator)
IsSound-init coordinator = record {
  same_coordinator = refl;
  leader_started = λ h. cc;
  one_hook = if_false (coordinator);
  alone = λ h. refl;
  told = λ h c m. absurd m;
}

-- A node that is not started, with no hook left.
abbrev off : Election → Election
off e = record e { started = false; hooks = 0 }

done-injective : (a b : Election) → done a ≡ done b → a ≡ b
done-injective a b e = cc

module _ {coordinator : Bool} where
  start_with-IsSound :
      (b : Bool) (e : Election)
      → e.coordinator ≡ b
      → e.started ≡ false
      → IsSound coordinator e
      → IsSound coordinator (start_with b e)
  unfolding start_with
  start_with-IsSound true e h off s = record {
    same_coordinator = s.same_coordinator;
    leader_started = λ _. refl;
    one_hook = ground (arith, s.one_hook, s.same_coordinator);
    alone = λ a. cc (s.same_coordinator);
    told = s.told;
  }
  start_with-IsSound false e h off s = record {
    same_coordinator = s.same_coordinator;
    leader_started = λ _. refl;
    one_hook = ground (arith, s.one_hook, s.same_coordinator);
    alone = λ _. refl;
    told = λ _ c m. IsIn-append_right c e.called e.callbacks m;
  }

  off-IsSound :
      (e : Election) → e.leader ≡ false → IsSound coordinator e → IsSound coordinator (off e)
  off-IsSound e l s = record {
    same_coordinator = s.same_coordinator;
    leader_started = λ x. cc;
    one_hook = if_false coordinator;
    alone = λ _. l;
    told = s.told;
  }

  stand_down-IsSound :
      (b : Bool) (e : Election)
      → e.leader ≡ b
      → IsSound coordinator e
      → IsSound coordinator (stand_down b (off e))
  unfolding stand_down
  stand_down-IsSound true e l s = record {
    same_coordinator = s.same_coordinator;
    leader_started = λ x. cc;
    one_hook = if_false coordinator;
    alone = λ _. refl;
    told = λ x. cc;
  }
  stand_down-IsSound false e l s = off-IsSound e l s

  -- A node with no hook and a coordinator is not started, so it does not lead.
  unhooked-IsSound :
      (e : Election)
      → e.coordinator ≡ true
      → e.hooks ≡ 0
      → IsSound coordinator e
      → IsSound coordinator (record e { started = false })
  unhooked-IsSound e h none_left s =
      subst (λ n. IsSound coordinator (record e { started = false; hooks = n })) (sym none_left)
        (off-IsSound e (ground (arith, s.leader_started, s.one_hook, s.same_coordinator)) s)

  unwatch_election-IsSound :
      (n : ℕ) (e e' : Election)
      → e.coordinator ≡ true
      → e.hooks ≡ n
      → IsSound coordinator e
      → (unwatch_election n e.leader e ≡ done e')
        ⊎ (unwatch_election n e.leader e ≡ hook_not_found e')
      → IsSound coordinator e'
  unfolding unwatch_election
  unwatch_election-IsSound zero e e' h k s (inl r) = cc
  unwatch_election-IsSound zero e e' h k s (inr r) =
      subst (IsSound coordinator) (ground arith) (unhooked-IsSound e h k s)
  unwatch_election-IsSound (suc left) e e' h k s (inl r) =
      let last : left ≡ 0 = ground (arith, s.one_hook) in
      subst (IsSound coordinator) (done-injective _ _ r) (
        subst
          (λ n. IsSound coordinator (stand_down e.leader (record e { started = false; hooks = n })))
          (sym last) (stand_down-IsSound e.leader e refl s))
  unwatch_election-IsSound (suc left) e e' h k s (inr r) = cc

  stop_with-IsSound :
      (b : Bool) (e e' : Election)
      → e.coordinator ≡ b
      → IsSound coordinator e
      → (stop_with b e ≡ done e') ⊎ (stop_with b e ≡ hook_not_found e')
      → IsSound coordinator e'
  unfolding stop_with
  stop_with-IsSound true e e' h s r = unwatch_election-IsSound e.hooks e e' h refl s r
  stop_with-IsSound false e e' h s (inl r) =
      subst (IsSound coordinator) (done-injective _ _ r) (record {
        same_coordinator = s.same_coordinator;
        leader_started = λ x. cc;
        one_hook = ground (arith, s.one_hook, s.same_coordinator);
        alone = λ _. refl;
        told = λ x. cc;
      })
  stop_with-IsSound false e e' h s (inr r) = cc

  elected-IsSound :
      (e : Election)
      → 0 < e.hooks
      → IsSound coordinator e
      → IsSound coordinator (on_elected_leader e)
  unfolding on_elected_leader
  elected-IsSound e hooked s =
      let on : e.started ≡ true = ground (arith, s.one_hook) in
      record {
        same_coordinator = s.same_coordinator;
        leader_started = λ _. on;
        one_hook = s.one_hook;
        alone = λ _. sym on;
        told = λ _ c m. IsIn-append_right c e.called e.callbacks m;
      }

  trigger-IsSound :
      (b : Bool) (c : ℕ) (e : Election)
      → IsSound coordinator e
      → (b ≡ false → e.leader ≡ false)
      → IsSound coordinator (trigger b c (record e { callbacks = e.callbacks ++ c ∷ [] }))
  unfolding trigger
  trigger-IsSound true c e s off = record {
    same_coordinator = s.same_coordinator;
    leader_started = s.leader_started;
    one_hook = s.one_hook;
    alone = s.alone;
    told = λ h d m. IsIn-snoc_both c d e.callbacks e.called (s.told h) m;
  }
  trigger-IsSound false c e s off = record {
    same_coordinator = s.same_coordinator;
    leader_started = s.leader_started;
    one_hook = s.one_hook;
    alone = s.alone;
    told = λ h d m. cc (off refl);
  }

  watched-IsSound :
      (c : ℕ) (e : Election)
      → IsSound coordinator e
      → IsSound coordinator (watch_elected_as_leader c e)
  unfolding watch_elected_as_leader
  watched-IsSound c e s = trigger-IsSound _ c e s (λ off. ground (arith, s.leader_started))

  unwatched-IsSound :
      (c : ℕ) (e e' : Election)
      → unwatch_elected_as_leader c e ≡ some e'
      → IsSound coordinator e
      → IsSound coordinator e'
  unwatched-IsSound c e e' u s =
      let (l, r, same) = unwatch_inv c e e' u in
      subst (IsSound coordinator) same (record {
        same_coordinator = s.same_coordinator;
        leader_started = s.leader_started;
        one_hook = s.one_hook;
        alone = s.alone;
        told = λ h d m. s.told h d (IsIn-remove c d e.callbacks l r m);
      })

  Step-IsSound : {e f : Election} → Step e f → IsSound coordinator e → IsSound coordinator f
  unfolding start stop
  Step-IsSound (Step.started e off) s = start_with-IsSound e.coordinator e refl off s
  Step-IsSound (Step.stopped e e' r) s = stop_with-IsSound e.coordinator e e' refl s (inl r)
  Step-IsSound (Step.not_stopped e e' r) s = stop_with-IsSound e.coordinator e e' refl s (inr r)
  Step-IsSound (Step.elected e w) s = elected-IsSound e w s
  Step-IsSound (Step.watched c e) s = watched-IsSound c e s
  Step-IsSound (Step.unwatched c e e' u) s = unwatched-IsSound c e e' u s

-- Whatever happens to an election that is started only while it is not started: the methods are called
-- in any order otherwise, and a coordinator that has a hook for the node elects it. Then only a started
-- node leads; the coordinator, if there is one, has one hook for a started node and none for another,
-- so no node is elected once it is stopped; without a coordinator a node leads exactly while it is
-- started; and while it leads, each callback that is registered has been called.
pub Reach-IsSound :
    (coordinator : Bool) {e : Election} → Reach (init coordinator) e → IsSound coordinator e
Reach-IsSound coordinator Reach.here = IsSound-init coordinator
Reach-IsSound coordinator (Reach.next r st) = Step-IsSound st (Reach-IsSound coordinator r)
