-- ===== src/Coordination/Partitioner/Watching/Told.antt =====
-- What a callback was told last is not out of date.
use designate_private.Prelude.{
  ℕ, ◌≡◌, ◌⊎◌, inl, inr, refl, sym, ◌∙◌, Bool, true, false, Bool-cases, Option, none, some, List,
  [], ◌∷◌, ◌++◌, ◌==◌, ==_refl, if◌then◌else◌, All,
}
use designate_private.Coordination.Partitioner.{Share, ok, err, update_partitions}
use designate_private.Coordination.Partitioner.Watching.{
  Partitioner, run_callbacks, change_share, start_share, start, on_group_change,
  watch_partition_change, remove, unwatch_partition_change, Step, starts, changes, watches,
  unwatches, Reach, begins, then_step,
}

All-snoc {ℓ} : (P : ℕ → Type ℓ) (cbs : List ℕ) (cb : ℕ) → All P cbs → P cb → All P (cbs ++ cb ∷ [])
All-snoc P [] cb h k = (k, tt)
All-snoc P (c ∷ cbs) cb h k = (h.0, All-snoc P cbs cb h.1 k)

All-remove {ℓ} : (P : ℕ → Type ℓ) (cb : ℕ) (cbs : List ℕ) → All P cbs → All P (remove cb cbs)
unfolding remove
All-remove P cb [] h = tt
All-remove P cb (c ∷ cbs) h = elim (Bool-cases (c == cb)) [
  | inl e ↦ rw e (h.1)
  | inr e ↦ rw e (h.0, All-remove P cb cbs h.1)
]

module _ {ℓ} {A : Type ℓ} where
  -- What a callback was told last.
  unfoldable pub latest : ℕ → List (ℕ × Option (List A)) → Option (Option (List A))
  latest cb [] = none
  latest cb ((c, mine) ∷ calls) =
      let earlier = latest cb calls in if c == cb then some mine else earlier

  abbrev pub IsCurrent : Option (List A) → List (ℕ × Option (List A)) → ℕ → Type ℓ
  IsCurrent mine calls cb = (latest cb calls ≡ none) ⊎ (latest cb calls ≡ some mine)

  abbrev pub AreCurrent : Partitioner A → Type ℓ
  AreCurrent p = All (IsCurrent (p.my_partitions) (p.calls)) (p.callbacks)

  -- One more call with the same partitions keeps it so.
  IsCurrent-call :
      (mine : Option (List A)) (calls : List (ℕ × Option (List A))) (c cb : ℕ)
      → IsCurrent mine calls cb
      → IsCurrent mine ((c, mine) ∷ calls) cb
  unfolding latest
  IsCurrent-call mine calls c cb h = elim (Bool-cases (c == cb)) [
    | inl e ↦ inr (rw e refl)
    | inr e ↦ rw e h
  ]

  latest-run_callbacks :
      (mine : Option (List A)) (cbs : List ℕ) (calls : List (ℕ × Option (List A))) (cb : ℕ)
      → latest cb calls ≡ some mine
      → latest cb (run_callbacks cbs mine calls) ≡ some mine
  unfolding run_callbacks latest
  latest-run_callbacks mine [] calls cb h = h
  latest-run_callbacks mine (c ∷ cbs) calls cb h =
      latest-run_callbacks mine cbs ((c, mine) ∷ calls) cb
        (elim (Bool-cases (c == cb)) [ inl e ↦ rw e refl | inr e ↦ rw e h ])

  run_callbacks-IsCurrent :
      (mine : Option (List A)) (cbs : List ℕ) (calls : List (ℕ × Option (List A)))
      → All (IsCurrent mine (run_callbacks cbs mine calls)) cbs
  unfolding run_callbacks latest
  run_callbacks-IsCurrent mine [] calls = tt
  run_callbacks-IsCurrent mine (c ∷ cbs) calls = (
    inr (latest-run_callbacks mine cbs ((c, mine) ∷ calls) c (rw (==_refl c) refl)),
    run_callbacks-IsCurrent mine cbs ((c, mine) ∷ calls),
  )

  -- Nothing is told before the start.
  abbrev IsQuiet : Partitioner A → Type ℓ
  IsQuiet p = (p.started ≡ true) ⊎ (p.calls ≡ [])

  never_told : (mine : Option (List A)) (cbs : List ℕ) → All (IsCurrent mine []) cbs
  unfolding latest
  never_told mine [] = tt
  never_told mine (c ∷ cbs) = (inl refl, never_told mine cbs)

  one_more :
      (mine : Option (List A)) (calls : List (ℕ × Option (List A))) (c : ℕ) (cbs : List ℕ)
      → All (IsCurrent mine calls) cbs
      → All (IsCurrent mine ((c, mine) ∷ calls)) cbs
  one_more mine calls c [] h = tt
  one_more mine calls c (cb ∷ cbs) h =
      (IsCurrent-call mine calls c cb h.0, one_more mine calls c cbs h.1)

  quiet_calls : (p : Partitioner A) → p.started ≡ false → IsQuiet p → p.calls ≡ []
  quiet_calls p e (inl h) = absurd (let i : true ≡ false = sym h ∙ e in cc)
  quiet_calls p e (inr h) = h

  watch_current :
      (cb : ℕ) (p : Partitioner A)
      → AreCurrent p
      → IsQuiet p
      → AreCurrent (watch_partition_change cb p) × IsQuiet (watch_partition_change cb p)
  unfolding watch_partition_change latest
  watch_current cb p h q = elim (Bool-cases (p.started)) [
    | inl e ↦ rw e (
      All-snoc _ (p.callbacks) cb (one_more (p.my_partitions) (p.calls) cb (p.callbacks) h)
          (inr (rw (==_refl cb) refl)),
      inl refl,
    )
    | inr e ↦
        rw (e, quiet_calls p e q)
          (
            All-snoc _ (p.callbacks) cb (never_told (p.my_partitions) (p.callbacks)) (inl refl),
            inr refl,
          )
  ]

  share_current :
      (share : Share A) (p : Partitioner A)
      → p.calls ≡ []
      → AreCurrent p
      → IsQuiet p
      → AreCurrent (start_share share p) × IsQuiet (start_share share p)
  share_current (ok mine) p c h q = (rw c (never_told (some mine) (p.callbacks)), inl refl)
  share_current (err e) p c h q = (h, q)

  change_current :
      (share : Share A) (p : Partitioner A)
      → AreCurrent p
      → IsQuiet p
      → p.started ≡ true
      → AreCurrent (change_share share p) × IsQuiet (change_share share p)
  unfolding change_share
  change_current (ok mine) p h q e =
      (run_callbacks-IsCurrent (some mine) (p.callbacks) (p.calls), inl e)
  change_current (err x) p h q e = (h, q)

  start_current :
      (coordinator : Bool) (members : List ℕ) (my_id : ℕ) (partitions : List A) (p : Partitioner A)
      → p.started ≡ false
      → AreCurrent p
      → IsQuiet p
      → AreCurrent (start coordinator members my_id partitions p)
        × IsQuiet (start coordinator members my_id partitions p)
  unfolding start
  start_current false members my_id partitions p e h q =
      (run_callbacks-IsCurrent (some partitions) (p.callbacks) (p.calls), inl refl)
  start_current true members my_id partitions p e h q =
      share_current ((update_partitions members my_id partitions).1) p (quiet_calls p e q) h q

  Step-AreCurrent :
      (my_id : ℕ) (partitions : List A) (p q : Partitioner A)
      → Step my_id partitions p q
      → AreCurrent p
      → IsQuiet p
      → AreCurrent q × IsQuiet q
  unfolding on_group_change unwatch_partition_change
  Step-AreCurrent my_id partitions _ _ (starts coordinator members p e) h k =
      start_current coordinator members my_id partitions p e h k
  Step-AreCurrent my_id partitions _ _ (changes members p e) h k =
      change_current ((update_partitions members my_id partitions).1) p h k e
  Step-AreCurrent my_id partitions _ _ (watches cb p) h k = watch_current cb p h k
  Step-AreCurrent my_id partitions _ _ (unwatches cb p) h k =
      (All-remove (IsCurrent (p.my_partitions) (p.calls)) cb (p.callbacks) h, k)

  Reach-IsQuiet :
      (my_id : ℕ) (partitions : List A) (p : Partitioner A)
      → Reach my_id partitions p
      → AreCurrent p × IsQuiet p
  Reach-IsQuiet my_id partitions _ begins = (tt, inr refl)
  Reach-IsQuiet my_id partitions _ (then_step p q r s) =
      let (h, k) = Reach-IsQuiet my_id partitions p r in Step-AreCurrent my_id partitions p q s h k

-- Whatever happens to a partitioner that is started once, a callback that it has was never told
-- anything, or what it was told last are the partitions that this member has now.
pub Reach-AreCurrent {ℓ} :
    {A : Type ℓ} (my_id : ℕ) (partitions : List A) (p : Partitioner A)
    → Reach my_id partitions p
    → AreCurrent p
Reach-AreCurrent my_id partitions p r = (Reach-IsQuiet my_id partitions p r).0
