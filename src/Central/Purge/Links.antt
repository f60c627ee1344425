-- ===== src/Central/Purge/Links.antt =====
-- What is left when zones are purged.
use mathlib.Core.Path.{subst}
use designate_private.Prelude.{
  ℕ, zero, suc, ◌≡◌, ◌≢◌, refl, sym, ap, ◌∙◌, inl, inr, Bool, true, false, Option, none, some, List,
  [], ◌∷◌, arith, ◌==◌, IsIn, Bool-cases, Option-cases, ==_eq, ==_refl,
}
use designate_private.Central.Purge.{
  Node, find_node, find_parent, walk_up_zones, is_parent, reparent, delete_row, purge_loop,
  purge_zones,
}
use designate_private.Central.Purge.Rows.{
  reparent-member, reparent-keeps, delete_row-member, delete_row-keeps,
}

-- The walk ends at a parent that stays.
walk-survives :
    (dead : List Node) (steps : ℕ) (parent survivor : Option ℕ)
    → walk_up_zones dead steps parent ≡ some survivor
    → find_parent survivor dead ≡ none
unfolding walk_up_zones
walk-survives dead zero parent survivor e = cc
walk-survives dead (suc steps) parent survivor e = elim (Option-cases (find_parent parent dead)) [
  | inl alive ↦
      let same : parent ≡ survivor = ground arith in
      subst (λ p. find_parent p dead ≡ none) same alive
  | inr (z, gone) ↦ walk-survives dead steps z.parent survivor (ground arith)
]

-- Nothing, or the id of a row.
abbrev pub IsRow : List Node → Option ℕ → Type 0
IsRow table none = Unit
IsRow table (some id) = (z : Node) × IsIn z table × (z.id ≡ id)

-- The parent of every row is there.
abbrev pub IsLinked : List Node → Type 0
IsLinked table = (z : Node) → IsIn z table → IsRow table z.parent

find_node_sound :
    (id : ℕ) (dead : List Node) (z : Node) → find_node id dead ≡ some z → IsIn z dead × (z.id ≡ id)
unfolding find_node
find_node_sound id [] z e = absurd (ground arith)
find_node_sound id (y ∷ ys) z e = elim (Bool-cases (y.id == id)) [
  | inl here ↦ (inl (ground arith), ground arith)
  | inr other ↦ let (h, same) = find_node_sound id ys z (ground arith) in (inr h, same)
]

pub find_parent-IsIn :
    (parent : Option ℕ) (dead : List Node) (z : Node)
    → find_parent parent dead ≡ some z
    → IsIn z dead
unfolding find_parent
find_parent-IsIn none dead z e = absurd (ground arith)
find_parent-IsIn (some id) dead z e = (find_node_sound id dead z e).0

module _ (table dead : List Node) (linked : IsLinked table)
    (found : (z : Node) → IsIn z dead → IsIn z table) where
  walk-IsRow :
      (steps : ℕ) (parent survivor : Option ℕ)
      → IsRow table parent
      → walk_up_zones dead steps parent ≡ some survivor
      → IsRow table survivor
  unfolding walk_up_zones
  walk-IsRow zero parent survivor row e = cc
  walk-IsRow (suc steps) parent survivor row e = elim (Option-cases (find_parent parent dead)) [
    | inl alive ↦ subst (IsRow table) (ground arith) row
    | inr (z, gone) ↦
        walk-IsRow steps z.parent survivor
          (linked z (found z (find_parent-IsIn parent dead z gone))) (ground arith)
  ]

find_node-found : (d : Node) (dead : List Node) → IsIn d dead → find_node d.id dead ≢ none
unfolding find_node
find_node-found d [] h = λ e. absurd h
find_node-found d (y ∷ ys) (inl same) = λ e. absurd (ground (arith, ==_refl d.id))
find_node-found d (y ∷ ys) (inr more) = λ e. find_node-found d ys more (ground arith)

dead-is_parent :
    (d : Node) (dead : List Node) (p : Option ℕ)
    → IsIn d dead
    → find_parent p dead ≡ none
    → is_parent d.id p ≡ false
unfolding find_parent is_parent
dead-is_parent d dead none h e = refl
dead-is_parent d dead (some i) h e = elim (Bool-cases (i == d.id)) [
  | inl same ↦
      absurd (find_node-found d dead h (subst (λ j. find_node j dead ≡ none) (==_eq i d.id same) e))
  | inr other ↦ other
]

step-IsRow :
    (id : ℕ) (survivor : Option ℕ) (t : List Node) (p : Option ℕ)
    → IsRow t p
    → is_parent id p ≡ false
    → IsRow (delete_row id (reparent id survivor t)) p
unfolding is_parent
step-IsRow id survivor t none row e = tt
step-IsRow id survivor t (some i) (y, y_in, named) e =
    let (z, z_in, same) = reparent-keeps id survivor t y y_in in
    (z, delete_row-keeps id (reparent id survivor t) z z_in (ground arith), same ∙ named)

step-IsIn :
    (id : ℕ) (survivor : Option ℕ) (t : List Node) (z : Node)
    → IsIn z (delete_row id (reparent id survivor t))
    → ((y : Node) × IsIn y t × (y.id ≡ z.id)) × ((z.id == id) ≡ false)
step-IsIn id survivor t z h =
    let (z_in, apart) = delete_row-member id (reparent id survivor t) z h in
    let (y, y_in, same, how) = reparent-member id survivor t z z_in in ((y, y_in, same), apart)

-- Between two steps: the rows are linked, and what was there and is not dead still is.
record IsSteady (table dead t : List Node) : Type 0 where
  linked : IsLinked t
  alive : (p : Option ℕ) → IsRow table p → find_parent p dead ≡ none → IsRow t p

module _ (table dead : List Node) (linked : IsLinked table)
    (found : (z : Node) → IsIn z dead → IsIn z table) (max_steps : ℕ) where
  step-IsSteady :
      (d : Node) (survivor : Option ℕ) (t : List Node)
      → IsIn d dead
      → walk_up_zones dead max_steps d.parent ≡ some survivor
      → IsSteady table dead t
      → IsSteady table dead (delete_row d.id (reparent d.id survivor t))
  step-IsSteady d survivor t d_in e steady =
      let stays = walk-survives dead max_steps d.parent survivor e in
      let row =
        walk-IsRow table dead linked found max_steps d.parent survivor (linked d (found d d_in))
          e in
      let alive' = λ (p : Option ℕ) (r : IsRow table p) (live : find_parent p dead ≡ none).
        step-IsRow d.id survivor t p (steady.alive p r live) (dead-is_parent d dead p d_in live) in
      record {
        linked = λ z h.
            let (z_in, apart) = delete_row-member d.id (reparent d.id survivor t) z h in
            let (y, y_in, same, how) = reparent-member d.id survivor t z z_in in
            elim how [
              | inl moved ↦
                  subst (IsRow (delete_row d.id (reparent d.id survivor t))) (sym moved)
                    (alive' survivor row stays)
              | inr (kept, other) ↦
                  step-IsRow d.id survivor t z.parent
                    (subst (IsRow t) (sym kept) (steady.linked y y_in)) other
            ];
        alive = alive';
      }

  loop-IsSteady :
      (ds t table' : List Node)
      → ((z : Node) → IsIn z ds → IsIn z dead)
      → purge_loop max_steps dead ds t ≡ (table', true)
      → IsSteady table dead t
      → IsSteady table dead table'
  unfolding purge_loop
  loop-IsSteady [] t table' sub e steady =
      subst (IsSteady table dead) (ap (λ (r : List Node × Bool). r.0) e) steady
  loop-IsSteady (d ∷ ds) t table' sub e steady =
      elim (Option-cases (walk_up_zones dead max_steps d.parent)) [
        | inl loops ↦ absurd (ground arith)
        | inr (survivor, walked) ↦
            loop-IsSteady ds (delete_row d.id (reparent d.id survivor t)) table'
              (λ z h. sub z (inr h)) (ground arith)
              (step-IsSteady d survivor t (sub d (inl refl)) walked steady)
      ]

  loop-ids :
      (ds t table' : List Node)
      → purge_loop max_steps dead ds t ≡ (table', true)
      → (z : Node) → IsIn z table'
      → (y : Node) × IsIn y t × (y.id ≡ z.id)
  unfolding purge_loop
  loop-ids [] t table' e z h =
      (z, subst (IsIn z) (sym (ap (λ (r : List Node × Bool). r.0) e)) h, refl)
  loop-ids (d ∷ ds) t table' e z h = elim (Option-cases (walk_up_zones dead max_steps d.parent)) [
    | inl loops ↦ absurd (ground arith)
    | inr (survivor, walked) ↦
        let (y, y_in, same) =
          loop-ids ds (delete_row d.id (reparent d.id survivor t)) table' (ground arith) z h in
        let ((x, x_in, also), apart) = step-IsIn d.id survivor t y y_in in (x, x_in, also ∙ same)
  ]

  loop-gone :
      (ds t table' : List Node)
      → purge_loop max_steps dead ds t ≡ (table', true)
      → (d z : Node) → IsIn d ds
      → IsIn z table'
      → (z.id == d.id) ≡ false
  unfolding purge_loop
  loop-gone [] t table' e d z d_in h = absurd d_in
  loop-gone (c ∷ ds) t table' e d z d_in h =
      elim (Option-cases (walk_up_zones dead max_steps c.parent)) [
        | inl loops ↦ absurd (ground arith)
        | inr (survivor, walked) ↦ elim d_in [
          | inl head ↦
              let (y, y_in, same) =
                loop-ids ds (delete_row c.id (reparent c.id survivor t)) table' (ground arith) z
                  h in
              let (was, apart) = step-IsIn c.id survivor t y y_in in ground arith
          | inr more ↦
              loop-gone ds (delete_row c.id (reparent c.id survivor t)) table' (ground arith) d z
                more h
        ]
      ]

-- A purge that comes to its end.
pub record IsPurged (table dead table' : List Node) : Type 0 where
  pub linked : IsLinked table'
  pub kept : (z : Node) → IsIn z table → find_node z.id dead ≡ none → IsRow table' (some z.id)
  pub gone : (d z : Node) → IsIn d dead → IsIn z table' → (z.id == d.id) ≡ false

pub ended-IsPurged :
    (max_steps : ℕ) (dead table table' : List Node)
    → IsLinked table
    → ((z : Node) → IsIn z dead → IsIn z table)
    → purge_zones max_steps dead table ≡ (table', true)
    → IsPurged table dead table'
unfolding purge_zones
ended-IsPurged max_steps dead table table' linked found e =
    let steady =
      loop-IsSteady table dead linked found max_steps dead table table' (λ z h. h) e
        (record { linked = linked; alive = λ p row live. row }) in
    record {
      linked = steady.linked;
      kept = λ z h live. steady.alive (some z.id) (z, h, refl) (unfold find_parent in live);
      gone =
          λ d z d_in h. loop-gone table dead linked found max_steps dead table table' e d z d_in h;
    }
