-- ===== src/Central/Checks/ZoneNames/Closest.antt =====
-- _is_subzone finds the closest enclosing zone.
use mathlib.Core.Path.{subst}
use designate_private.Prelude.{
  Option-cases, ℕ, ◌<◌, ◌≤◌, ◌≡◌, ◌≢◌, refl, sym, ap, ◌∙◌, inl, inr, ◌↔◌, Bool, true, Option, some,
  List, [], ◌∷◌, ◌++◌, arith, count, length, length-append, IsIn, Bool-cases,
}
use designate_private.Prelude.Texts.{
  Text, text_eq_iff, split, join, dot, split-ne-nil, join-split, split-append, join-append,
}
use designate_private.Central.Checks.{ZoneRow}
use designate_private.Central.Checks.ZoneNames.{is_named, find_one, search_labels, tail, is_subzone}

-- `name` lies below the zone name `outer`.
abbrev pub Encloses : Text → Text → Type 0
Encloses outer name = (p : Text) × (name ≡ p ++ dot ∷ outer)

-- The table's constraint: no two zones of a pool have one name.
abbrev pub HasUniqueNames : ℕ → List ZoneRow → Type 0
HasUniqueNames pool_id zones = (name : Text) → count (is_named name pool_id) zones ≤ 1

pub count-pos :
    (p : ZoneRow → Bool) (zs : List ZoneRow) (z : ZoneRow) → IsIn z zs → p z ≡ true → 0 < count p zs
count-pos p [] z h e = absurd h
count-pos p (y ∷ zs) z (inl same) e = ground arith
count-pos p (y ∷ zs) z (inr more) e = ground (arith, count-pos p zs z more e)

find_one_sound :
    (p : ZoneRow → Bool) (zs : List ZoneRow) (z : ZoneRow)
    → find_one p zs ≡ some z
    → IsIn z zs × (p z ≡ true)
unfolding find_one
find_one_sound p [] z e = absurd (ground arith)
find_one_sound p (y ∷ zs) z e = elim (Bool-cases (p y)) [
  | inl chosen ↦ (inl (ground arith), ground arith)
  | inr passed ↦ let (found, good) = find_one_sound p zs z (ground arith) in (inr found, good)
]

find_one_complete :
    (p : ZoneRow → Bool) (zs : List ZoneRow) (z : ZoneRow)
    → count p zs ≤ 1
    → IsIn z zs
    → p z ≡ true
    → find_one p zs ≡ some z
unfolding find_one
find_one_complete p [] z u h e = absurd h
find_one_complete p (y ∷ zs) z u (inl same) e = ground arith
find_one_complete p (y ∷ zs) z u (inr more) e =
    ground (arith, count-pos p zs z more e, find_one_complete p zs z)

pub is_named_iff :
    (name : Text) (pool_id : ℕ) (z : ZoneRow)
    → is_named name pool_id z ≡ true ↔ ((z.name ≡ name) × (z.pool_id ≡ pool_id))
is_named_iff name pool_id z = (
  λ e. (ground (arith, (text_eq_iff z.name name).0), ground arith),
  λ e. ground (arith, (text_eq_iff z.name name).1),
)

length-join_suffix :
    (pre suf : List Text) → suf ≢ [] → length (join suf) ≤ length (join (pre ++ suf))
length-join_suffix [] suf h = omega arith
length-join_suffix (l ∷ pre) suf h =
    rw (join-append (l ∷ pre) suf (λ e. cc) h)
      (omega (arith, length-append (join (l ∷ pre)) (dot ∷ join suf)))

module _ (zones : List ZoneRow) (pool_id : ℕ) where
  search_sound :
      (ls : List Text) (z : ZoneRow)
      → search_labels zones pool_id ls ≡ some z
      → (pre : List Text) × (suf : List Text) × (ls ≡ pre ++ suf)
        × (suf ≢ [])
        × IsIn z zones
        × (z.name ≡ join suf)
        × (z.pool_id ≡ pool_id)
  unfolding search_labels
  search_sound [] z e = absurd (ground arith)
  search_sound (l ∷ ls) z e =
      elim (Option-cases (find_one (is_named (join (l ∷ ls)) pool_id) zones)) [
        | inl missing ↦
            let (pre, suf, at, ne, found, named, pool) = search_sound ls z (ground arith) in
            (l ∷ pre, suf, ap (λ t. l ∷ t) at, ne, found, named, pool)
        | inr (y, here) ↦
            let (found, good) = find_one_sound (is_named (join (l ∷ ls)) pool_id) zones y here in
            let (named, pool) = (is_named_iff (join (l ∷ ls)) pool_id y).0 good in
            let same : y ≡ z = ground arith in
            (
              [],
              l ∷ ls,
              refl,
              λ e. cc,
              subst (λ x. IsIn x zones) same found,
              sym (ap (λ (x : ZoneRow). x.name) same) ∙ named,
              sym (ap (λ (x : ZoneRow). x.pool_id) same) ∙ pool,
            )
      ]

  -- What stands at a suffix is found, unless something at a longer one is.
  search-covers :
      HasUniqueNames pool_id zones
      → (ls pre suf : List Text) (y : ZoneRow) → ls ≡ pre ++ suf
      → suf ≢ []
      → IsIn y zones
      → (y.name ≡ join suf) × (y.pool_id ≡ pool_id)
      → (z : ZoneRow) × (search_labels zones pool_id ls ≡ some z)
        × (length (join suf) ≤ length z.name)
  unfolding search_labels
  search-covers u [] [] suf y at ne member good = absurd (ne (sym at))
  search-covers u [] (m ∷ pre) suf y at ne member good = cc
  search-covers u (l ∷ ls) pre suf y at ne member good =
      elim (Option-cases (find_one (is_named (join (l ∷ ls)) pool_id) zones)) [
        | inl missing ↦
            elim pre as (λ pre. l ∷ ls ≡ pre ++ suf → _) [
              | [] ↦ λ at.
                  let chosen =
                    (is_named_iff (join (l ∷ ls)) pool_id y).1
                      (good.0 ∙ ap (λ t. join t) (sym at), good.1) in
                  absurd (
                    ground (
                      arith,
                      find_one_complete (is_named (join (l ∷ ls)) pool_id) zones y
                          (u (join (l ∷ ls))) member chosen,
                    ))
              | m ∷ pre ↦ λ at.
                  let (z, e, le) = search-covers u ls pre suf y (ground arith) ne member good in
                  (z, ground (arith, e), le)
            ]
              at
        | inr (z, here) ↦
            let (found, yes_named) =
              find_one_sound (is_named (join (l ∷ ls)) pool_id) zones z here in
            let (named, pool) = (is_named_iff (join (l ∷ ls)) pool_id z).0 yes_named in
            (
              z,
              ground arith,
              omega (
                arith,
                length-join_suffix pre suf ne,
                ap (λ t. length (join t)) at,
                ap (λ (t : Text). length t) named,
              ),
            )
      ]

-- What _is_subzone answers.
pub record IsClosest (zones : List ZoneRow) (name : Text) (pool_id : ℕ) (end : Option ZoneRow)
    : Type 0 where
  pub sound :
      (z : ZoneRow) → end ≡ some z → IsIn z zones × (z.pool_id ≡ pool_id) × Encloses z.name name
  pub closest :
      (y : ZoneRow)
      → IsIn y zones
      → y.pool_id ≡ pool_id
      → Encloses y.name name
      → (z : ZoneRow) × (end ≡ some z) × (length y.name ≤ length z.name)

cons-of_ne : (ls : List Text) → ls ≢ [] → (l : Text) × (ls ≡ l ∷ tail ls)
cons-of_ne [] h = absurd (h refl)
cons-of_ne (l ∷ ls) h = (l, refl)

-- Where no two zones of a pool have one name, _is_subzone answers a zone of the pool below which the
-- name lies, and one with the longest name; it answers False only when there is none.
pub is_subzone-IsClosest :
    (zones : List ZoneRow) (name : Text) (pool_id : ℕ)
    → HasUniqueNames pool_id zones
    → IsClosest zones name pool_id (is_subzone zones name pool_id)
unfolding is_subzone
is_subzone-IsClosest zones name pool_id u =
    let (a, labels) = cons-of_ne (split name) (split-ne-nil name) in
    record {
      sound = λ z e.
          let (pre, suf, at, ne, found, named, pool) =
            search_sound zones pool_id (tail (split name)) z e in
          (
            found,
            pool,
            (
              join (a ∷ pre),
              sym (join-split name)
                  ∙ ap (λ t. join t) (labels ∙ ap (λ t. a ∷ t) at)
                  ∙ join-append (a ∷ pre) suf (λ e. cc) ne
                  ∙ ap (λ t. join (a ∷ pre) ++ dot ∷ t) (sym named),
            ),
          );
      closest = λ y member pool (p, below).
          let (b, prefix) = cons-of_ne (split p) (split-ne-nil p) in
          let (z, e, le) =
            search-covers zones pool_id u (tail (split name)) (tail (split p)) (split y.name) y
              (ap tail (
                ap (λ t. split t) below
                ∙ split-append p y.name
                ∙ ap (λ t. t ++ split y.name) prefix))
              (split-ne-nil y.name) member (sym (join-split y.name), pool) in
          (z, e, omega (arith, le, ap (λ (t : Text). length t) (join-split y.name)));
    }
