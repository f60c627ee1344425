-- ===== src/Prelude/Texts.antt =====
-- Text as a list of code points, and Python's str methods that the program calls on DNS names: split
-- and join at a dot, strip, lower, endswith.
use Prim.Native.Char.{code}
use Prim.Native.String.{String}
use Prim.Native.Nat.{compare, Ordering, ℕ, ◌+◌}
use mathlib.Core.Path.{◌≡◌, refl, ap, sym, subst}
use mathlib.Core.Logic.{◌≢◌, ◌↔◌, ◌⊎◌, inl, inr}
use mathlib.Core.Bool.{Bool, true, false, ◌&&◌, ◌||◌}
use mathlib.Core.List.{List, [], ◌∷◌, ◌++◌, map, append_assoc}
use native.Mathlib.Omega.{arith}

abbrev pub Text : Type 0
Text = List ℕ

abbrev pub codes : String → Text
codes String.[] = []
codes (String.◌∷◌ c s) = code c ∷ codes s

abbrev pub dot : ℕ
dot = b'.'

abbrev same_code : ℕ → ℕ → Bool
same_code a b = elim (compare a b) [ Ordering.eq ↦ true | _ ↦ false ]

abbrev choose {ℓ} : {A : Type ℓ} → Bool → A → A → A
choose true x y = x
choose false x y = y

abbrev pub text_eq : Text → Text → Bool
text_eq [] [] = true
text_eq [] (d ∷ t) = false
text_eq (c ∷ s) [] = false
text_eq (c ∷ s) (d ∷ t) = same_code c d && text_eq s t

pub text_eq_iff : (s t : Text) → text_eq s t ≡ true ↔ s ≡ t
text_eq_iff [] [] = (λ _. refl, λ _. refl)
text_eq_iff [] (d ∷ t) = (λ e. cc, λ e. cc)
text_eq_iff (c ∷ s) [] = (λ e. cc, λ e. cc)
text_eq_iff (c ∷ s) (d ∷ t) =
    (λ e. ground (arith, (text_eq_iff s t).0), λ e. ground (arith, (text_eq_iff s t).1))

abbrev add_to_first : ℕ → List Text → List Text
add_to_first c [] = (c ∷ []) ∷ []
add_to_first c (l ∷ ls) = (c ∷ l) ∷ ls

-- s.split('.')
unfoldable pub split : Text → List Text
split [] = [] ∷ []
split (c ∷ s) = let rest = split s in choose (same_code c dot) ([] ∷ rest) (add_to_first c rest)

-- Every label behind a dot.
dotted : List Text → Text
dotted [] = []
dotted (l ∷ ls) = dot ∷ (l ++ dotted ls)

-- '.'.join(labels)
unfoldable pub join : List Text → Text
unfolding dotted
join [] = []
join (l ∷ ls) = l ++ dotted ls

-- s.endswith(t)
unfoldable pub ends_with : Text → Text → Bool
ends_with [] t = text_eq [] t
ends_with (c ∷ s) t = text_eq (c ∷ s) t || ends_with s t

cases : (b : Bool) → (b ≡ true) ⊎ (b ≡ false)
cases true = inl refl
cases false = inr refl

abbrev is_empty : Text → Bool
is_empty [] = true
is_empty (c ∷ s) = false

-- s.lstrip('.'), s.rstrip('.') and s.strip('.')
unfoldable pub lstrip : Text → Text
lstrip [] = []
lstrip (c ∷ s) = let rest = lstrip s in choose (same_code c dot) rest (c ∷ s)

unfoldable pub rstrip : Text → Text
rstrip [] = []
rstrip (c ∷ s) = let rest = rstrip s in choose (same_code c dot && is_empty rest) [] (c ∷ rest)

abbrev pub strip : Text → Text
strip s = lstrip (rstrip s)

-- s.lower() of an ASCII text
unfoldable pub lower : Text → Text
lower s =
    map
      (λ c. elim (compare c b'A') [
        | Ordering.lt ↦ c
        | _ ↦ elim (compare c b'Z') [ Ordering.gt ↦ c | _ ↦ c + 32 ]
      ])
      s

pub split-ne-nil : (s : Text) → split s ≢ []
unfolding split
split-ne-nil [] = λ e. cc
split-ne-nil (c ∷ s) = ground arith

join-add_to_first : (c : ℕ) (ls : List Text) → ls ≢ [] → join (add_to_first c ls) ≡ c ∷ join ls
unfolding join
join-add_to_first c [] h = absurd (h refl)
join-add_to_first c (l ∷ ls) h = refl

join-empty : (ls : List Text) → ls ≢ [] → join ([] ∷ ls) ≡ dot ∷ join ls
unfolding join
join-empty [] h = absurd (h refl)
join-empty (l ∷ ls) h = refl

-- Joining the labels gives the name back.
pub join-split : (s : Text) → join (split s) ≡ s
unfolding split
join-split [] = unfold join in refl
join-split (c ∷ s) =
    ground
      (arith, join-split s, split-ne-nil s, join-empty (split s), join-add_to_first c (split s))

-- The labels of two names with a dot between.
pub split-append : (s t : Text) → split (s ++ dot ∷ t) ≡ split s ++ split t
unfolding split
split-append [] t = refl
split-append (c ∷ s) t = ground (arith, split-append s t, split-ne-nil s)

dotted-append : (ls ms : List Text) → dotted (ls ++ ms) ≡ dotted ls ++ dotted ms
unfolding dotted
dotted-append [] ms = refl
dotted-append (l ∷ ls) ms = simp (dotted-append ls, append_assoc)

pub join-append :
    (ls ms : List Text) → ls ≢ [] → ms ≢ [] → join (ls ++ ms) ≡ join ls ++ dot ∷ join ms
unfolding join dotted
join-append [] ms h k = absurd (h refl)
join-append (l ∷ ls) [] h k = absurd (k refl)
join-append (l ∷ ls) (m ∷ ms) h k = rw (dotted-append, append_assoc) refl

ends_with-prefix : (p t : Text) → ends_with (p ++ t) t ≡ true
unfolding ends_with
ends_with-prefix [] [] = refl
ends_with-prefix [] (d ∷ t) = ground (arith, (text_eq_iff (d ∷ t) (d ∷ t)).1)
ends_with-prefix (c ∷ p) t = ground (arith, ends_with-prefix p t)

prefix-ends_with : (s t : Text) → ends_with s t ≡ true → (p : Text) × (s ≡ p ++ t)
unfolding ends_with
prefix-ends_with [] t e = ([], (text_eq_iff [] t).0 e)
prefix-ends_with (c ∷ s) t e = elim (cases (text_eq (c ∷ s) t)) [
  | inl same ↦ ([], (text_eq_iff (c ∷ s) t).0 same)
  | inr other ↦
      let (p, found) = prefix-ends_with s t (ground arith) in (c ∷ p, ap (λ l. c ∷ l) found)
]

pub ends_with_iff : (s t : Text) → ends_with s t ≡ true ↔ ((p : Text) × (s ≡ p ++ t))
ends_with_iff s t = (
  prefix-ends_with s t,
  λ (p, e). subst (λ u. ends_with u t ≡ true) (sym e) (ends_with-prefix p t),
)
