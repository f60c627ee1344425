-- ===== src/Prelude/Words.antt =====
-- Python's str methods with a separator: split(c), split(c, 1), strip(c), startswith and `in`.
use designate_private.Prelude.{
  ℕ, ◌≡◌, ◌≢◌, refl, Bool, true, false, ◌&&◌, ◌||◌, Option, some, none, List, [], ◌∷◌, ◌++◌, ◌==◌,
  if◌then◌else◌, All, arith,
}
use designate_private.Prelude.Texts.{Text}

abbrev pub contains_code : ℕ → Text → Bool
contains_code c [] = false
contains_code c (d ∷ t) = let rest = contains_code c t in if d == c then true else rest

-- s.startswith(t)
abbrev pub starts_with : Text → Text → Bool
starts_with s [] = true
starts_with [] (d ∷ t) = false
starts_with (c ∷ s) (d ∷ t) = (c == d) && starts_with s t

-- s.split(c, 1), where the separator is there: what stands before it and after it.
unfoldable pub cut : ℕ → Text → Option (Text × Text)
cut c [] = none
cut c (d ∷ t) =
    let rest = cut c t in
    if d == c then some ([], t) else (elim rest [ none ↦ none | some (a, b) ↦ some (d ∷ a, b) ])

abbrev push : ℕ → List Text → List Text
push d [] = (d ∷ []) ∷ []
push d (w ∷ ws) = (d ∷ w) ∷ ws

-- s.split(c)
unfoldable pub split_on : ℕ → Text → List Text
split_on c [] = [] ∷ []
split_on c (d ∷ t) = let rest = split_on c t in if d == c then [] ∷ rest else push d rest

abbrev is_empty : Text → Bool
is_empty [] = true
is_empty (d ∷ t) = false

-- s.lstrip(c), s.rstrip(c) and s.strip(c)
unfoldable pub trim_left : ℕ → Text → Text
trim_left c [] = []
trim_left c (d ∷ t) = let rest = trim_left c t in if d == c then rest else d ∷ t

unfoldable pub trim_right : ℕ → Text → Text
trim_right c [] = []
trim_right c (d ∷ t) =
    let rest = trim_right c t in if (d == c) && is_empty rest then [] else d ∷ rest

unfoldable pub trim : ℕ → Text → Text
unfolding trim_left trim_right
trim c t = trim_left c (trim_right c t)

-- The text has no such code.
abbrev pub IsFree : ℕ → Text → Type 0
IsFree c = All (λ d. d ≢ c)

pub contains_code-append :
    (c : ℕ) (s t : Text) → contains_code c (s ++ t) ≡ (contains_code c s || contains_code c t)
contains_code-append c [] t = refl
contains_code-append c (d ∷ s) t = ground (arith, contains_code-append c s t)

pub contains_code_free : (c : ℕ) (t : Text) → IsFree c t → contains_code c t ≡ false
contains_code_free c [] h = refl
contains_code_free c (d ∷ t) h = ground (arith, contains_code_free c t h.1)

pub cut_free : (c : ℕ) (s t : Text) → IsFree c s → cut c (s ++ c ∷ t) ≡ some (s, t)
unfolding cut
cut_free c [] t h = ground arith
cut_free c (d ∷ s) t h = ground (arith, cut_free c s t h.1)

pub split_on_free : (c : ℕ) (t : Text) → IsFree c t → split_on c t ≡ t ∷ []
unfolding split_on
split_on_free c [] h = refl
split_on_free c (d ∷ t) h = ground (arith, split_on_free c t h.1)

pub split_on-append : (c : ℕ) (s t : Text) → IsFree c s → split_on c (s ++ c ∷ t) ≡ s ∷ split_on c t
unfolding split_on
split_on-append c [] t h = ground arith
split_on-append c (d ∷ s) t h = ground (arith, split_on-append c s t h.1)

trim_right_free : (c : ℕ) (t : Text) → IsFree c t → trim_right c t ≡ t
unfolding trim_right
trim_right_free c [] h = refl
trim_right_free c (d ∷ t) h = ground (arith, trim_right_free c t h.1)

trim_left_free : (c : ℕ) (t : Text) → IsFree c t → trim_left c t ≡ t
unfolding trim_left
trim_left_free c [] h = refl
trim_left_free c (d ∷ t) h = ground arith

pub trim_free : (c : ℕ) (t : Text) → IsFree c t → trim c t ≡ t
unfolding trim
trim_free c t h = rw (trim_right_free c t h) (trim_left_free c t h)

-- A text whose first and last codes stay.
pub trim_between :
    (c d : ℕ) (s t : Text) → IsFree c s → IsFree c t → d ≢ c → trim c (s ++ d ∷ t) ≡ s ++ d ∷ t
trim_between c d s t h k n = trim_free c (s ++ d ∷ t) (join_free s h)
  where
    join_free : (u : Text) → IsFree c u → IsFree c (u ++ d ∷ t)
    join_free [] g = (n, k)
    join_free (e ∷ u) g = (g.0, join_free u g.1)
