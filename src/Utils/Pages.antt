-- ===== src/Utils/Pages.antt =====
-- What get_paging_params lets through.
use mathlib.Core.Path.{subst}
use designate_private.Prelude.{
  ℕ, ◌≤◌, ◌<◌, ◌≡◌, refl, ap, sym, ◌∙◌, ==_eq, Bool, true, not, ◌&&◌, Option, none, some, List, [],
  ◌∷◌, ◌==◌, IsIn, arith, ◌⊎◌, inl, inr, Bool-cases,
}
use designate_private.Utils.{
  Limit, falsy, max_word, negative, junk, setting_number, text_number, Direction, Paged, page,
  paging_error, ◌>>=◌, PagingConfig, check_number, pop_limit, check_limit, check_direction, is_key,
  check_key, Paging, get_paging_params,
}

-- A limit that the code lets through as it is: an empty one, the integer 0, or a number up to MAXSIZE.
abbrev pub IsUsable : PagingConfig → Limit → Type 0
IsUsable config limit =
    (limit ≡ falsy)
    ⊎ (limit ≡ setting_number 0)
    ⊎ ((n : ℕ) × ((limit ≡ text_number n) ⊎ (limit ≡ setting_number n))
        × (0 < n)
        × (n ≤ config.maxsize))

-- The limit that is left of the one that was asked for, if one was.
abbrev pub IsLimit : PagingConfig → Option Limit → Limit → Type 0
IsLimit config asked limit =
    ((asked ≡ some max_word) × (limit ≡ setting_number config.max_limit))
    ⊎ (((asked ≡ some limit) ⊎ ((asked ≡ none) × (limit ≡ setting_number config.default_limit)))
        × IsUsable config limit)

-- What it may be sorted by.
abbrev pub IsSortKey : ℕ → Bool → Option (List ℕ) → Option ℕ → Type 0
IsSortKey tenant all_tenants keys none = Unit
IsSortKey tenant all_tenants none (some key) = ⊥
IsSortKey tenant all_tenants (some keys) (some key) =
    IsIn key keys × (key ≡ tenant → all_tenants ≡ true)

page-injective {ℓ} : {A : Type ℓ} (a b : A) → page a ≡ page b → a ≡ b
page-injective a b e = cc

-- Three checks that pass.
all-page :
    {A B C : Type 0} (a : Paged A) (b : Paged (Unit {0})) (c : Paged B) (f : A → B → C) (p : C)
    → (a >>= λ x. b >>= λ _. c >>= λ y. page (f x y)) ≡ page p
    → (x : A) × (y : B) × (a ≡ page x) × (c ≡ page y) × (f x y ≡ p)
all-page (page x) (page u) (page y) f p e = (x, y, refl, refl, page-injective (f x y) p e)
all-page (paging_error r) b c f p e = cc
all-page (page x) (paging_error r) c f p e = cc
all-page (page x) (page u) (paging_error r) f p e = cc

check_number-page :
    (maxsize n : ℕ) (asked limit : Limit)
    → check_number maxsize n asked ≡ page limit
    → (asked ≡ limit) × (0 < n) × (n ≤ maxsize)
unfolding check_number
check_number-page maxsize n asked limit e = (ground arith, ground arith, ground arith)

check_limit-IsUsable :
    (config : PagingConfig) (asked limit : Limit)
    → check_limit config asked ≡ page limit
    → ((asked ≡ max_word) × (limit ≡ setting_number config.max_limit))
      ⊎ ((asked ≡ limit) × IsUsable config limit)
unfolding check_limit
check_limit-IsUsable config falsy limit e =
    let same = page-injective falsy limit e in inr (same, inl (sym same))
check_limit-IsUsable config max_word limit e = inl (refl, sym (page-injective _ limit e))
check_limit-IsUsable config negative limit e = cc
check_limit-IsUsable config junk limit e = cc
check_limit-IsUsable config (text_number n) limit e =
    let (same, low, high) = check_number-page config.maxsize n (text_number n) limit e in
    inr (same, inr (inr (n, inl (sym same), low, high)))
check_limit-IsUsable config (setting_number n) limit e = elim (Bool-cases (n == 0)) [
  | inl nil ↦
      let same = page-injective (setting_number 0) limit (ground arith) in
      inr (ap setting_number (==_eq n 0 nil) ∙ same, inr (inl (sym same)))
  | inr some_number ↦
      let (same, low, high) =
        check_number-page config.maxsize n (setting_number n) limit (ground arith) in
      inr (same, inr (inr (n, inr (sym same), low, high)))
]

check_limit-IsLimit :
    (config : PagingConfig) (asked : Option Limit) (limit : Limit)
    → check_limit config (pop_limit config asked) ≡ page limit
    → IsLimit config asked limit
unfolding pop_limit
check_limit-IsLimit config none limit e =
    elim (check_limit-IsUsable config (setting_number config.default_limit) limit e) [
      | inl (other, left) ↦ cc
      | inr (same, usable) ↦ inr (inr (refl, sym same), usable)
    ]
check_limit-IsLimit config (some asked) limit e = elim (check_limit-IsUsable config asked limit e) [
  | inl (word, left) ↦ inl (ap some word, left)
  | inr (same, usable) ↦ inr (inl (ap some same), usable)
]

is_key-IsIn : (key : ℕ) (keys : List ℕ) → is_key key keys ≡ true → IsIn key keys
unfolding is_key
is_key-IsIn key [] e = absurd (ground arith)
is_key-IsIn key (k ∷ ks) e = ground (arith, is_key-IsIn key ks)

check_key-IsSortKey :
    (tenant : ℕ) (all_tenants : Bool) (keys : Option (List ℕ)) (key : Option ℕ) (order : Direction)
    (r : Option ℕ × Direction)
    → check_key tenant all_tenants keys key order ≡ page r
    → IsSortKey tenant all_tenants keys r.0
unfolding check_key
check_key-IsSortKey tenant all_tenants none key order r e =
    subst (λ (q : Option ℕ × Direction). IsSortKey tenant all_tenants none q.0)
      (page-injective _ r e) tt
check_key-IsSortKey tenant all_tenants (some keys) none order r e =
    subst (λ (q : Option ℕ × Direction). IsSortKey tenant all_tenants (some keys) q.0)
      (page-injective _ r e) tt
check_key-IsSortKey tenant all_tenants (some keys) (some key) order r e =
    elim (Bool-cases (is_key key keys)) [
      | inr absent ↦ absurd (ground arith)
      | inl listed ↦ elim (Bool-cases ((key == tenant) && not all_tenants)) [
        | inl barred ↦
            subst (λ (q : Option ℕ × Direction). IsSortKey tenant all_tenants (some keys) q.0)
              (page-injective (none, order) r (ground arith)) tt
        | inr usable ↦
            subst (λ (q : Option ℕ × Direction). IsSortKey tenant all_tenants (some keys) q.0)
              (page-injective (some key, order) r (ground arith))
              (is_key-IsIn key keys listed, λ same. ground arith)
      ]
    ]

-- Parameters that get_paging_params accepts leave the configured maximum when the limit asked for is
-- the word max, and otherwise the limit asked for or, when none is, the configured default: it is an
-- empty limit, the integer 0, as a default of 0 is, or a number from 1 to MAXSIZE. The sort key that
-- is left, if any, is one of the permitted ones, and the tenant only if the context sees all tenants.
pub get_paging_params-IsPaging :
    (config : PagingConfig) (tenant : ℕ) (all_tenants : Bool) (limit : Option Limit)
    (key : Option ℕ) (order : Direction) (keys : Option (List ℕ)) (p : Paging)
    → get_paging_params config tenant all_tenants limit key order keys ≡ page p
    → IsLimit config limit p.limit × IsSortKey tenant all_tenants keys p.sort_key
unfolding get_paging_params
get_paging_params-IsPaging config tenant all_tenants limit key order keys p e =
    let (left, r, limited, sorted, same) =
      all-page (check_limit config (pop_limit config limit)) (check_direction order)
        (check_key tenant all_tenants keys key order)
        (λ l q. record { limit = l; sort_key = q.0; sort_dir = q.1 }) p e in
    (
      subst (IsLimit config limit) (ap (λ (q : Paging). q.limit) same)
          (check_limit-IsLimit config limit left limited),
      subst (IsSortKey tenant all_tenants keys) (ap (λ (q : Paging). q.sort_key) same)
          (check_key-IsSortKey tenant all_tenants keys key order r sorted),
    )
