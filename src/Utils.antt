-- ===== src/Utils.antt =====
-- utils.py: increment_serial, split_host_port, get_proxies and get_paging_params, and
-- _increment_zone_serial's use of the first. The clock and the configuration are arguments.
pub mod Serials
pub mod Pages
mod Tests
use designate_private.Prelude.{
  ℕ, suc, ◌+◌, Bool, true, false, not, ◌&&◌, ◌||◌, Option, none, some, List, [], ◌∷◌, ◌==◌, ltb,
  leb, if◌then◌else◌,
}
use designate_private.Prelude.Texts.{Text}

pub increment_serial : ℕ → ℕ → ℕ
increment_serial now serial = if leb now serial then serial + 1 else now

-- The serials of a zone that _increment_zone_serial is called on at these times.
pub increment_all : List ℕ → ℕ → ℕ
unfolding increment_serial
increment_all [] serial = serial
increment_all (now ∷ later) serial = increment_all later (increment_serial now serial)

colon : ℕ
colon = b':'

-- string.split(':', 1), where there is a colon.
split_once : Text → Option (Text × Text)
unfolding colon
split_once [] = none
split_once (c ∷ s) =
    let rest = split_once s in
    if c == colon then some ([], s) else (elim rest [ none ↦ none | some (a, b) ↦ some (c ∷ a, b) ])

-- split_host_port; `int` is Python's, `none` where it raises ValueError.
pub split_host_port : (Text → Option ℕ) → Text → ℕ → Text × ℕ
unfolding split_once
split_host_port int string default_port = elim (split_once string) [
  | none ↦ (string, default_port)
  | some (host, port) ↦ elim (int port) [ none ↦ (string, default_port) | some n ↦ (host, n) ]
]

-- get_proxies: `no_proxy` is empty or not, the proxies may be None. The result by key.
pub record Proxies : Type 0 where
  pub no_proxy : Option Text
  pub http : Option Text
  pub https : Option Text

unless_empty : Text → Option Text
unless_empty [] = none
unless_empty (c ∷ s) = some (c ∷ s)

pub get_proxies : Text → Option Text → Option Text → Proxies
unfolding unless_empty
get_proxies no_proxy http https = record {
  no_proxy = unless_empty no_proxy;
  http = http;
  https = elim https [ some h ↦ some h | none ↦ http ];
}

-- A limit: None or '', the word "max", an int from the configuration, or another text: one that int()
-- reads as a number, as a negative number, or not at all.
pub data Limit : Type 0 where
  falsy max_word negative junk : Limit
  setting_number text_number : ℕ → Limit

pub data Direction : Type 0 where
  unordered asc desc unknown : Direction

pub data PagingError : Type 0 where
  invalid_limit invalid_sort_dir invalid_sort_key : PagingError

pub data Paged {ℓ} (A : Type ℓ) : Type ℓ where
  page : A → Paged A
  paging_error : PagingError → Paged A

infixl 5 ◌>>=◌
abbrev ◌>>=◌ {ℓ κ} : {A : Type ℓ} {B : Type κ} → Paged A → (A → Paged B) → Paged B
page a >>= f = f a
paging_error e >>= f = paging_error e

pub record PagingConfig : Type 0 where
  pub default_limit : ℕ
  pub max_limit : ℕ
  pub maxsize : ℕ

check_number : ℕ → ℕ → Limit → Paged Limit
check_number maxsize n limit =
    if (n == 0) || ltb maxsize n then paging_error invalid_limit else page limit

-- The branches on the limit.
check_limit : PagingConfig → Limit → Paged Limit
unfolding check_number
check_limit config max_word = page (setting_number config.max_limit)
check_limit config falsy = page falsy
check_limit config negative = paging_error invalid_limit
check_limit config junk = paging_error invalid_limit
check_limit config (text_number n) = check_number config.maxsize n (text_number n)
check_limit config (setting_number n) =
    if n == 0 then page (setting_number 0) else check_number config.maxsize n (setting_number n)

check_direction : Direction → Paged (Unit {0})
check_direction unknown = paging_error invalid_sort_dir
check_direction _ = page tt

is_key : ℕ → List ℕ → Bool
is_key key [] = false
is_key key (k ∷ ks) = (k == key) || is_key key ks

-- The branches on the sort key: without sort keys neither it nor the order is passed on, and by
-- tenant only a context with all_tenants may sort. `tenant` is the key 'tenant_id'.
check_key : ℕ → Bool → Option (List ℕ) → Option ℕ → Direction → Paged (Option ℕ × Direction)
unfolding is_key
check_key tenant all_tenants none key _ = page (none, unordered)
check_key tenant all_tenants (some keys) none order = page (none, order)
check_key tenant all_tenants (some keys) (some key) order =
    if not (is_key key keys)
    then paging_error invalid_sort_key
    else page (if (key == tenant) && not all_tenants then none else some key, order)

pub record Paging : Type 0 where
  pub limit : Limit
  pub sort_key : Option ℕ
  pub sort_dir : Direction

-- params.pop('limit', default_limit_v2)
pop_limit : PagingConfig → Option Limit → Limit
pop_limit config none = setting_number config.default_limit
pop_limit config (some limit) = limit

-- get_paging_params, which passes the marker on; a limit that is not given is the default.
pub get_paging_params :
    PagingConfig → ℕ → Bool → Option Limit → Option ℕ → Direction → Option (List ℕ) → Paged Paging
unfolding pop_limit check_limit check_direction check_key
get_paging_params config tenant all_tenants limit key order keys = do
  left ← check_limit config (pop_limit config limit)
  _ ← check_direction order
  (chosen, applied) ← check_key tenant all_tenants keys key order
  page (record { limit = left; sort_key = chosen; sort_dir = applied })
