-- ===== src/Central/Checks.antt =====
-- What central/service.py refuses before it writes anything: the exceptions of the checks, and the
-- rows that the checks read.
pub mod ZoneNames
pub mod RecordsetNames
pub mod Quotas
pub mod ZoneCreation
use designate_private.Prelude.{
  ℕ, Bool, true, false, not, ◌&&◌, Option, none, some, List, [], ◌∷◌, ltb, ◌≡◌, refl, ◌⊎◌, inl, inr,
}
use designate_private.Prelude.Texts.{Text}

-- The exceptions, by the message where one class has several.
pub data Refusal : Type 0 where
  zone_name_too_long one_label invalid_tld same_as_tld blacklisted : Refusal
  not_fqdn recordset_name_too_long not_in_zone : Refusal
  cname_at_apex cname_shares_name in_child_zone too_many_cname_records : Refusal
  ttl_too_low illegal_child_zone illegal_parent_zone no_servers need_view duplicate_zone : Refusal
  over_quota quota_resource_unknown forbidden multiple_pools no_valid_pool no_filters : Refusal
  view_not_found backend_failed : Refusal
  request_not_found transfer_used transfer_invalid incorrect_key zone_not_found deleting_zone
        duplicate_request :
      Refusal

pub data Checked {ℓ} (A : Type ℓ) : Type ℓ where
  passed : A → Checked A
  refused : Refusal → Checked A

infixl 5 ◌>>=◌ ◌>>◌
abbrev pub ◌>>=◌ {ℓ κ} : {A : Type ℓ} {B : Type κ} → Checked A → (A → Checked B) → Checked B
passed a >>= f = f a
refused r >>= f = refused r

abbrev pub ◌>>◌ {ℓ} : {B : Type ℓ} → Checked (Unit {0}) → Checked B → Checked B
m >> k = m >>= λ _. k

pub Checked-cases {ℓ} :
    {A : Type ℓ} (m : Checked A) → ((a : A) × (m ≡ passed a)) ⊎ ((r : Refusal) × (m ≡ refused r))
Checked-cases (passed a) = inl (a, refl)
Checked-cases (refused r) = inr (r, refl)

pub passed-injective {ℓ} : {A : Type ℓ} (a b : A) → passed a ≡ passed b → a ≡ b
passed-injective a b e = cc

pub >>=-passed {ℓ κ} :
    {A : Type ℓ} {B : Type κ} (m : Checked A) (f : A → Checked B) (b : B)
    → (m >>= f) ≡ passed b
    → (a : A) × (m ≡ passed a) × (f a ≡ passed b)
>>=-passed (passed a) f b e = (a, refl, e)
>>=-passed (refused r) f b e = cc

pub >>-passed {ℓ} :
    {B : Type ℓ} (m : Checked (Unit {0})) (k : Checked B) (b : B)
    → (m >> k) ≡ passed b
    → (m ≡ passed tt) × (k ≡ passed b)
>>-passed (passed tt) k b e = (refl, e)
>>-passed (refused r) k b e = cc

-- `if test: raise`
abbrev pub refuse_if : Bool → Refusal → Checked (Unit {0})
refuse_if true r = refused r
refuse_if false r = passed tt

pub record ZoneRow : Type 0 where
  pub id : ℕ
  pub name : Text
  pub pool_id : ℕ
  pub tenant_id : ℕ
  pub parent_zone_id : Option ℕ

-- _is_valid_ttl: `min_ttl` may be None, and `may_use_low_ttl` is what the policy says.
unfoldable pub is_valid_ttl : Option ℕ → Bool → ℕ → Checked (Unit {0})
is_valid_ttl none may_use_low_ttl ttl = passed tt
is_valid_ttl (some min_ttl) may_use_low_ttl ttl =
    refuse_if (ltb ttl min_ttl && not may_use_low_ttl) ttl_too_low

-- The check of a TTL that may be None.
unfoldable pub is_valid_ttl? : Option ℕ → Bool → Option ℕ → Checked (Unit {0})
unfolding is_valid_ttl
is_valid_ttl? min_ttl may_use_low_ttl none = passed tt
is_valid_ttl? min_ttl may_use_low_ttl (some ttl) = is_valid_ttl min_ttl may_use_low_ttl ttl

pub refuse_if-passed : (test : Bool) (r : Refusal) → refuse_if test r ≡ passed tt → test ≡ false
refuse_if-passed true r e = cc
refuse_if-passed false r e = refl
