-- ===== src/Quota.antt =====
-- quota/base.py and quota/impl_storage.py. Tenants and resources are numbers: they are only compared.
-- The `quotas` table is a list of rows; (tenant, resource) is unique in it, by the table's
-- constraint, which is what makes `create_quota` raise Duplicate.
mod Tests
pub mod InForce
pub mod Limits
pub mod Rows
use designate_private.Prelude.{
  ℕ, zero, suc, ◌+◌, Bool, true, false, not, ◌&&◌, ◌||◌, Option, none, some, List, [], ◌∷◌, ◌++◌,
  ◌==◌, leb, if◌then◌else◌, length, map, ◌≡◌,
}

pub record Row : Type 0 where
  pub tenant : ℕ
  pub resource : ℕ
  pub hard_limit : ℕ

-- A Python dict from resources to limits, the first entry of a key being the one in force.
abbrev pub Limits : Type 0
Limits = List (ℕ × ℕ)

pub data Checked : Type 0 where
  within over_quota quota_resource_unknown : Checked

pub lookup : ℕ → Limits → Option ℕ
lookup r [] = none
lookup r ((k, v) ∷ rest) = if k == r then some v else lookup r rest

-- What a request's context says of the tenants whose rows storage shows it.
pub record Caller : Type 0 where
  pub all_tenants : Bool
  pub own_tenant : ℕ

pub sees : Caller → ℕ → Bool
sees caller tenant = caller.all_tenants || (tenant == caller.own_tenant)

-- find_quotas with the criterion {'tenant_id': tenant_id}, among the rows that the caller sees.
pub find_quotas : Caller → ℕ → List Row → List Row
unfolding sees
find_quotas caller tenant [] = []
find_quotas caller tenant (q ∷ qs) =
    let rest = find_quotas caller tenant qs in
    if (q.tenant == tenant) && sees caller q.tenant then q ∷ rest else rest

-- dict((q['resource'], q['hard_limit']) for q in quotas)
to_dict : List Row → Limits
to_dict [] = []
to_dict (q ∷ qs) = (q.resource, q.hard_limit) ∷ to_dict qs

-- StorageQuota._get_quotas
pub own_quotas : Caller → ℕ → List Row → Limits
unfolding find_quotas to_dict
own_quotas caller tenant rows = to_dict (find_quotas caller tenant rows)

-- Quota.get_quotas: the defaults, updated by the tenant's own rows. `defaults` is what
-- get_default_quotas reads from the configuration.
pub get_quotas : Caller → Limits → ℕ → List Row → Limits
unfolding own_quotas
get_quotas caller defaults tenant rows = own_quotas caller tenant rows ++ defaults

-- The loop of Quota.limit_check over the keyword arguments.
check_values : Limits → List (ℕ × ℕ) → Checked
unfolding lookup
check_values quotas [] = within
check_values quotas ((resource, value) ∷ rest) =
    let checked = check_values quotas rest in
    elim (lookup resource quotas) [
      | none ↦ quota_resource_unknown
      | some limit ↦ if leb limit value then over_quota else checked
    ]

unfoldable pub limit_check : Caller → Limits → ℕ → List Row → List (ℕ × ℕ) → Checked
unfolding get_quotas check_values
limit_check caller defaults tenant rows values =
    check_values (get_quotas caller defaults tenant rows) values

-- The rows that match {'tenant_id': tenant, 'resource': resource}.
pub matches : ℕ → ℕ → Row → Bool
matches tenant resource q = (q.tenant == tenant) && (q.resource == resource)

pub has_row : ℕ → ℕ → List Row → Bool
unfolding matches
has_row tenant resource [] = false
has_row tenant resource (q ∷ qs) =
    let rest = has_row tenant resource qs in if matches tenant resource q then true else rest

-- storage.update_quota of the row that find_quota fetched
pub update_quota : ℕ → ℕ → ℕ → List Row → List Row
unfolding matches
update_quota tenant resource limit [] = []
update_quota tenant resource limit (q ∷ qs) =
    let rest = update_quota tenant resource limit qs in
    if matches tenant resource q then record q { hard_limit = limit } ∷ qs else q ∷ rest

pub data SetQuota : Type 0 where
  unknown : SetQuota
  done : List Row → SetQuota

-- StorageQuota.set_quota: create the row, and update it where create_quota raises Duplicate.
pub set_quota : Limits → ℕ → ℕ → ℕ → List Row → SetQuota
unfolding has_row update_quota lookup
set_quota defaults tenant resource limit rows = elim (lookup resource defaults) [
  | none ↦ unknown
  | some _ ↦
      if has_row tenant resource rows
      then done (update_quota tenant resource limit rows)
      else done (rows ++ record { tenant = tenant; resource = resource; hard_limit = limit } ∷ [])
]

-- StorageQuota.reset_quotas: each of the tenant's rows is deleted.
pub reset_quotas : ℕ → List Row → List Row
reset_quotas tenant [] = []
reset_quotas tenant (q ∷ qs) =
    let rest = reset_quotas tenant qs in if q.tenant == tenant then rest else q ∷ rest
