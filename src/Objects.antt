-- ===== src/Objects.antt =====
-- The fields of objects/zone.py and objects/record.py on which the status machinery acts. A status or
-- an action is one of the strings that the services write and compare.
pub mod Tracking
pub mod RecordSet
pub mod Wire
use designate_private.Prelude.{ℕ, Bool, true, false}

-- 'CREATE', 'UPDATE', 'DELETE', 'NONE'
pub data Action : Type 0 where
  create update delete no_action : Action

-- 'ACTIVE', 'PENDING', 'ERROR', 'DELETED', 'SUCCESS', 'NO_ZONE'
pub data Status : Type 0 where
  active pending error deleted success no_zone : Status

pub record Zone : Type 0 where
  pub id : ℕ
  pub action : Action
  pub status : Status
  pub serial : ℕ

abbrev pub is_delete : Action → Bool
is_delete delete = true
is_delete _ = false
