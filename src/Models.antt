-- ===== src/Models.antt =====
-- server/cawl_core/models.py: the statuses, exposures and the environment record.
-- Times are seconds since a common origin. UUIDs are numbers, and `none` is the source's "".
use cawl.Prelude.{Text, codes, ℕ, Bool, true, false, Option, List, nat_beq}
use cawl.Errors.{Error}

pub data Status : Type 0 where
  creating ready starting stopping destroying stopped error destroy_failed destroyed : Status

-- `a is b` on the members of the enumeration.
abbrev status_number : Status → ℕ
status_number creating = 0
status_number ready = 1
status_number starting = 2
status_number stopping = 3
status_number destroying = 4
status_number stopped = 5
status_number error = 6
status_number destroy_failed = 7
status_number destroyed = 8

abbrev pub same_status : Status → Status → Bool
same_status a b = nat_beq (status_number a) (status_number b)

-- `status in (destroyed, error)`: `_DEAD` of the control plane, and the tests of the store.
abbrev pub dead : Status → Bool
dead destroyed = true
dead error = true
dead _ = false

pub record Exposure : Type 0 where
  pub name : Text
  pub port : ℕ
  pub access : List Text

abbrev pub primary_exposure : Text
primary_exposure = codes "web"

pub record Environment : Type 0 where
  pub id : Text
  pub template : Text
  pub owner : Text
  pub status : Status
  pub backend : Text
  pub egress_policy : Text
  pub args : List (Text × Text)
  pub args_hash : Text
  pub vm_ip : Option Text
  pub url : Option Text
  pub ssh : Option Text
  pub image : Option Text
  pub failure : Option Error
  pub created_at : Option ℕ
  pub expires_at : Option ℕ
  pub shared_with : List Text
  pub exposures : List Exposure
  pub generation : Option ℕ
  pub operation_id : Option ℕ
