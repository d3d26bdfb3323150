-- ===== src/Store/Reserve.antt =====
-- reserve of `DjangoStateStore`: the id, the quota slot and the lease of an environment to be.
pub mod Outcome
pub mod Bounds
use cawl.Prelude.{
  lookup, Text, ℕ, Bool, true, false, ◌||◌, Option, none, some, ◌∷◌, leb, contains, if◌then◌else◌,
  Result, ok, err, Action, pure, raise, raise_if, modify, gets, atomic, ◌>>=◌, ◌>>◌,
}
use cawl.Errors.{Error, quota_exceeded, does_not_exist, integrity_error}
use cawl.Models.{Environment, dead}
use cawl.Store.Tables.{Row, Kind, Store, find_row, count_active}
use cawl.Store.Upsert.{upsert, release_leases}
use cawl.Store.Lifecycle.{open_operation}

abbrev pub over_quota : Option ℕ → ℕ → Bool
over_quota none n = false
over_quota (some q) n = leb q n

abbrev quota_of : Option ℕ → ℕ
quota_of none = 0
quota_of (some q) = q

-- `get_or_create(owner=…)`
abbrev pub lock_owner : Text → Store → Store
lock_owner owner s = record s {
  locks = if contains s.locks owner then s.locks else owner ∷ s.locks;
}

abbrev pub add_lease : Text → Text → Store → Store
add_lease name id s = record s { leases = (name, id) ∷ s.leases }

-- `NamespaceLease.objects.create(name=inst.id, …)`: the name is the primary key.
abbrev lease_at : Option Text → Text → Action Store Error (Unit {0})
lease_at none id s = (ok tt, add_lease id id s)
lease_at (some holder) id s = (err (integrity_error id), s)

unfoldable create_lease : Text → Action Store Error (Unit {0})
create_lease id s = lease_at (lookup id s.leases) id s

-- `Environment.objects.select_for_update().get(pk=…)`
abbrev reread : Text → Option Row → Action Store Error Row
reread id none = raise (does_not_exist id)
reread id (some r) = pure r

-- From the `upsert` on: the row, its operation, and the lease of its id.
unfoldable pub claim : Environment → Action Store Error (Bool × Environment)
unfolding upsert open_operation create_lease
claim inst = do
  upsert inst
  sb ← (λ s. reread inst.id (find_row inst.id s.rows) s)
  sb' ← open_operation sb Kind.provision
  create_lease inst.id
  pure (true, record inst { generation = some sb'.generation; operation_id = sb'.active_operation })

abbrev reserve_at : Option Row → Environment → Action Store Error (Bool × Environment)
reserve_at none inst = claim inst
reserve_at (some sb) inst =
    if dead sb.status then (modify (release_leases inst.id) >> claim inst) else pure (false, inst)

unfoldable reserve_body : Environment → Option ℕ → Action Store Error (Bool × Environment)
unfolding release_leases
reserve_body inst quota = do
  modify (lock_owner inst.owner)
  active ← gets (count_active inst.owner)
  raise_if (over_quota quota active) (quota_exceeded inst.owner (quota_of quota))
  held ← gets (λ s. find_row inst.id s.rows)
  reserve_at held inst

-- `except IntegrityError`, after the rollback.
abbrev pub is_some : {A : Type 0} → Option A → Bool
is_some none = false
is_some (some a) = true

abbrev pub recovered :
    Environment → Result Error (Bool × Environment) → Action Store Error (Bool × Environment)
recovered inst (err (integrity_error name)) s =
    if is_some (find_row inst.id s.rows) || is_some (lookup inst.id s.leases)
    then (ok (false, inst), s)
    else (err (integrity_error name), s)
recovered inst r s = (r, s)

-- Beside the answer comes the environment with the fencing values that the reservation gave it. On
-- `false` the source leaves the values of the rolled-back attempt on the object; no caller reads
-- them, and here the environment comes back as it was.
unfoldable pub reserve : Environment → Option ℕ → Action Store Error (Bool × Environment)
unfolding reserve_body
reserve inst quota s = let (r, s') = atomic (reserve_body inst quota) s in recovered inst r s'
