-- ===== src/Store/Capabilities.antt =====
-- The rows that give access, grants and exposures, with the methods of `DjangoStateStore` on them.
use cawl.Prelude.{
  lookup, Text, Bool, true, false, ◌&&◌, not, Option, none, some, List, [], ◌∷◌, ◌==◌, select, any,
  map, if◌then◌else◌, Result, ok, err, Action, pure, raise, modify, atomic, ◌>>=◌, ◌>>◌,
}
use cawl.Errors.{Error, name_conflict, does_not_exist, integrity_error}
use cawl.Models.{Status, Exposure, same_status}
use cawl.Store.Tables.{Row, Grant, ExposureRow, Event, Store, find_row, note}

abbrev pub is_grant : Text → Text → Grant → Bool
is_grant id principal g = g.environment == id && g.principal == principal

unfoldable pub has_grant : Text → Text → Store → Bool
has_grant id principal s = any (is_grant id principal) s.grants

abbrev pub has_row : Option Row → Bool
has_row none = false
has_row (some r) = true

abbrev new_grant : Text → Text → Text → Store → Store
new_grant id principal granted_by s = note (Event.shared id principal) (record s {
  grants = record { environment = id; principal = principal; granted_by = granted_by } ∷ s.grants;
})

-- `get_or_create`, and an event where it created. A grant of an environment that has no row is
-- refused by the foreign key.
unfoldable pub grant : Text → Text → Text → Action Store Error (Unit {0})
unfolding has_grant
grant id principal granted_by s =
    if has_grant id principal s
    then (ok tt, s)
    else if has_row (find_row id s.rows)
    then (ok tt, new_grant id principal granted_by s)
    else (err (integrity_error id), s)

unfoldable pub revoke : Text → Text → Action Store Error Bool
unfolding has_grant
revoke id principal s =
    if has_grant id principal s
    then (
      ok true,
      note (Event.unshared id principal)
          (record s { grants = select (λ g. not (is_grant id principal g)) s.grants }),
    )
    else (ok false, s)

abbrev pub is_exposure : Text → Text → ExposureRow → Bool
is_exposure id name e = e.environment == id && e.name == name

unfoldable pub exposures : Text → Store → List Exposure
exposures id s =
    map (λ (e : ExposureRow). e.exposure) (select (λ e. e.environment == id) s.exposures)

abbrev is_destroyed : Option Row → Bool
is_destroyed none = false
is_destroyed (some r) = same_status r.status Status.destroyed

-- The environment that an exposure of this name belongs to; names of destroyed ones are free.
unfoldable pub find_exposure_in : Text → List Row → List ExposureRow → Option (Text × Exposure)
find_exposure_in name rows [] = none
find_exposure_in name rows (e ∷ es) =
    if e.name == name && not (is_destroyed (find_row e.environment rows))
    then some (e.environment, e.exposure)
    else find_exposure_in name rows es

unfoldable pub find_exposure : Text → Store → Option (Text × Exposure)
unfolding find_exposure_in
find_exposure name s = find_exposure_in name s.rows s.exposures

-- `NamespaceLease.objects.get_or_create(name=…)`, and the environment that holds it.
abbrev pub lease_holder : Option Text → Text → Text → Action Store Error Text
lease_holder none name id s = (ok id, record s { leases = (name, id) ∷ s.leases })
lease_holder (some holder) name id s = (ok holder, s)

unfoldable acquire_lease : Text → Text → Action Store Error Text
acquire_lease name id s = lease_holder (lookup name s.leases) name id s

unfoldable pub update_exposure : Text → Exposure → List ExposureRow → List ExposureRow
update_exposure id x [] = []
update_exposure id x (e ∷ es) =
    if is_exposure id x.name e
    then record e { exposure = x } ∷ update_exposure id x es
    else e ∷ update_exposure id x es

-- `Exposure.objects.update_or_create(…)`; the name is unique in the table.
unfoldable pub put_exposure : Text → Exposure → Action Store Error (Unit {0})
unfolding update_exposure
put_exposure id x s =
    if any (is_exposure id x.name) s.exposures
    then (ok tt, record s { exposures = update_exposure id x s.exposures })
    else if any (λ e. e.name == x.name) s.exposures
    then (err (integrity_error x.name), s)
    else (ok tt, record s { exposures = record { environment = id; exposure = x } ∷ s.exposures })

abbrev require_row : Text → Option Row → Action Store Error (Unit {0})
require_row id none = raise (does_not_exist id)
require_row id (some r) = pure tt

abbrev same_holder : Text → Text → Text → Action Store Error (Unit {0})
same_holder holder id name = if holder == id then pure tt else raise (name_conflict name)

unfoldable set_exposure_body : Text → Exposure → Action Store Error (Unit {0})
unfolding acquire_lease
set_exposure_body id x = do
  (λ s. require_row id (find_row id s.rows) s)
  holder ← acquire_lease x.name id
  same_holder holder id x.name
  put_exposure id x
  modify (note (Event.exposed id x))

-- `except IntegrityError`
abbrev other_holds : Option Text → Text → Bool
other_holds none id = false
other_holds (some holder) id = not (holder == id)

abbrev pub exposure_recovered :
    Text → Text → Result Error (Unit {0}) → Action Store Error (Unit {0})
exposure_recovered id name (err (integrity_error n)) s =
    if other_holds (lookup name s.leases) id
    then (err (name_conflict name), s)
    else (err (integrity_error n), s)
exposure_recovered id name r s = (r, s)

unfoldable pub set_exposure : Text → Exposure → Action Store Error (Unit {0})
unfolding set_exposure_body
set_exposure id x s =
    let (r, s') = atomic (set_exposure_body id x) s in exposure_recovered id x.name r s'

-- The lease of the environment's own id stays.
abbrev pub release_label : Text → Text → Store → Store
release_label id name s = record s {
  leases = if name == id then s.leases else select (λ l. not (l.0 == name && l.1 == id)) s.leases;
}

abbrev remove_at : Option Row → Text → Text → Action Store Error Bool
remove_at none id name s = (err (does_not_exist id), s)
remove_at (some r) id name s =
    if any (is_exposure id name) s.exposures
    then (
      ok true,
      note (Event.unexposed id name) (
          release_label id name
            (record s { exposures = select (λ e. not (is_exposure id name e)) s.exposures })),
    )
    else (ok false, s)

unfoldable pub remove_exposure : Text → Text → Action Store Error Bool
remove_exposure id name s = remove_at (find_row id s.rows) id name s
