-- ===== src/Store/Tables.antt =====
-- The tables of server/environments/models.py that the store works on, and its row access. A table
-- is a list; a table with a primary key is read and written through that key.
use cawl.Prelude.{
  Text, ℕ, ◌≡◌, refl, Bool, true, false, ◌&&◌, not, Option, none, some, List, [], ◌∷◌, ◌==◌, eq_iff,
  count, select, map, if◌then◌else◌, arith, leb, nat_beq,
}
use cawl.Errors.{Error}
use cawl.Models.{Status, Environment, Exposure, dead, same_status}

pub record Row : Type 0 where
  pub id : Text
  pub template : Text
  pub template_version : ℕ
  pub args : List (Text × Text)
  pub args_hash : Text
  pub backend : Text
  pub egress_policy : Text
  pub owner : Text
  pub status : Status
  pub vm_ip : Option Text
  pub url : Option Text
  pub image : Option Text
  pub failure : Option Error
  pub created_at : Option ℕ
  pub expires_at : Option ℕ
  pub destroyed_at : Option ℕ
  pub generation : ℕ
  pub active_operation : Option ℕ

pub data Kind : Type 0 where
  provision start stop destroy sync_ingress : Kind

pub data Progress : Type 0 where
  queued running succeeded failed : Progress

pub record Operation : Type 0 where
  pub number : ℕ
  pub environment : Text
  pub generation : ℕ
  pub kind : Kind
  pub state : Progress
  pub failure : Option Error
  pub finished_at : Option ℕ

pub record Grant : Type 0 where
  pub environment : Text
  pub principal : Text
  pub granted_by : Text

pub record ExposureRow : Type 0 where
  pub environment : Text
  pub exposure : Exposure
  pub open exposure use *

-- `EnvironmentEvent`, one constructor for each text that the store writes, with the values in it.
pub data Event : Type 0 where
  created : Text → Status → Text → Event
  status_changed : Text → Status → Status → Option Error → Event
  operation_begun : Text → Status → Status → ℕ → Kind → Event
  operation_completed : Text → Status → Status → ℕ → Event
  shared unshared : Text → Text → Event
  exposed : Text → Exposure → Event
  unexposed : Text → Text → Event
  torn_down : Text → Status → Event

pub record Store : Type 0 where
  pub rows : List Row
  pub operations : List Operation
  pub grants : List Grant
  pub exposures : List ExposureRow
  -- NamespaceLease: a name and the environment that holds it
  pub leases : List (Text × Text)
  -- Template: a name and its current version
  pub templates : List (Text × ℕ)
  -- OwnerQuotaLock
  pub locks : List Text
  -- newest first
  pub events : List Event
  -- the number that stands for the next `uuid.uuid4()`, and `timezone.now()`
  pub next_uuid : ℕ
  pub clock : ℕ

-- `objects.filter(pk=id).first()` on environments.
unfoldable pub find_row : Text → List Row → Option Row
find_row id [] = none
find_row id (r ∷ rs) = if r.id == id then some r else find_row id rs

-- `sb.save()`: a new row, or the row of that key overwritten.
unfoldable pub save_row : Row → List Row → List Row
save_row r [] = r ∷ []
save_row r (q ∷ qs) = if q.id == r.id then r ∷ qs else q ∷ save_row r qs

pub find_row-save_row :
    (r : Row) (id : Text) (rs : List Row)
    → find_row id (save_row r rs) ≡ (if r.id == id then some r else find_row id rs)
unfolding find_row save_row
find_row-save_row r id [] = refl
find_row-save_row r id (q ∷ qs) =
    ground (arith, find_row-save_row r id qs, eq_iff q.id r.id, eq_iff q.id id, eq_iff r.id id)

pub find_row-id : (id : Text) (rs : List Row) (r : Row) → find_row id rs ≡ some r → r.id ≡ id
unfolding find_row
find_row-id id [] r h = cc
find_row-id id (q ∷ qs) r h = ground (arith, find_row-id id qs r, eq_iff q.id id)

unfoldable pub find_operation : ℕ → List Operation → Option Operation
find_operation n [] = none
find_operation n (o ∷ os) = if nat_beq o.number n then some o else find_operation n os

unfoldable pub save_operation : Operation → List Operation → List Operation
save_operation o [] = o ∷ []
save_operation o (q ∷ qs) = if nat_beq q.number o.number then o ∷ qs else q ∷ save_operation o qs

abbrev pub note : Event → Store → Store
note e s = record s { events = e ∷ s.events }

-- `count_active`: what counts against a quota.
abbrev pub counts_for : Text → Row → Bool
counts_for owner r = r.owner == owner && not (dead r.status)

unfoldable pub count_active : Text → Store → ℕ
count_active owner s = count (counts_for owner) s.rows

-- `_to_environment`
abbrev pub grants_of : Text → Store → List Text
grants_of id s = map (λ (g : Grant). g.principal) (select (λ g. g.environment == id) s.grants)

abbrev exposures_of : Text → Store → List Exposure
exposures_of id s =
    map (λ (e : ExposureRow). e.exposure) (select (λ e. e.environment == id) s.exposures)

unfoldable pub to_environment : Row → Store → Environment
to_environment r s = record {
  id = r.id;
  template = r.template;
  owner = r.owner;
  status = r.status;
  backend = r.backend;
  egress_policy = r.egress_policy;
  args = r.args;
  args_hash = r.args_hash;
  vm_ip = r.vm_ip;
  url = r.url;
  ssh = none;
  image = r.image;
  failure = r.failure;
  created_at = r.created_at;
  expires_at = r.expires_at;
  shared_with = grants_of r.id s;
  exposures = exposures_of r.id s;
  generation = some r.generation;
  operation_id = r.active_operation;
}

abbrev pub environment_of : Store → Option Row → Option Environment
environment_of s none = none
environment_of s (some r) = some (to_environment r s)

unfoldable pub get : Text → Store → Option Environment
get id s = environment_of s (find_row id s.rows)

-- `order_by("-created_at").first()`: the newest, and the earlier row of two with one time.
abbrev pub at_least_as_new : Option ℕ → Option ℕ → Bool
at_least_as_new a none = true
at_least_as_new none (some t) = false
at_least_as_new (some u) (some t) = leb t u

abbrev pub newer : Row → Option Row → Option Row
newer r none = some r
newer r (some q) = if at_least_as_new r.created_at q.created_at then some r else some q

-- The first in `order_by("-created_at")`; a row without the time comes last, which is one of the two
-- places that databases give to nulls.
newest : List Row → Option Row
newest [] = none
newest (r ∷ rs) = newer r (newest rs)

abbrev is_match : Text → Text → Text → Row → Bool
is_match template args_hash owner r =
    r.template == template
    && r.args_hash == args_hash
    && r.owner == owner
    && not (same_status r.status Status.destroyed)

unfoldable pub find : Text → Text → Text → Store → Option Environment
unfolding newest
find template args_hash owner s =
    environment_of s (newest (select (is_match template args_hash owner) s.rows))

-- `expires_at__isnull=False, expires_at__lte=now`, without the destroyed ones.
abbrev has_expired : ℕ → Row → Bool
has_expired now r =
    not (same_status r.status Status.destroyed)
    && elim r.expires_at [ none ↦ false | some t ↦ leb t now ]

unfoldable pub expired : ℕ → Store → List Environment
expired now s = map (λ r. to_environment r s) (select (has_expired now) s.rows)
