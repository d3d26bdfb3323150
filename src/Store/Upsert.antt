-- ===== src/Store/Upsert.antt =====
-- upsert and delete of `DjangoStateStore`: how an environment becomes a row, and how the row is
-- retired. Each runs in a transaction that locks what it reads, so it is one step on the store.
use cawl.Prelude.{
  lookup, Text, ℕ, suc, Bool, true, ◌&&◌, not, Option, none, some, [], ◌==◌, select, if◌then◌else◌,
  Result, ok, err, Action, ◌++◌, List, ◌∷◌,
}
use cawl.Errors.{Error, does_not_exist}
use cawl.Models.{Status, Environment, dead, same_status}
use cawl.Store.Tables.{Row, Event, Store, find_row, save_row, note}

-- What `upsert` copies from the environment to its row.
unfoldable pub fill : Environment → Row → Row
fill inst r = record r {
  args = inst.args;
  args_hash = inst.args_hash;
  backend = inst.backend;
  egress_policy = inst.egress_policy;
  owner = inst.owner;
  status = inst.status;
  vm_ip = inst.vm_ip;
  url = inst.url;
  image = inst.image;
  failure = inst.failure;
  created_at = inst.created_at;
  expires_at = inst.expires_at;
}

-- `Environment(id=…, template=…, template_version=…)` with the defaults of its other fields.
unfoldable pub new_row : Environment → ℕ → ℕ → Row
new_row inst version uuid = record {
  id = inst.id;
  template = inst.template;
  template_version = version;
  args = [];
  args_hash = [];
  backend = [];
  egress_policy = [];
  owner = [];
  status = Status.creating;
  vm_ip = none;
  url = none;
  image = none;
  failure = none;
  created_at = none;
  expires_at = none;
  destroyed_at = none;
  generation = uuid;
  active_operation = none;
}

abbrev pub is_creating : Environment → Option Row → Bool
is_creating inst none = true
is_creating inst (some sb) = dead sb.status && same_status inst.status Status.creating

-- Capabilities that a dead row may still have are removed before it is used again.
unfoldable pub drop_capabilities : Text → Store → Store
drop_capabilities id s = record s {
  grants = select (λ g. not (g.environment == id)) s.grants;
  exposures = select (λ e. not (e.environment == id)) s.exposures;
}

abbrev pub drop_stale : Option Row → Text → Store → Store
drop_stale none id s = s
drop_stale (some sb) id s = drop_capabilities id s

unfoldable pub write_created : Environment → ℕ → Option Row → Store → Store
unfolding fill new_row drop_capabilities
write_created inst version sb s =
    let s' = drop_stale sb inst.id s in
    note (Event.created inst.id inst.status inst.owner) (record s' {
      rows = save_row (fill inst (new_row inst version s.next_uuid)) s'.rows;
      next_uuid = suc s.next_uuid;
    })

abbrev status_events : Environment → Row → List Event
status_events inst sb =
    if same_status sb.status inst.status
    then []
    else Event.status_changed inst.id sb.status inst.status inst.failure ∷ []

unfoldable pub write_updated : Environment → Row → Store → Store
unfolding fill
write_updated inst sb s = record s {
  rows = save_row (fill inst sb) s.rows;
  events = status_events inst sb ++ s.events;
}

abbrev pub write : Environment → ℕ → Option Row → Store → Store
write inst version none s = write_created inst version none s
write inst version (some sb) s =
    if is_creating inst (some sb)
    then write_created inst version (some sb) s
    else write_updated inst sb s

abbrev upsert_at : Environment → Option ℕ → Store → Result Error (Unit {0}) × Store
upsert_at inst none s = (err (does_not_exist inst.template), s)
upsert_at inst (some version) s = (ok tt, write inst version (find_row inst.id s.rows) s)

unfoldable pub upsert : Environment → Action Store Error (Unit {0})
unfolding write_created write_updated
upsert inst s = upsert_at inst (lookup inst.template s.templates) s

unfoldable pub release_leases : Text → Store → Store
release_leases id s = record s { leases = select (λ l. not (l.1 == id)) s.leases }

abbrev pub deleted : Option Row → Text → Store → Store
deleted none id s = s
deleted (some sb) id s =
    let s' = release_leases id (drop_capabilities id s) in
    note (Event.torn_down id sb.status) (record s' {
      rows =
          save_row (record sb { status = Status.destroyed; destroyed_at = some s.clock }) s'.rows;
    })

unfoldable pub delete : Text → Store → Store
unfolding release_leases drop_capabilities
delete id s = deleted (find_row id s.rows) id s
