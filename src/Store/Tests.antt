-- ===== src/Store/Tests.antt =====
-- Runs of the store, and the theorems about it at concrete inputs.
use cawl.Store.Sound.Reach.{next, here, Reach-IsSound, reserving, exposing, deleting}
use cawl.Store.Listing.Visible.{list_visible}
use cawl.Models.{Environment, Exposure, Status, same_status}
use cawl.Store.Sound.{IsSound}
use cawl.Store.Tables.{
  Operation, Row, Store, count_active, find_row, Kind, save_row, find_operation, save_operation,
  to_environment,
}
use cawl.Store.Lifecycle.{complete_operation, opened, begin_operation, begun}
use cawl.Store.Upsert.{fill, delete, new_row}
use cawl.Store.Reserve.{reserve, claim}
use cawl.Prelude.{
  lookup, [], codes, false, none, some, true, ◌∷◌, ◌≡◌, ◌≤◌, refl, ok, ◌∙◌, ◌==◌, eq_refl, arith,
  All,
}
use cawl.Store.Reserve.Outcome.{claimed_row, granted}
use cawl.Store.Capabilities.{exposures, set_exposure}
use cawl.Store.Sound.Teardown.{completion_revives, delete_revokes}
use cawl.Store.Lifecycle.Commit.{find_row-completed, complete_operation_once, Due}
use cawl.Store.Reserve.Bounds.{reserve_quota, reserve_fences}
use cawl.Auth.{can_view, Role}
use cawl.Store.Lifecycle.Fence.{begin_operation_excludes}
use cawl.Store.Lifecycle.Claims.{claim_commits, Says}
use cawl.Store.Listing.{list}

abbrev pub blank : Store
blank = record {
  rows = [];
  operations = [];
  grants = [];
  exposures = [];
  leases = [];
  templates = (codes "web", 3) ∷ [];
  locks = [];
  events = [];
  next_uuid = 0;
  clock = 100;
}

abbrev pub acme : Environment
acme = record {
  id = codes "acme";
  template = codes "web";
  owner = codes "ann";
  status = Status.creating;
  backend = codes "vm";
  egress_policy = codes "none";
  args = [];
  args_hash = codes "h";
  vm_ip = none;
  url = none;
  ssh = none;
  image = none;
  failure = none;
  created_at = some 90;
  expires_at = none;
  shared_with = [];
  exposures = [];
  generation = none;
  operation_id = none;
}

-- `acme` is reserved, and its provisioning is in progress.
abbrev pub reserved : Store
reserved = (reserve acme (some 2) blank).1

abbrev pub acme_provisioned : Environment
acme_provisioned = record (granted acme 3 blank) {
  status = Status.ready;
  vm_ip = some (codes "10.0.0.9");
}

abbrev pub acme_row : Row
acme_row = claimed_row acme 3 blank

abbrev provisioning : Operation
provisioning = opened acme_row Kind.provision 1

-- `acme` is ready.
abbrev pub running : Store
running = (complete_operation acme_provisioned true reserved).1

abbrev pub running_row : Row
running_row = record (fill acme_provisioned acme_row) { active_operation = none }

abbrev web_exposure : Exposure
web_exposure = record { name = codes "acme"; port = 8080; access = [] }

reserved_run : (reserve acme (some 2) blank).0 ≡ ok (true, granted acme 3 blank)
unfolding reserve claim count_active lookup find_row save_row ◌==◌ save_operation
reserved_run = refl

reserved-Due : Due acme_provisioned reserved acme_row provisioning 3
unfolding reserve claim count_active lookup find_row save_row ◌==◌ find_operation save_operation
    fill new_row
reserved-Due = record {
  generation = refl;
  operation = refl;
  row = refl;
  active = refl;
  recorded = refl;
  fits = refl;
  known = refl;
  old = refl;
}

blank-IsSound : IsSound blank
unfolding find_row
blank-IsSound = record { homed = λ id r e live. cc; labelled = tt; below = λ id r e. cc }

pub running_found : find_row (codes "acme") running.rows ≡ some running_row
running_found =
    find_row-completed acme_provisioned true reserved acme_row provisioning 3 (codes "acme")
      reserved-Due
    ∙ (rw (eq_refl (codes "acme")))

delete_revokes_example : exposures (codes "acme") (delete (codes "acme") reserved) ≡ []
unfolding reserve claim count_active lookup find_row save_row ◌==◌ fill new_row
delete_revokes_example = (delete_revokes (codes "acme") reserved acme_row refl).2

completion_revives_example :
    (complete_operation acme_provisioned true (delete (codes "acme") reserved)).0
    ≡ ok (true, record acme_provisioned { operation_id = none })
completion_revives_example =
    (completion_revives acme_provisioned reserved acme_row provisioning 3 reserved-Due refl).0

complete_operation_once_example :
    complete_operation acme_provisioned false running ≡ (ok (false, acme_provisioned), running)
complete_operation_once_example =
    complete_operation_once acme_provisioned true false reserved acme_row provisioning 3
      reserved-Due

reserve_quota_example : count_active (codes "ann") reserved ≤ 2
reserve_quota_example = (reserve_quota acme (granted acme 3 blank) 2 blank refl reserved_run).1

-- `acme` is ready, and nothing else is in the database.
abbrev pub idle : Store
idle = record blank {
  rows = record acme_row { status = Status.ready; active_operation = none } ∷ [];
}

-- What a claim of it to stop it hands out.
abbrev pub stopped_claim : Environment
stopped_claim =
    to_environment (record acme_row { status = Status.stopping; active_operation = some 0 })
      (record idle { rows = [] })

begin_operation_excludes_example :
    let s = (begin_operation (codes "acme") Kind.stop (Status.ready ∷ []) Status.stopping idle).1 in
    begin_operation (codes "acme") Kind.start (Status.stopping ∷ []) Status.starting s
    ≡ (ok none, s)
unfolding begin_operation begun find_row save_row ◌==◌ to_environment fill new_row
begin_operation_excludes_example =
    begin_operation_excludes (codes "acme") Kind.stop Kind.start (Status.ready ∷ [])
      (Status.stopping ∷ []) Status.stopping Status.starting idle {i = stopped_claim} refl

claim_commits_example :
    let (r, s') =
      complete_operation
        (record stopped_claim { status = Status.stopped })
        true
        (begin_operation (codes "acme") Kind.stop (Status.ready ∷ []) Status.stopping idle).1 in
    (r ≡ ok (true, record stopped_claim { status = Status.stopped; operation_id = none }))
    × ((q : Row) × (find_row (codes "acme") s'.rows ≡ some q)
        × Says (record stopped_claim { status = Status.stopped }) q
        × (q.active_operation ≡ none))
unfolding begin_operation begun find_row save_row ◌==◌ to_environment fill new_row lookup
claim_commits_example =
    claim_commits (codes "acme") Kind.stop (Status.ready ∷ []) Status.stopping idle stopped_claim
      (record stopped_claim { status = Status.stopped }) 3 true refl refl refl refl refl refl

reserve_fences_example :
    complete_operation
      (record acme { generation = some 0 })
      true
      (reserve acme none (record blank { next_uuid = 7 })).1
    ≡ (
      ok (false, record acme { generation = some 0 }),
      (reserve acme none (record blank { next_uuid = 7 })).1,
    )
unfolding reserve claim count_active lookup find_row save_row ◌==◌ save_operation
reserve_fences_example =
    reserve_fences acme (granted acme 3 (record blank { next_uuid = 7 }))
      (record acme { generation = some 0 }) none (record blank { next_uuid = 7 }) true 0 refl refl
      refl refl (ground arith)

list_visible_example :
    All
      (λ (e : Environment).
        (can_view (record { id = codes "ann"; role = Role.user }) e ≡ true)
        × (same_status e.status Status.destroyed ≡ false))
      (list none none (some (codes "ann")) idle)
list_visible_example = list_visible none none b'a' (codes "nn") Role.user idle

Reach-IsSound_example :
    IsSound (delete (codes "acme") (set_exposure (codes "acme") web_exposure reserved).1)
Reach-IsSound_example =
    Reach-IsSound
      (next
        (next (next here (reserving acme (some 2) blank refl))
          (exposing (codes "acme") web_exposure reserved))
        (deleting (codes "acme") (set_exposure (codes "acme") web_exposure reserved).1))
      blank-IsSound
