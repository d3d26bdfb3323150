-- ===== src/Control/Tests.antt =====
-- A small deployment, and the theorems about the control plane at concrete inputs.
use cawl.Control.Lifecycle.{stopping}
use cawl.Prelude.{
  lookup, Action, Text, List, codes, ◌==◌, [], ok, some, ◌≡◌, none, ◌∷◌, true, ap, err, ℕ, ◌⊎◌, ◌≤◌,
  ◌+◌, refl, inl,
}
use cawl.Control.Plane.{Plane, World}
use cawl.Auth.{Principal, Role, is_owner, system, require_admin}
use cawl.Store.Tables.{get, to_environment, find_row, environment_of, expired, save_row, Kind, Row}
use cawl.Errors.{Error, permission_denied, not_found, stop_failed}
use cawl.Store.Tests
use cawl.Store.Tests.{running_row, blank, acme_row, running_found, idle, stopped_claim}
use cawl.Control.Creation.{expiry_for, capped}
use cawl.Store.Upsert.{fill, new_row, delete}
use cawl.Control.Lifecycle.{reap, tear_down, reap_each, stopping}
use cawl.Control.Teardown.{ids_of, TornDown, delete_all, reap_deletes, tear_down_outcome}
use cawl.Naming.Lifetimes.{parse_ttl, compute_expiry, decimal_from}
use cawl.Control.Policy.{perform, Call, perform_denied, perform_missing}
use cawl.Control.Expiry.{expiry_for_capped}
use cawl.Params.Patterns.{span}
use cawl.Models.{Status}
use cawl.Naming.Labels.{normalize}
use cawl.Store.Lifecycle.{begin_operation, begun}
use cawl.Control.Stopping.{stop_outcome, Fails, Succeeds}

abbrev answers : {A : Type 0} → A → Action (List Text) Error A
answers a calls = (ok a, calls)

-- Every provider works, and notes its call.
abbrev noted : {A : Type 0} → Text → A → Action (List Text) Error A
noted call a calls = (ok a, call ∷ calls)

abbrev pub vms : Plane (List Text)
vms = record {
  default_backend = codes "vm";
  has_backend = λ name. name == codes "vm";
  create = λ b spec. noted (codes "create") (some (codes "10.0.0.9"));
  start = λ b spec. noted (codes "start") (some (codes "10.0.0.9"));
  stop = λ b id. noted (codes "stop") tt;
  destroy = λ b id. noted (codes "destroy") tt;
  exec = λ b id cmd. noted (codes "exec") (record { exit_code = 0; stdout = []; stderr = [] });
  build_image = λ b spec. noted (codes "build") spec.image;
  image_name = λ b name. name;
  policy_name = codes "none";
  allowed_hosts = [];
  attachment = λ id. [];
  egress_boot = λ id. [];
  unregister = λ id ip. noted (codes "unregister") tt;
  access_boot = λ id. [];
  ssh_host = λ id ip. none;
  ssh_jump = λ id. none;
  sync = λ inst. noted (codes "sync") tt;
  deregister = λ id. noted (codes "deregister") tt;
  base_domain = codes "cawl.test";
  auth_host = codes "auth";
  ca = none;
  ssh_user = codes "dev";
  default_quota = none;
  digest = λ template args. template;
  regex = λ pattern value. true;
  token_hex = answers (codes "00ff");
  read_host_pubkey = [];
  host_cert_script = λ cert. cert;
}

abbrev live : World (List Text)
live = record { store = Tests.running; outside = [] }

abbrev unused : World (List Text)
unused = record { store = blank; outside = [] }

-- `acme` has expired.
abbrev stale : World (List Text)
stale = record {
  store = record blank {
    rows = record acme_row { status = Status.ready; expires_at = some 50 } ∷ [];
  };
  outside = [];
}

abbrev stranger : Principal
stranger = record { id = codes "eve"; role = Role.user }

found : get (codes "acme") Tests.running ≡ some (to_environment running_row Tests.running)
unfolding get
found = ap (environment_of Tests.running) running_found

perform_denied_example :
    perform vms Call.stop (codes "acme") stranger live
    ≡ (err (permission_denied (codes "eve")), live)
unfolding is_owner to_environment ◌==◌ fill new_row
perform_denied_example =
    perform_denied vms Call.stop (codes "acme") stranger live
      (to_environment running_row Tests.running) found refl refl

perform_missing_example :
    perform vms Call.destroy (codes "ghost") stranger unused
    ≡ (err (not_found (codes "ghost")), unused)
unfolding get find_row
perform_missing_example =
    perform_missing vms Call.destroy (codes "ghost") stranger unused (inl refl)

tear_down_outcome_example :
    let (r, w') = tear_down vms (to_environment running_row Tests.running) live in
    ((r ≡ ok tt) × (w'.store ≡ delete (codes "acme") Tests.running))
    ⊎ ((e : Error) × (r ≡ err e)
        × TornDown Tests.running (to_environment running_row Tests.running) w'.store)
unfolding to_environment fill new_row
tear_down_outcome_example = tear_down_outcome vms (to_environment running_row Tests.running) live

reap_deletes_example :
    (codes "acme" ∷ [] ≡ ids_of (expired 500 stale.store))
    × ((reap vms system 500 stale).1.store ≡ delete_all (codes "acme" ∷ []) stale.store)
unfolding reap reap_each tear_down delete expired to_environment find_row save_row ◌==◌ fill new_row
    require_admin
reap_deletes_example = reap_deletes vms system 500 stale (codes "acme" ∷ []) refl

expiry_for_capped_example : (t : ℕ) × (some 460 ≡ some t) × (t ≤ 100 + 360)
unfolding expiry_for capped parse_ttl compute_expiry span normalize decimal_from ◌==◌
expiry_for_capped_example = expiry_for_capped 100 360 (some (codes "2h")) none (some 460) refl

stop_outcome_example :
    let w : World (List Text) = record {
      store = (begin_operation (codes "acme") Kind.stop (Status.ready ∷ []) Status.stopping idle).1;
      outside = [];
    } in
    let (r, w') = stopping vms (codes "acme") stopped_claim w in
    ((e : Error) × Fails vms stopped_claim [] e
      × (r ≡ err (stop_failed (codes "acme") e))
      × ((q : Row) × (find_row (codes "acme") w'.store.rows ≡ some q)
          × (q.status ≡ Status.ready)
          × (q.failure ≡ some e)
          × (q.active_operation ≡ none)))
    ⊎ (Succeeds vms stopped_claim []
        × ((q : Row) × (find_row (codes "acme") w'.store.rows ≡ some q)
            × (q.status ≡ Status.stopped)
            × (q.vm_ip ≡ none)
            × (q.active_operation ≡ none)))
unfolding begin_operation begun find_row save_row ◌==◌ to_environment lookup fill new_row
stop_outcome_example = stop_outcome vms idle [] stopped_claim 3 refl refl
