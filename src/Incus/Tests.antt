-- ===== src/Incus/Tests.antt =====
-- The theorems about Incus at a small server: a clock that counts the requests too, and an address
-- that is there from the third second on.
use native.Mathlib.Nat.{le_refl}
use cawl.Incus.{
  IncusApiRuntime, Failure, Line, Document, Address, no_metadata, other, ask, exchange, sync,
  with_project,
}
use cawl.Incus.Registration.{create-Ordered, Ordered}
use cawl.Incus.Waiting.{KeepsTime, wait_for_ip-Arrives, later, arrived, Ends}
use cawl.Incus.Reported.{first_ipv4-IsReported, IsReported}
use cawl.Control.Plane.{InstanceSpec}
use cawl.Prelude.{
  List, Text, codes, ℕ, Result, [], false, lookup, ◌∷◌, err, none, ok, some, ◌+◌, ◌==◌,
  if◌then◌else◌, leb, refl, ◌≡◌, true, arith,
}
use cawl.FakeRuntime.{InstanceInfo}
use cawl.Incus.Addresses.{first_ipv4, first_other}
use cawl.Incus.Commands.{rest, has_ip, info}
use cawl.Incus.Boxes.{wait_for_ip, create}

abbrev eth0 : List (Text × List Address)
eth0 =
    (
      codes "docker0",
      record { address = codes "172.17.0.1"; family = codes "inet"; scope = codes "global" } ∷ [],
    )
    ∷ (
      codes "eth0",
      record { address = codes "10.0.0.7"; family = codes "inet"; scope = codes "global" } ∷ [],
    )
    ∷ []

abbrev answer : List (Text × List Address) → Document
answer net = record {
  kind = codes "sync";
  error = [];
  error_code = none;
  operation = [];
  metadata = record no_metadata { network = net; exit_code = some 0 };
}

-- The payload is the time of the request.
abbrev read_time : Text → Result Failure Document
read_time [] = err (other [])
read_time (t ∷ s) = ok (answer (if leb 3 t then eth0 else []))

abbrev server : IncusApiRuntime ℕ
server = record {
  project = codes "default";
  image_prefix = codes "cawl";
  timeout = 300;
  vm = false;
  send = λ method path body t. (ok (200, t ∷ []), t);
  loads = read_time;
  now = λ t. t;
  sleep = λ t. t + 1;
  register = λ hosts ip t. (ok tt, t);
}

abbrev ticking : KeepsTime server
ticking = record { sleeps = λ t. le_refl _; sends = λ method path body t. le_refl _ }

abbrev at : ℕ → Line ℕ
at t = record { outside = t; calls = [] }

abbrev box : InstanceSpec
box = record {
  id = codes "demo";
  template = codes "web";
  image = codes "cawl/web";
  provision = codes "true";
  build = [];
  authorized_keys = [];
  ssh_ca_pubkey = [];
  ssh_user = codes "dev";
  network_boot = [];
  egress_network = codes "isolated";
  egress_boot = [];
  egress_ready = some (codes "example.com" ∷ []);
}

create-Ordered_example : Ordered (create server box (at 0)).1.calls
create-Ordered_example = create-Ordered server box (codes "example.com" ∷ []) (at 0) refl tt

first_ipv4-IsReported_example : IsReported (codes "10.0.0.7") eth0
unfolding first_ipv4 lookup first_other ◌==◌
first_ipv4-IsReported_example = first_ipv4-IsReported (codes "10.0.0.7") eth0 refl

abbrev reported : List (Text × List Address) → InstanceInfo
reported net = record { ip = first_ipv4 net; status = codes "unknown" }

abbrev after_info : Line ℕ → Line ℕ
after_info l = (info server (codes "demo") l).1

abbrev round : Line ℕ → Line ℕ
round l = after_info (rest server l)

wait_for_ip-Arrives_example :
    (j : InstanceInfo) × (m : Line ℕ) × (has_ip j ≡ true)
    × Ends server box.egress_ready j m (wait_for_ip server box (at 1))
unfolding info sync ask exchange with_project first_ipv4 first_other lookup ◌==◌
wait_for_ip-Arrives_example =
    wait_for_ip-Arrives server ticking box (reported []) (at 1) (after_info (at 1)) refl (
      later (reported []) (reported []) (after_info (at 1)) (round (after_info (at 1)))
        (omega arith) refl
        (later (reported []) (reported eth0) (round (after_info (at 1)))
          (round (round (after_info (at 1)))) (omega arith) refl
          (arrived (reported eth0) (round (round (after_info (at 1)))) refl)))
