-- ===== src/Incus/Boxes.antt =====
-- The operations of `IncusApiRuntime` on boxes. The loops end at a deadline by the clock, and sleep
-- for a second each round: their fuel is a round for every second left.
use cawl.Incus.{Call, not_found}
use cawl.Incus.{
  IncusApiRuntime, Body, Calling, Failure, op, Metadata, api, exchange, instance_of, builder_of,
  publish,
}
use cawl.Prelude.{
  List, Text, ◌++◌, Option, codes, if◌then◌else◌, ◌∷◌, ◌>>◌, any, false, nat_beq, pure, ℕ, [], none,
  raise, some, suc, ◌>>=◌, gets, not, true, ◌&&◌, ◌+◌, ltb, ok, zero, try,
}
use cawl.Control.Plane.{InstanceSpec}
use cawl.Incus.Commands.{info, sh, sh_unless_empty, instance_path, has_ip, time, min60, rest}
use cawl.Sshd.{lines, trust_script}
use cawl.FakeRuntime.{InstanceInfo}
use cawl.Params.Templates.{quote}

abbrev pub ready_loop : Text
ready_loop =
    codes "for i in $(seq 1 60); do docker info >/dev/null 2>&1 "
    ++ codes "&& exit 0; sleep 1; done; echo 'docker not ready' >&2; exit 1"

abbrev in16 : Text → Text
in16 l = codes "                " ++ l

abbrev pub seed_keys : List Text → Text
seed_keys keys = lines (
    codes "set -e"
    ∷ in16 (codes "u=dev")
    ∷ in16 (codes "install -d -m700 -o \"$u\" -g \"$u\" /home/\"$u\"/.ssh")
    ∷ in16 (
        codes "printf '%s\\n' "
        ++ (quote (lines keys) ++ codes " >> /home/\"$u\"/.ssh/authorized_keys"))
    ∷ in16 (codes "chown \"$u\":\"$u\" /home/\"$u\"/.ssh/authorized_keys")
    ∷ codes "            "
    ∷ [])

module _ {X : Type 0} (incus : IncusApiRuntime X) where
  unfoldable pub image_name : Text → Text
  image_name name =
      (if any (λ c. nat_beq c b'/') name then name else incus.image_prefix ++ (b'/' ∷ name))
      ++ (if incus.vm then codes "-vm" else [])

  -- `_type_and_config`, whose configuration has one entry
  unfoldable pub type_and_config : Text × (Text × Text)
  type_and_config =
      if incus.vm
      then (codes "virtual-machine", (codes "security.secureboot", codes "false"))
      else (codes "container", (codes "security.nesting", codes "true"))

  -- The steps of `_boot`: the script of the access provider, that of the egress provider, waiting
  -- for Docker, and the hook of the template.
  abbrev pub joined : InstanceSpec → Calling incus (Unit {0})
  joined spec = sh_unless_empty incus spec.id (λ s. s) spec.network_boot

  abbrev pub connected : InstanceSpec → Calling incus (Unit {0})
  connected spec = sh_unless_empty incus spec.id (λ s. s) spec.egress_boot

  abbrev pub hooked : InstanceSpec → Calling incus (Unit {0})
  hooked spec = sh_unless_empty incus spec.id (λ s. codes "set -e\n" ++ s) spec.provision

  abbrev pub docked : InstanceSpec → Calling incus (Unit {0})
  docked spec = sh incus spec.id ready_loop >> hooked spec

  -- `_boot`
  unfoldable pub boot : InstanceSpec → Calling incus (Unit {0})
  unfolding sh
  boot spec = do joined spec; connected spec; docked spec

  abbrev pub seeded : Text → List Text → Calling incus (Unit {0})
  seeded id [] = pure tt
  seeded id (k ∷ keys) = sh incus id (seed_keys (k ∷ keys))

  abbrev pub trusting : InstanceSpec → Calling incus (Unit {0})
  trusting spec =
      sh_unless_empty incus spec.id (λ ca. trust_script ca spec.id spec.ssh_user) spec.ssh_ca_pubkey

  -- `_provision`
  unfoldable pub provision : InstanceSpec → Calling incus (Unit {0})
  unfolding sh boot
  provision spec = do seeded spec.id spec.authorized_keys; trusting spec; boot spec

  -- The loop of `_wait_for_ip`.
  unfoldable pub poll : ℕ → ℕ → Text → InstanceInfo → Calling incus InstanceInfo
  unfolding info
  poll zero deadline id i = pure i
  poll (suc fuel) deadline id i =
      let again = info incus id >>= poll fuel deadline id in
      λ l. if not (has_ip i) && ltb (time incus l) deadline then again (rest incus l) else (ok i, l)

  -- `spec.egress_ready(ip)`
  abbrev pub told : List Text → Text → Calling incus (Unit {0})
  told hosts ip l =
      let (r, x) = incus.register hosts ip l.outside in
      (r, record l { outside = x; calls = Call.registered ip ∷ l.calls })

  abbrev pub no_address : Failure
  no_address =
      api
        (codes "started instance has no workload IP after 60 seconds; "
          ++ codes "check its Incus NIC and DHCP network")
        none

  abbrev pub settled_at : List Text → Option Text → InstanceInfo → Calling incus InstanceInfo
  settled_at hosts none i = raise no_address
  settled_at hosts (some []) i = raise no_address
  settled_at hosts (some (c ∷ ip)) i = told hosts (c ∷ ip) >> pure i

  abbrev pub settled : Option (List Text) → InstanceInfo → Calling incus InstanceInfo
  settled none i = pure i
  settled (some hosts) i = settled_at hosts i.ip i

  -- `_wait_for_ip`
  unfoldable pub wait_for_ip : InstanceSpec → Calling incus InstanceInfo
  unfolding info poll
  wait_for_ip spec = do
    i ← info incus spec.id
    deadline ← gets (λ l. time incus l + min60 incus.timeout)
    i' ← poll (suc (min60 incus.timeout)) deadline spec.id i
    settled spec.egress_ready i'

  abbrev pub put_state : Text → Body → Calling incus Metadata
  put_state id body = op incus (codes "PUT") (instance_path id (codes "/state")) (some body)

  abbrev pub starting : Body
  starting = Body.state (codes "start") incus.timeout false

  -- Its network interface is overridden where the box has an egress network.
  abbrev pub new_instance : InstanceSpec → Body
  new_instance spec =
      instance_of spec.id type_and_config.0 spec.image type_and_config.1 spec.egress_network

  unfoldable pub create : InstanceSpec → Calling incus InstanceInfo
  unfolding op type_and_config wait_for_ip provision
  create spec = do
    op incus (codes "POST") (codes "/1.0/instances") (some (new_instance spec))
    put_state spec.id starting
    i ← wait_for_ip spec
    provision spec
    pure i

  unfoldable pub start : InstanceSpec → Calling incus InstanceInfo
  unfolding op wait_for_ip boot
  start spec = do put_state spec.id starting; i ← wait_for_ip spec; boot spec; pure i

  unfoldable pub stop : Text → Calling incus (Unit {0})
  unfolding op
  stop id = do put_state id (Body.state (codes "stop") 30 false); pure tt

  unfoldable pub destroy : Text → Calling incus (Unit {0})
  unfolding op not_found
  destroy id =
      try (op incus (codes "DELETE") (instance_path id (codes "?force=1")) none) (λ m. pure tt)
        (λ e. if not_found e then pure tt else raise e)

  abbrev dashed : Text → Text
  dashed [] = []
  dashed (c ∷ s) = (if nat_beq c b'/' then b'-' else c) ∷ dashed s

  abbrev builder_name : Text → Text
  builder_name image = dashed image ++ codes "-builder"

  abbrev baked : Text → Text → Calling incus (Unit {0})
  baked builder [] = pure tt
  baked builder (c ∷ build) = do
    sh incus builder (codes "until docker info >/dev/null 2>&1; do sleep 1; done")
    sh incus builder (codes "set -e\n" ++ (c ∷ build))

  unfoldable pub build_image : InstanceSpec → Calling incus Text
  unfolding op exchange type_and_config sh
  build_image spec = do
    let builder = builder_name spec.image
    op incus (codes "POST") (codes "/1.0/instances")
        (some (builder_of builder type_and_config.0 type_and_config.1))
    put_state builder starting
    baked builder spec.build
    put_state builder (Body.state (codes "stop") 30 true)
    exchange incus (codes "DELETE") (codes "/1.0/images/aliases/" ++ spec.image) none
    op incus (codes "POST") (codes "/1.0/images") (some (publish builder spec.image))
    op incus (codes "DELETE") (instance_path builder []) none
    pure spec.image
