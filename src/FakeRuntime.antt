-- ===== src/FakeRuntime.antt =====
-- server/cawl_core/runtime/fake.py: the runtime without machines, in memory.
use cawl.Prelude.{
  Bool, List, Option, Text, lookup, put, ◌++◌, [], codes, if◌then◌else◌, pop, select, some, suc, ℕ,
  ◌∷◌, any, contains, none, not, true, ◌==◌, nat_beq, ◌&&◌, false,
}
use cawl.Control.Plane.{InstanceSpec, ExecResult}
use cawl.Ingress.{show}
use cawl.Params.{empty_text}

-- `InstanceInfo`
pub record InstanceInfo : Type 0 where
  pub ip : Option Text
  pub status : Text

-- The state of `FakeRuntime`. What `egress_ready` is called with, the hosts and the address, is
-- noted in `ready`.
pub record FakeRuntime : Type 0 where
  pub vm : Bool
  pub instances : List (Text × Text)
  pub specs : List (Text × InstanceSpec)
  pub images : List Text
  pub execs : List (Text × List Text)
  pub stopped : List Text
  pub booted : List Text
  pub host_pubkey : Text
  pub next_ip : ℕ
  pub ready : List (List Text × Text)

-- `ref if "/" in name`
abbrev with_prefix : Text → Text
with_prefix name = if any (λ c. nat_beq c b'/') name then name else codes "fake/" ++ name

unfoldable pub image_name : Text → FakeRuntime → Text
image_name name r = with_prefix name ++ (if r.vm then codes "-vm" else [])

abbrev add_name : Text → List Text → List Text
add_name name names = if contains names name then names else name ∷ names

abbrev without_name : Text → List Text → List Text
without_name name names = select (λ n. not (n == name)) names

unfoldable pub build_image : InstanceSpec → FakeRuntime → Text × FakeRuntime
build_image spec r = (spec.image, record r { images = add_name spec.image r.images })

unfoldable pub next_address : FakeRuntime → Text
unfolding show
next_address r = codes "10.0.0." ++ show r.next_ip

abbrev told : Option (List Text) → Text → List (List Text × Text) → List (List Text × Text)
told none ip calls = calls
told (some hosts) ip calls = calls ++ ((hosts, ip) ∷ [])

abbrev running : Text → InstanceInfo
running ip = record { ip = some ip; status = codes "running" }

unfoldable pub create : InstanceSpec → FakeRuntime → InstanceInfo × FakeRuntime
unfolding next_address put
create spec r =
    let ip = next_address r in
    (
      running ip,
      record r {
        instances = put spec.id ip r.instances;
        specs = put spec.id spec r.specs;
        next_ip = suc r.next_ip;
        ready = told spec.egress_ready ip r.ready;
      },
    )

unfoldable pub stop : Text → FakeRuntime → FakeRuntime
stop id r = record r { instances = pop id r.instances; stopped = add_name id r.stopped }

-- A start gives a fresh address.
unfoldable pub start : InstanceSpec → FakeRuntime → InstanceInfo × FakeRuntime
unfolding next_address put
start spec r =
    let ip = next_address r in
    (
      running ip,
      record r {
        instances = put spec.id ip r.instances;
        specs = put spec.id spec r.specs;
        stopped = without_name spec.id r.stopped;
        booted = r.booted ++ (spec.id ∷ []);
        next_ip = suc r.next_ip;
        ready = told spec.egress_ready ip r.ready;
      },
    )

unfoldable pub destroy : Text → FakeRuntime → FakeRuntime
destroy id r = record r { instances = pop id r.instances; stopped = without_name id r.stopped }

abbrev same_words : List Text → List Text → Bool
same_words [] [] = true
same_words (v ∷ vs) (w ∷ ws) = (v == w) && same_words vs ws
same_words _ _ = false

unfoldable pub spaced : List Text → Text
spaced [] = []
spaced (w ∷ []) = w
spaced (v ∷ w ∷ ws) = v ++ (32 ∷ spaced (w ∷ ws))

abbrev answered : Text → ExecResult
answered out = record { exit_code = 0; stdout = out ++ (10 ∷ []); stderr = [] }

-- `read_pubkey` is the command that reads the host key of a box.
unfoldable exec_at : Option Text → Text → List Text → List Text → FakeRuntime → ExecResult
unfolding spaced
exec_at none id cmd read_pubkey r = record {
  exit_code = 1;
  stdout = [];
  stderr = codes "no such instance: " ++ id;
}
exec_at (some ip) id cmd read_pubkey r =
    if not (empty_text r.host_pubkey) && same_words cmd read_pubkey
    then answered r.host_pubkey
    else answered (codes "ran: " ++ spaced cmd)

unfoldable pub exec : Text → List Text → List Text → FakeRuntime → ExecResult × FakeRuntime
unfolding exec_at lookup
exec id cmd read_pubkey r = (
  exec_at (lookup id r.instances) id cmd read_pubkey r,
  record r { execs = r.execs ++ ((id, cmd) ∷ []) },
)

abbrev info_at : Option Text → InstanceInfo
info_at none = record { ip = none; status = codes "unknown" }
info_at (some ip) = running ip

unfoldable pub info : Text → FakeRuntime → InstanceInfo
unfolding lookup
info id r = info_at (lookup id r.instances)
