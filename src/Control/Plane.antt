-- ===== src/Control/Plane.antt =====
-- The state and collaborators of `ControlPlane`, and the steps that its operations share.
use cawl.Prelude.{
  Action, List, Option, Text, ok, ℕ, Bool, Result, codes, if◌then◌else◌, some, ◌∷◌, ◌++◌, [], any,
  err, false, none, ◌==◌, not, ◌&&◌, ◌>>=◌, ◌>>◌, pure,
}
use cawl.Models.{Environment, Exposure, same_status, Status, dead}
use cawl.Store.Tables.{Store, get}
use cawl.Errors.{Error, name_conflict, not_found, unknown_backend}
use cawl.Params.{Param}
use cawl.Naming.Labels.{exposure_host}
use cawl.Store.Capabilities.{find_exposure}
use cawl.Store.Upsert.{upsert}

-- `ExecResult` and `InstanceSpec` of runtime/base.py.
pub record ExecResult : Type 0 where
  pub exit_code : ℕ
  pub stdout : Text
  pub stderr : Text

pub record InstanceSpec : Type 0 where
  pub id : Text
  pub template : Text
  pub image : Text
  pub provision : Text
  pub build : Text
  pub authorized_keys : List Text
  pub ssh_ca_pubkey : Text
  pub ssh_user : Text
  pub network_boot : Text
  pub egress_network : Text
  pub egress_boot : Text
  -- the hosts that the runtime registers for the address of the box, if there is a policy
  pub egress_ready : Option (List Text)

pub record TemplateConfig : Type 0 where
  pub name : Text
  pub image : Text
  pub params : List (Text × Param)
  pub build_hook : Text
  pub provision_hook : Text
  pub expose : List (Text × ℕ)
  pub ttl : Option Text

-- The certificate authority, where one is configured. Signing runs `ssh-keygen`.
pub record Authority (X : Type 0) : Type 0 where
  pub pubkey : Text
  -- public key, environment, hostnames
  pub sign_host : Text → Text → List Text → Action X Error Text
  -- public key, environment, actor
  pub sign_user : Text → Text → Text → Action X Error Text

-- A deployment: the providers that `ControlPlane.__init__` takes, over the state `X` of the world
-- outside the database. Whatever they do may raise.
pub record Plane (X : Type 0) : Type 0 where
  pub default_backend : Text
  pub has_backend : Text → Bool
  -- `Runtime`, by the name of the backend
  pub create : Text → InstanceSpec → Action X Error (Option Text)
  pub start : Text → InstanceSpec → Action X Error (Option Text)
  pub stop : Text → Text → Action X Error (Unit {0})
  pub destroy : Text → Text → Action X Error (Unit {0})
  pub exec : Text → Text → List Text → Action X Error ExecResult
  pub build_image : Text → InstanceSpec → Action X Error Text
  pub image_name : Text → Text → Text
  -- `EgressProvider`
  pub policy_name : Text
  pub allowed_hosts : List Text
  pub attachment : Text → Text
  pub egress_boot : Text → Text
  pub unregister : Text → Option Text → Action X Error (Unit {0})
  -- `AccessProvider`
  pub access_boot : Text → Text
  pub ssh_host : Text → Option Text → Option Text
  pub ssh_jump : Text → Option Text
  -- `TraefikIngress`
  pub sync : Environment → Action X Error (Unit {0})
  pub deregister : Text → Action X Error (Unit {0})
  pub base_domain : Text
  pub auth_host : Text
  pub ca : Option (Authority X)
  pub ssh_user : Text
  pub default_quota : Option ℕ
  -- what `args_hash`, `re.match` on a template's pattern, and `secrets.token_hex` answer
  pub digest : Text → List (Text × Text) → Text
  pub regex : Text → Text → Bool
  pub token_hex : Action X Error Text
  -- the commands and scripts of runtime/sshd.py
  pub read_host_pubkey : List Text
  pub host_cert_script : Text → Text

pub record World (X : Type 0) : Type 0 where
  pub store : Store
  pub outside : X

abbrev pub Control : Type 0 → Type 0 → Type 0
Control X A = Action (World X) Error A

module _ {X A : Type 0} where
  -- A call of the store, or of a provider.
  abbrev pub on_store : Action Store Error A → Control X A
  on_store m w = let (r, s) = m w.store in (r, record w { store = s })

  abbrev pub on_outside : Action X Error A → Control X A
  on_outside m w = let (r, x) = m w.outside in (r, record w { outside = x })

abbrev pub unit : {X : Type 0} → Control X (Unit {0})
unit w = (ok tt, w)

module _ {X : Type 0} (plane : Plane X) where
  -- `_backend`
  abbrev pub require_backend : Text → Control X Text
  require_backend name w =
      (if plane.has_backend name then ok name else err (unknown_backend name), w)

  abbrev pub or_default : Text → Text
  or_default [] = plane.default_backend
  or_default (c ∷ s) = c ∷ s

  -- `_runtime(inst)`, as the name of the backend
  abbrev pub backend_of : Environment → Control X Text
  backend_of inst = require_backend (or_default inst.backend)

  abbrev login_at : Option Text → Option Text
  login_at none = none
  login_at (some []) = none
  login_at (some (c ∷ host)) = some (plane.ssh_user ++ (b'@' ∷ c ∷ host))

  -- `_ssh_target`
  unfoldable pub ssh_target : Environment → Option Text
  ssh_target inst = login_at (plane.ssh_host inst.id inst.vm_ip)

  abbrev pub with_target : Environment → Environment
  with_target inst = record inst {
    ssh = if same_status inst.status Status.ready then ssh_target inst else none;
  }

  abbrev visible_or_404 : Text → Option Environment → Result Error Environment
  visible_or_404 id none = err (not_found id)
  visible_or_404 id (some inst) =
      if same_status inst.status Status.destroyed then err (not_found id) else ok (with_target inst)

  -- `_get_or_404`
  unfoldable pub get_or_404 : Text → Control X Environment
  unfolding ssh_target
  get_or_404 id w = (visible_or_404 id (get id w.store), w)

  abbrev host_label : Text → Text
  host_label name = exposure_host name plane.base_domain

  abbrev held_by_other : Option (Text × Exposure) → Text → Bool
  held_by_other none id = false
  held_by_other (some (holder, x)) id = not (holder == id)

  abbrev lives_elsewhere : Option Environment → Text → Bool
  lives_elsewhere none id = false
  lives_elsewhere (some other) id = not (dead other.status) && not (other.id == id)

  -- `_require_label_free`
  unfoldable pub require_label_free : Text → Text → Control X (Unit {0})
  require_label_free name id w = (
    if held_by_other (find_exposure name w.store) id
        then err (name_conflict name)
        else if lives_elsewhere (get name w.store) id
        then err (name_conflict name)
        else if plane.auth_host == host_label name
        then err (name_conflict name)
        else ok tt,
    w,
  )

  abbrev url_for : Text → Text
  url_for name = codes "https://" ++ host_label name

  -- `_primary_url`
  abbrev only_url : List Exposure → Option Text
  only_url (e ∷ []) = some (url_for e.name)
  only_url _ = none

  unfoldable pub primary_url : Environment → Option Text
  primary_url inst =
      if any (λ (e : Exposure). e.name == inst.id) inst.exposures
      then some (url_for inst.id)
      else only_url inst.exposures

  -- `_sync_exposures`
  abbrev sync_if_ready : Environment → Control X (Unit {0})
  sync_if_ready inst =
      if same_status inst.status Status.ready then on_outside (plane.sync inst) else unit

  unfoldable pub sync_exposures : Text → Control X Environment
  unfolding get_or_404
  sync_exposures id = do
    found ← get_or_404 id
    let inst = record found { url = primary_url found }
    on_store (upsert inst)
    sync_if_ready inst
    pure inst
