-- ===== src/Control/Jobs.antt =====
-- The parts of `up`, `stop`, `start` and `destroy` that work on a box: `try` blocks that change the
-- environment object as they go, so that their handlers see how far they came.
use cawl.Prelude.{
  lookup, Action, Bool, List, Option, Text, none, not, ok, ◌>>=◌, ◌==◌, [], all, codes, contains,
  if◌then◌else◌, nat_beq, ◌∷◌, ◌&&◌, select, some, ◌>>◌, pure, raise_if, lift,
}
use cawl.Control.Plane.{
  Control, Plane, World, Authority, ExecResult, TemplateConfig, on_outside, on_store, unit,
  InstanceSpec, backend_of,
}
use cawl.Models.{Environment}
use cawl.Errors.{Error, host_key_unreadable, unconfigured_egress, host_cert_rejected}
use cawl.Params.Templates.{render}
use cawl.Store.Lifecycle.{complete_operation}
use cawl.Params.Patterns.{is_space}

-- What such a block works on: the world, the environment object, and the flag `runtime_created`.
pub record Job (X : Type 0) : Type 0 where
  pub world : World X
  pub inst : Environment
  pub runtime_created : Bool

abbrev pub Work : Type 0 → Type 0 → Type 0
Work X A = Action (Job X) Error A

module _ {X A : Type 0} where
  -- A step that leaves the object alone.
  abbrev pub in_world : Control X A → Work X A
  in_world m j = let (r, w) = m j.world in (r, record j { world = w })

abbrev pub set_inst : {X : Type 0} → (Environment → Environment) → Work X (Unit {0})
set_inst f j = (ok tt, record j { inst = f j.inst })

abbrev pub this : {X : Type 0} → Work X Environment
this j = (ok j.inst, j)

-- `complete_operation` on the object, which loses its operation where that is accepted.
unfoldable pub complete : {X : Type 0} → Bool → Work X Bool
complete succeeded = do
  inst ← this
  answer ← in_world (on_store (complete_operation inst succeeded))
  set_inst (λ i. answer.1)
  pure answer.0

module _ {X : Type 0} (plane : Plane X) where
  abbrev host_names : Option Text → Text → List Text
  host_names none id = id ∷ []
  host_names (some []) id = id ∷ []
  host_names (some (c ∷ host)) id = if (c ∷ host) == id then id ∷ [] else (c ∷ host) ∷ id ∷ []

  abbrev exit_ok : ExecResult → Bool
  exit_ok r = nat_beq r.exit_code 0

  abbrev has_output : ExecResult → Bool
  has_output r = not (all is_space r.stdout)

  abbrev certify : Environment → Authority X → Text → Control X (Unit {0})
  certify inst ca backend = do
    key ← on_outside (plane.exec backend inst.id plane.read_host_pubkey)
    raise_if (not (exit_ok key && has_output key)) (host_key_unreadable inst.id)
    cert ←
        on_outside
          (ca.sign_host key.stdout inst.id (host_names (plane.ssh_host inst.id inst.vm_ip) inst.id))
    res ←
        on_outside
          (plane.exec backend inst.id (codes "sh" ∷ codes "-c" ∷ plane.host_cert_script cert ∷ []))
    raise_if (not (exit_ok res)) (host_cert_rejected inst.id)

  -- `_install_host_cert`
  unfoldable pub install_host_cert : Environment → Control X (Unit {0})
  install_host_cert inst = elim plane.ca [
    | none ↦ unit
    | some ca ↦ λ w. (backend_of plane inst >>= certify inst ca) w
  ]

  abbrev pub has_target : Environment → Control X (Unit {0})
  has_target inst = elim inst.ssh [ none ↦ unit | some target ↦ install_host_cert inst ]

  -- `_hook_values`: an argument named like a built-in takes its place.
  abbrev pub or_arg : Text → List (Text × Text) → Text → Text × Text
  or_arg name args own = elim (lookup name args) [ none ↦ (name, own) | some v ↦ (name, v) ]

  abbrev pub is_builtin : Text × Text → Bool
  is_builtin a = contains (codes "id" ∷ codes "template" ∷ []) a.0

  abbrev pub values_with : Text → Text → List (Text × Text) → List (Text × Text)
  values_with id template args =
      or_arg (codes "id") args id
      ∷ or_arg (codes "template") args template
      ∷ select (λ a. not (is_builtin a)) args

  abbrev hook_values : Environment → List (Text × Text)
  hook_values inst = values_with inst.id inst.template inst.args

  abbrev ca_pubkey_of : Option (Authority X) → Text
  ca_pubkey_of none = []
  ca_pubkey_of (some ca) = ca.pubkey

  abbrev or_empty : Option Text → Text
  or_empty none = []
  or_empty (some t) = t

  abbrev unknown_policy : Environment → Bool
  unknown_policy inst =
      not (inst.egress_policy == []) && not (inst.egress_policy == plane.policy_name)

  abbrev ready_hosts : Option (List Text)
  ready_hosts = if plane.policy_name == codes "none" then none else some plane.allowed_hosts

  -- `_spec_for`
  unfoldable pub spec_for : Environment → TemplateConfig → List Text → Control X InstanceSpec
  unfolding render
  spec_for inst template keys = do
    raise_if (unknown_policy inst) (unconfigured_egress inst.egress_policy)
    provision ← lift (render template.provision_hook (hook_values inst))
    pure (record {
      id = inst.id;
      template = template.name;
      image = or_empty inst.image;
      provision = provision;
      build = [];
      authorized_keys = keys;
      ssh_ca_pubkey = ca_pubkey_of plane.ca;
      ssh_user = plane.ssh_user;
      network_boot = plane.access_boot inst.id;
      egress_network = plane.attachment inst.id;
      egress_boot = plane.egress_boot inst.id;
      egress_ready = ready_hosts;
    })
