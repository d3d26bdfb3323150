-- ===== src/Control/Access.antt =====
-- The operations of `ControlPlane` that use, share or expose an environment that exists.
use cawl.Control.Plane.{
  Plane, Control, Authority, ExecResult, get_or_404, backend_of, on_outside, on_store,
  sync_exposures, require_label_free, with_target,
}
use cawl.Prelude.{
  Result, Text, List, Option, err, ℕ, ◌∷◌, ◌>>=◌, [], or_raise, select, some, none, not, ok, ◌>>◌,
  ◌==◌, lift, pure, raise_if, ltb, ◌&&◌, if◌then◌else◌, gets, map,
}
use cawl.Naming.Labels.{normalize, validate_exposure_label}
use cawl.Errors.{
  Error, no_address, value_error, invalid_name, no_authority, already_owner, no_exposure,
  not_shared, invalid_port,
}
use cawl.Auth.{Principal, require_access, require_owner, is_admin}
use cawl.Models.{Environment}
use cawl.Store.Capabilities.{remove_exposure, revoke, grant, set_exposure}
use cawl.Store.Listing.{list}

-- Everything a client needs for one SSH session.
pub record SshAccess : Type 0 where
  pub host : Text
  pub user : Text
  pub certificate : Text
  pub ca_pubkey : Text
  pub jump : Option Text

-- `(a.strip().lower() for a in access if a.strip())` without repetitions, the first kept.
unfoldable add_email : Text → List Text → List Text
add_email [] seen = seen
add_email (c ∷ e) seen = (c ∷ e) ∷ select (λ x. not (x == (c ∷ e))) seen

unfoldable emails_of : List Text → List Text
unfolding add_email normalize
emails_of [] = []
emails_of (a ∷ access) = add_email (normalize a) (emails_of access)

-- `raise InvalidName(str(e)) from e`
abbrev pub as_invalid_name : Result Error Text → Result Error Text
as_invalid_name (err (value_error raw)) = err (invalid_name raw)
as_invalid_name r = r

module _ {X : Type 0} (plane : Plane X) where
  unfoldable pub status : Text → Principal → Control X Environment
  status id actor = do inst ← get_or_404 plane id; lift (require_access actor inst); pure inst

  -- `ls`, with its filters: template, owner, and whom the environments are visible to. The last is
  -- the caller's own id unless the caller is an admin.
  unfoldable pub ls :
      Option Text → Option Text → Option Text → Principal → Control X (List Environment)
  ls template owner visible_to actor =
      let viewer = if is_admin actor then visible_to else some actor.id in
      gets (λ w. map (with_target plane) (list template owner viewer w.store))

  unfoldable pub exec : Text → Principal → List Text → Control X ExecResult
  exec id actor cmd = do
    inst ← get_or_404 plane id
    lift (require_access actor inst)
    backend ← backend_of plane inst
    on_outside (plane.exec backend id cmd)

  abbrev pub authority : Control X (Authority X)
  authority = or_raise plane.ca no_authority

  abbrev reachable : Text → Option Text → Result Error Text
  reachable id none = err (no_address id)
  reachable id (some []) = err (no_address id)
  reachable id (some (c ∷ host)) = ok (c ∷ host)

  unfoldable pub ssh : Text → Principal → Text → Control X SshAccess
  ssh id actor public_key = do
    inst ← get_or_404 plane id
    lift (require_access actor inst)
    ca ← authority
    host ← lift (reachable id (plane.ssh_host inst.id inst.vm_ip))
    certificate ← on_outside (ca.sign_user public_key inst.id actor.id)
    pure (record {
      host = host;
      user = plane.ssh_user;
      certificate = certificate;
      ca_pubkey = ca.pubkey;
      jump = plane.ssh_jump inst.id;
    })

  unfoldable pub share : Text → Principal → Text → Control X Environment
  share id actor principal = do
    inst ← get_or_404 plane id
    lift (require_owner actor inst)
    raise_if (principal == inst.owner) (already_owner id)
    on_store (grant id principal actor.id)
    get_or_404 plane id

  unfoldable pub unshare : Text → Principal → Text → Control X Environment
  unshare id actor principal = do
    inst ← get_or_404 plane id
    lift (require_owner actor inst)
    revoked ← on_store (revoke id principal)
    raise_if (not revoked) (not_shared id principal)
    get_or_404 plane id

  abbrev chosen : Option Text → Environment → Text
  chosen none inst = inst.id
  chosen (some name) inst = name

  unfoldable pub expose : Text → Principal → ℕ → Option Text → List Text → Control X Environment
  unfolding emails_of
  expose id actor port name access = do
    inst ← get_or_404 plane id
    lift (require_owner actor inst)
    label ← lift (as_invalid_name (validate_exposure_label (chosen name inst)))
    raise_if (not (ltb 0 port && ltb port 65536)) (invalid_port port)
    require_label_free plane label inst.id
    on_store
        (set_exposure inst.id (record { name = label; port = port; access = emails_of access }))
    sync_exposures plane inst.id

  unfoldable pub unexpose : Text → Principal → Text → Control X Environment
  unexpose id actor name = do
    inst ← get_or_404 plane id
    lift (require_owner actor inst)
    removed ← on_store (remove_exposure inst.id name)
    raise_if (not removed) (no_exposure id name)
    sync_exposures plane inst.id
