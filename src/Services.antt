-- ===== src/Services.antt =====
-- server/environments/services.py: the providers of a deployment, from its settings.
use cawl.Prelude.{
  Bool, Text, List, Result, any, if◌then◌else◌, put, codes, nat_beq, not, ◌==◌, [], drop, err, ok,
  ◌∷◌, false, ◌||◌, true,
}
use cawl.Ingress.{TraefikIngress}
use cawl.Certificates.{filled_lines, split_at}
use cawl.Params.Patterns.{span, is_space}
use cawl.Errors.{Error, improperly_configured}
use cawl.Params.{empty_text}
use cawl.Naming.Labels.{strip}
use cawl.Access.{AccessProvider, bridge_access, jump_access, tailscale_access}
use cawl.Config.{bind_result}

-- The settings that are read here; one that is missing is empty.
pub record Settings : Type 0 where
  pub access : Text
  pub tailscale_authkey : Text
  pub tailnet : Text
  pub tailscale_tags : Text
  pub ssh_jump : Text
  pub runtime : Text
  pub incus_server_cert : Text
  pub extra_backends : Text
  pub public_domain : Text
  pub forward_auth_url : Text
  pub daemon_url : Text
  pub auth_host : Text
  pub traefik_cert_resolver : Text

-- A provider of the code, or a class that the operator installed, by its dotted path.
pub data Provider (A : Type 0) : Type 0 where
  built_in : A → Provider A
  installed : Text → Provider A

-- `Runtime`, by its class, and whether it makes virtual machines.
pub data Backend : Type 0 where
  fake incus : Bool → Backend

abbrev bad : {A : Type 0} → Text → Result Error A
bad setting = err (improperly_configured setting)

abbrev has_dot : Text → Bool
has_dot path = any (λ c. nat_beq c b'.') path

-- `can_load` says that a dotted path names a class of the wanted kind.
module _ (can_load : Text → Bool) where
  -- `_load_class`
  abbrev pub load_class : {A : Type 0} → Text → Text → Result Error (Provider A)
  load_class path setting = if can_load path then ok (installed path) else bad setting

  -- The kind of access where no setting names it.
  abbrev pub inferred_access : Settings → Text
  inferred_access s =
      if not (empty_text s.tailscale_authkey)
      then codes "tailscale"
      else if not (empty_text s.ssh_jump)
      then codes "jump"
      else codes "bridge"

  abbrev pub access_kind : Settings → Text
  access_kind s = if empty_text s.access then inferred_access s else s.access

  abbrev pub tailscale_of : Settings → Result Error (Provider AccessProvider)
  tailscale_of s =
      if empty_text s.tailscale_authkey
      then bad (codes "CAWL_TAILSCALE_AUTHKEY")
      else ok (built_in (tailscale_access s.tailscale_authkey s.tailnet s.tailscale_tags))

  abbrev pub jump_of : Settings → Result Error (Provider AccessProvider)
  jump_of s =
      if empty_text s.ssh_jump
      then bad (codes "CAWL_SSH_JUMP")
      else ok (built_in (jump_access s.ssh_jump))

  abbrev pub access_of : Text → Settings → Result Error (Provider AccessProvider)
  access_of kind s =
      if kind == codes "tailscale"
      then tailscale_of s
      else if kind == codes "jump"
      then jump_of s
      else if kind == codes "bridge"
      then ok (built_in bridge_access)
      else bad (codes "CAWL_ACCESS")

  unfoldable pub build_access : Settings → Result Error (Provider AccessProvider)
  build_access s =
      if has_dot s.access
      then load_class s.access (codes "CAWL_ACCESS")
      else access_of (access_kind s) s

  -- `_builtin_backends`
  abbrev pub pair_of : Backend → Backend → List (Text × Provider Backend)
  pair_of container vm = (codes "container", built_in container) ∷ (codes "vm", built_in vm) ∷ []

  unfoldable pub builtin_backends : Settings → Result Error (List (Text × Provider Backend))
  builtin_backends s =
      if s.runtime == codes "fake"
      then ok (pair_of (fake false) (fake true))
      else if s.runtime == codes "incus_api"
      then (if empty_text s.incus_server_cert
          then bad (codes "CAWL_INCUS_SERVER_CERT")
          else ok (pair_of (incus false) (incus true)))
      else if s.runtime == codes "none"
      then ok []
      else bad (codes "CAWL_RUNTIME")

  -- `name, sep, path = entry.partition("=")`, and its checks; without the separator `path` is empty.
  unfoldable pub extra_entry :
      Text → List (Text × Provider Backend) → Result Error (List (Text × Provider Backend))
  unfolding span strip put
  extra_entry entry extras =
      let (name, after) = span (λ c. not (nat_beq c b'=')) entry in
      let path = drop 1 after in
      if empty_text after || (empty_text (strip is_space name) || not (has_dot path))
      then bad (codes "CAWL_EXTRA_BACKENDS")
      else if can_load (strip is_space path)
      then ok (put (strip is_space name) (installed (strip is_space path)) extras)
      else bad (codes "CAWL_EXTRA_BACKENDS")

  unfoldable pub extra_entries :
      List Text → List (Text × Provider Backend) → Result Error (List (Text × Provider Backend))
  unfolding extra_entry
  extra_entries [] extras = ok extras
  extra_entries (entry ∷ entries) extras =
      bind_result (extra_entry entry extras) (extra_entries entries)

  -- `_extra_backends`
  unfoldable pub extra_backends : Settings → Result Error (List (Text × Provider Backend))
  unfolding extra_entries filled_lines split_at
  extra_backends s =
      extra_entries (filled_lines (split_at (λ c. nat_beq c b',') s.extra_backends)) []

  -- `{**_builtin_backends(), **_extra_backends()}`
  unfoldable pub merged :
      List (Text × Provider Backend)
      → List (Text × Provider Backend)
      → List (Text × Provider Backend)
  unfolding put
  merged backends [] = backends
  merged backends ((name, backend) ∷ extras) = merged (put name backend backends) extras

  unfoldable pub get_backends : Settings → Result Error (List (Text × Provider Backend))
  unfolding builtin_backends extra_backends merged
  get_backends s =
      bind_result (builtin_backends s)
        (λ backends. bind_result (extra_backends s) (λ extras. ok (merged backends extras)))

abbrev pub build_ingress : Settings → TraefikIngress
build_ingress s = record {
  base_domain = s.public_domain;
  forward_auth_url = s.forward_auth_url;
  daemon_url = s.daemon_url;
  auth_host = s.auth_host;
  cert_resolver = s.traefik_cert_resolver;
}
