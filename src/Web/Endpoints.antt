-- ===== src/Web/Endpoints.antt =====
-- api.py: the operations on environments, each of which reads the database, calls the control plane,
-- and answers with what it returned. A response is the environment itself.
pub mod Pinned
use cawl.Prelude.{
  Action, List, Option, Result, Text, Bool, some, ℕ, ◌∷◌, [], none, raise, ◌>>=◌, if◌then◌else◌,
  pure, ◌==◌, err, modify, suc, true, ◌>>◌, ok, codes,
}
use cawl.Web.Tokens.{AuthContext, User}
use cawl.Control.Plane.{Control, Plane, World, ExecResult, TemplateConfig}
use cawl.Errors.{
  Error, not_found, not_shared, outside, no_exposure, does_not_exist, permission_denied,
  quota_exceeded, name_conflict, value_error, integrity_error, no_text, no_mapping, no_items,
  improperly_configured,
}
use cawl.Models.{Exposure, Environment}
use cawl.Web.Viewers.Handoff.{MagicToken, magic_link}
use cawl.Web.Templates.{
  Registry, accessible_template, config_for_environment, find_template, Template, config_for,
}
use cawl.Control.Creation.{Request, refresh_image, up}
use cawl.Web.Viewers.{Site}
use cawl.Config.{Parsed, template_config}
use cawl.Ingress.{TraefikIngress, url_for}
use cawl.Control.Lifecycle.{destroy, start, stop}
use cawl.Control.Access.{exec, expose, ls, share, ssh, status, unexpose, unshare, SshAccess}
use cawl.Config.Yaml.{Node}
use cawl.Store.Tables.{Row, find_row}
use cawl.Naming.Labels.{normalize}
use cawl.Auth.{Principal}

-- What the API works on: the world of the control plane, the registry of templates, the emailed
-- links, and the certificates that were signed, each with its environment and the caller.
pub record Api (X : Type 0) : Type 0 where
  pub world : World X
  pub registry : Registry
  pub links : List MagicToken
  pub signed : List (Text × Text)

abbrev pub Endpoint : Type 0 → Type 0 → Type 0
Endpoint X A = Action (Api X) Error A

-- `UpIn` of schemas.py
pub record UpIn : Type 0 where
  pub template : Text
  pub args : List (Text × Text)
  pub name : Option Text
  pub ttl : Option Text
  pub backend : Option Text
  pub reuse : Bool
  pub owner : Option Text

-- The exception handlers: the status by the class of the exception, and 500 where none takes it.
unfoldable pub status_code : Error → ℕ
status_code (not_found id) = 404
status_code (not_shared id principal) = 404
status_code (no_exposure id name) = 404
status_code (permission_denied actor) = 403
status_code (quota_exceeded owner quota) = 409
status_code (name_conflict name) = 409
status_code (value_error text) = 500
status_code (does_not_exist text) = 500
status_code (integrity_error text) = 500
status_code (outside n) = 500
status_code no_text = 500
status_code no_mapping = 500
status_code no_items = 500
status_code (improperly_configured setting) = 500
status_code e = 400

-- A token's backend comes before that of the request.
abbrev pub backend_or : Text → Option Text → Option Text
backend_or [] wanted = wanted
backend_or (c ∷ forced) wanted = some (c ∷ forced)

abbrev pub request_of : AuthContext → UpIn → Request
request_of ctx payload = record {
  args = payload.args;
  name = payload.name;
  ttl = payload.ttl;
  reuse = payload.reuse;
  on_behalf_of = payload.owner;
  quota = ctx.quota;
  max_ttl = ctx.max_ttl;
  backend = backend_or ctx.backend payload.backend;
  authorized_keys = [];
}

abbrev pub name_or_id : Option Text → Text → Text
name_or_id none id = id
name_or_id (some []) id = id
name_or_id (some (c ∷ name)) id = c ∷ name

unfoldable pub exposure_named : Text → List Exposure → Option Exposure
exposure_named label [] = none
exposure_named label (e ∷ es) = if e.name == label then some e else exposure_named label es

-- The part of `ApiToken` and of the deployment that the API is built with.
pub record Deployment (X : Type 0) : Type 0 where
  pub plane : Plane X
  pub site : Site
  pub ingress : TraefikIngress
  pub safe_load : Text → Result Error Node
  pub repr : Node → Text

module _ {X A : Type 0} where
  abbrev pub on_world : Control X A → Endpoint X A
  on_world m api = let (r, w) = m api.world in (r, record api { world = w })

  abbrev pub on_links : Action (List MagicToken) Error A → Endpoint X A
  on_links m api = let (r, links) = m api.links in (r, record api { links = links })

  abbrev pub reading : (Api X → Result Error A) → Endpoint X A
  reading f api = (f api, api)

module _ {X : Type 0} (deployment : Deployment X) (users : List User) where
  abbrev pub plane : Plane X
  plane = deployment.plane

  abbrev pub config_of : Result Error Parsed → Result Error TemplateConfig
  config_of (err e) = err e
  config_of (ok p) = template_config p

  unfoldable pub template_of : Text → Principal → Option Bool → Api X → Result Error TemplateConfig
  unfolding accessible_template config_for
  template_of name principal active api =
      elim (accessible_template name principal active api.registry) [
        | err e ↦ err e
        | ok t ↦ config_of (config_for deployment.safe_load plane.regex deployment.repr t)
      ]

  -- `create`
  unfoldable pub create : AuthContext → UpIn → ℕ → Endpoint X Environment
  unfolding template_of up
  create ctx payload now =
      reading (template_of payload.template ctx.principal (some true)) >>= λ cfg.
      on_world (up plane cfg ctx.principal (request_of ctx payload) now)

  unfoldable pub list_environments : AuthContext → Option Text → Endpoint X (List Environment)
  unfolding ls
  list_environments ctx template = on_world (ls plane template none none ctx.principal)

  unfoldable pub get_environment : AuthContext → Text → Endpoint X Environment
  unfolding status
  get_environment ctx sid = on_world (status plane sid ctx.principal)

  unfoldable pub exec_in : AuthContext → Text → List Text → Endpoint X ExecResult
  unfolding exec
  exec_in ctx sid cmd = on_world (exec plane sid ctx.principal cmd)

  unfoldable pub stop_environment : AuthContext → Text → Endpoint X Environment
  unfolding stop
  stop_environment ctx sid = on_world (stop plane sid ctx.principal)

  -- `start`: the config is that of the version that the environment was launched from.
  unfoldable pub pinned_config : Option Template → ℕ → Registry → Result Error TemplateConfig
  unfolding config_for_environment
  pinned_config none version reg = err (does_not_exist (codes "template"))
  pinned_config (some t) version reg =
      config_of
        (config_for_environment deployment.safe_load plane.regex deployment.repr t version reg)

  unfoldable pub config_of_row : Option Row → Text → Registry → Result Error TemplateConfig
  unfolding pinned_config find_template
  config_of_row none sid reg = err (not_found sid)
  config_of_row (some r) sid reg =
      pinned_config (find_template r.template reg.templates) r.template_version reg

  unfoldable pub start_environment : AuthContext → Text → Endpoint X Environment
  unfolding config_of_row start
  start_environment ctx sid =
      reading (λ api. config_of_row (find_row sid api.world.store.rows) sid api.registry) >>= λ cfg.
      on_world (start plane sid ctx.principal cfg)

  -- `expose`: the URL, and a sign-in link for every address; `fresh` is what `secrets` returns, one
  -- after the other.
  unfoldable pub links_for : List Text → Text → (ℕ → Text) → ℕ → ℕ → Endpoint X (List (Text × Text))
  unfolding magic_link
  links_for [] url fresh n now = pure []
  links_for (email ∷ emails) url fresh n now =
      on_links (magic_link deployment.site users email url (fresh n) now) >>= λ link.
      links_for emails url fresh (suc n) now >>= λ links. pure ((email, link) ∷ links)

  unfoldable pub exposed_links :
      Option Exposure → (ℕ → Text) → ℕ → Endpoint X (Text × List (Text × Text))
  unfolding links_for
  exposed_links none fresh now = raise (outside 0)
  exposed_links (some e) fresh now =
      let url = url_for deployment.ingress e.name in
      links_for e.access url fresh 0 now >>= λ links. pure (url, links)

  unfoldable pub expose_port :
      AuthContext
      → Text
      → ℕ
      → Option Text
      → List Text
      → (ℕ → Text)
      → ℕ
      → Endpoint X (Text × List (Text × Text))
  unfolding expose exposure_named exposed_links normalize
  expose_port ctx sid port name access fresh now =
      on_world (expose plane sid ctx.principal port name access) >>= λ inst.
      exposed_links (exposure_named (normalize (name_or_id name inst.id)) inst.exposures) fresh now

  unfoldable pub unexpose_port : AuthContext → Text → Text → Endpoint X Environment
  unfolding unexpose
  unexpose_port ctx sid name = on_world (unexpose plane sid ctx.principal name)

  -- `ssh_cert`
  unfoldable pub ssh_cert : AuthContext → Text → Text → Endpoint X SshAccess
  unfolding ssh
  ssh_cert ctx sid public_key = on_world (ssh plane sid ctx.principal public_key) >>= λ access.
      modify (λ api. record api { signed = (sid, ctx.principal.id) ∷ api.signed }) >> pure access

  unfoldable pub list_grants : AuthContext → Text → Endpoint X (List Text)
  unfolding status
  list_grants ctx sid = on_world (status plane sid ctx.principal) >>= λ inst. pure inst.shared_with

  unfoldable pub add_grant : AuthContext → Text → Text → Endpoint X Environment
  unfolding share
  add_grant ctx sid principal = on_world (share plane sid ctx.principal principal)

  unfoldable pub remove_grant : AuthContext → Text → Text → Endpoint X Environment
  unfolding unshare
  remove_grant ctx sid principal = on_world (unshare plane sid ctx.principal principal)

  unfoldable pub destroy_environment : AuthContext → Text → Endpoint X (Unit {0})
  unfolding destroy
  destroy_environment ctx sid = on_world (destroy plane sid ctx.principal)

  unfoldable pub refresh : AuthContext → Text → List (Text × Text) → Option Text → Endpoint X Text
  unfolding template_of refresh_image
  refresh ctx template args backend = reading (template_of template ctx.principal none) >>= λ cfg.
      on_world (refresh_image plane cfg ctx.principal args backend)
