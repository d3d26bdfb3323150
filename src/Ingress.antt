-- ===== src/Ingress.antt =====
-- server/cawl_core/ingress.py, `TraefikIngress`: the routes to the exposures of an environment, as
-- one file for each environment and a shared one, which Traefik watches. A file is replaced in one
-- operation, so it is its document; `safe_dump` writes the document out.
pub mod FailClosed
mod Tests
use cawl.Models.{Environment, Exposure}
use cawl.Prelude.{
  List, Text, [], if◌then◌else◌, ℕ, ◌∷◌, ◌+◌, ◌++◌, Option, codes, none, some, suc, ◌%◌, ◌/◌, ◌||◌,
  ltb, zero, pop, put,
}
use cawl.Params.{empty_text}
use cawl.Naming.Labels.{exposure_host}

pub record Router : Type 0 where
  pub rule : Text
  pub service : Text
  pub middlewares : List Text
  pub priority : Option ℕ
  pub cert_resolver : Text

-- The routers and the servers of the services, by their keys, and where forward-auth asks.
pub record Routes : Type 0 where
  pub routers : List (Text × Router)
  pub services : List (Text × Text)
  pub forward_auth : Option Text

pub record TraefikIngress : Type 0 where
  pub base_domain : Text
  pub forward_auth_url : Text
  pub daemon_url : Text
  pub auth_host : Text
  pub cert_resolver : Text

-- `dynamic_dir`, by file name.
abbrev pub Directory : Type 0
Directory = List (Text × Routes)

abbrev pub cawl_auth : Text
cawl_auth = codes "cawl-auth"

abbrev pub cawl_daemon : Text
cawl_daemon = codes "cawl-daemon"

abbrev host_rule : Text → Text
host_rule host = codes "Host(`" ++ (host ++ codes "`)")

abbrev path_rule : Text → Text → Text
path_rule host prefix = host_rule host ++ (codes " && PathPrefix(`" ++ (prefix ++ codes "`)"))

-- `str` of a number: its decimal digits, the last first in `digits`, on fuel.
abbrev digit_of : ℕ → ℕ
digit_of n = b'0' + n % 10

unfoldable pub digits : ℕ → ℕ → Text → Text
digits zero n after = after
digits (suc fuel) n after =
    let more = digits fuel (n / 10) (digit_of n ∷ after) in
    if ltb n 10 then digit_of n ∷ after else more

-- A port has five digits at most.
unfoldable pub show : ℕ → Text
unfolding digits
show n = digits (suc n) n []

abbrev pub key_of : Text → Exposure → Text
key_of id e = id ++ (b'-' ∷ e.name)

module _ (ingress : TraefikIngress) where
  abbrev pub file_of : Text → Text
  file_of id = id ++ codes ".yml"

  abbrev pub url_for : Text → Text
  url_for name = codes "https://" ++ exposure_host name ingress.base_domain

  -- The route to the box, behind forward-auth.
  abbrev pub app_router : Text → Exposure → Router
  app_router id e = record {
    rule = host_rule (exposure_host e.name ingress.base_domain);
    service = key_of id e;
    middlewares = cawl_auth ∷ [];
    priority = none;
    cert_resolver = ingress.cert_resolver;
  }

  -- The login handoff, which the daemon answers.
  abbrev pub handoff_router : Exposure → Router
  handoff_router e = record {
    rule = path_rule (exposure_host e.name ingress.base_domain) (codes "/.cawl/");
    service = cawl_daemon;
    middlewares = [];
    priority = some 1000;
    cert_resolver = ingress.cert_resolver;
  }

  abbrev server_of : Text → Exposure → Text
  server_of ip e = codes "http://" ++ (ip ++ (b':' ∷ show e.port))

  -- One round of the loop of `_render`.
  unfoldable pub add_routes : Text → Text → Exposure → Routes → Routes
  unfolding put
  add_routes id ip e routes = record routes {
    routers =
        put (key_of id e ++ codes "-cawl") (handoff_router e)
          (put (key_of id e) (app_router id e) routes.routers);
    services = put (key_of id e) (server_of ip e) routes.services;
  }

  unfoldable pub render_each : Text → Text → List Exposure → Routes → Routes
  render_each id ip [] routes = routes
  render_each id ip (e ∷ es) routes = render_each id ip es (add_routes id ip e routes)

  abbrev pub no_routes : Routes
  no_routes = record { routers = []; services = []; forward_auth = none }

  -- `_render`
  unfoldable pub render : Text → Text → List Exposure → Routes
  unfolding render_each add_routes
  render id ip exposures = render_each id ip exposures no_routes

  abbrev pub auth_routers : Text → List (Text × Router)
  auth_routers [] = []
  auth_routers (c ∷ host) =
      (
        codes "cawl-auth-host",
        record {
          rule = path_rule (c ∷ host) (codes "/auth/");
          service = cawl_daemon;
          middlewares = [];
          priority = none;
          cert_resolver = ingress.cert_resolver;
        },
      )
      ∷ []

  abbrev pub shared_routes : Routes
  shared_routes = record {
    routers = auth_routers ingress.auth_host;
    services = (cawl_daemon, ingress.daemon_url) ∷ [];
    forward_auth = some ingress.forward_auth_url;
  }

  -- `_ensure_shared`. A file that has the same text already is not written again.
  unfoldable pub ensure_shared : Directory → Directory
  unfolding put
  ensure_shared dir =
      if empty_text ingress.forward_auth_url || empty_text ingress.daemon_url
      then dir
      else put (codes "_cawl.yml") shared_routes dir

  unfoldable pub deregister : Text → Directory → Directory
  deregister id dir = pop (file_of id) dir

  -- `sync`; no exposures, or no address, and there is no file.
  abbrev pub published : Environment → Text → List Exposure → Directory → Directory
  published inst ip [] dir = deregister inst.id dir
  published inst ip (e ∷ es) dir =
      put (file_of inst.id) (render inst.id ip (e ∷ es)) (ensure_shared dir)

  abbrev pub sync_at : Environment → Option Text → Directory → Directory
  sync_at inst none dir = deregister inst.id dir
  sync_at inst (some []) dir = deregister inst.id dir
  sync_at inst (some (c ∷ ip)) dir = published inst (c ∷ ip) inst.exposures dir

  unfoldable pub sync : Environment → Directory → Directory
  unfolding deregister render ensure_shared
  sync inst dir = sync_at inst inst.vm_ip dir
