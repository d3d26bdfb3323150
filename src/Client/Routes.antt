-- ===== src/Client/Routes.antt =====
-- The routes of server/environments/api.py, and that each request of the client reaches its handler.
-- A decoded path is cut at its slashes, and a parameter takes one part that is not empty. The address
-- of the daemon has no path of its own.
use cawl.Client.Paths.{requested, decoded}
use cawl.Client.{
  Endpoint, Call, whoami, up, ls, status, exec, rm, stop, start, ssh_cert, share, unshare, expose,
  unexpose, refresh_image, template_create, templates, template_show, template_rm,
}
use cawl.Egress.Hosts.{split_on}
use cawl.Prelude.{List, Option, Text, [], codes, none, some, ◌∷◌, if◌then◌else◌, ◌==◌}

pub data Part : Type 0 where
  literal : Text → Part
  parameter : Part

-- A decorator `@api.get("/environments/{sid}")` with the function under it.
pub record Route : Type 0 where
  pub method : Text
  pub pattern : List Part
  pub handler : Text

-- Inside the API, below an environment, below a template.
abbrev api : List Part → List Part
api ps = literal [] ∷ literal (codes "api") ∷ ps

abbrev environments : List Part → List Part
environments ps = api (literal (codes "environments") ∷ ps)

abbrev environment : List Part → List Part
environment ps = environments (parameter ∷ ps)

abbrev templates_api : List Part → List Part
templates_api ps = api (literal (codes "templates") ∷ ps)

abbrev get : List Part → Text → Route
get pattern handler = record { method = codes "GET"; pattern = pattern; handler = handler }

abbrev post : List Part → Text → Route
post pattern handler = record { method = codes "POST"; pattern = pattern; handler = handler }

abbrev delete : List Part → Text → Route
delete pattern handler = record { method = codes "DELETE"; pattern = pattern; handler = handler }

unfoldable pub routes : List Route
routes =
    get (api (literal (codes "whoami") ∷ [])) (codes "whoami")
    ∷ post (environments []) (codes "create")
    ∷ get (environments []) (codes "list_environments")
    ∷ get (environment []) (codes "get_environment")
    ∷ post (environment (literal (codes "exec") ∷ [])) (codes "exec_in")
    ∷ post (environment (literal (codes "stop") ∷ [])) (codes "stop")
    ∷ post (environment (literal (codes "start") ∷ [])) (codes "start")
    ∷ post (environment (literal (codes "exposures") ∷ [])) (codes "expose")
    ∷ delete (environment (literal (codes "exposures") ∷ parameter ∷ [])) (codes "unexpose")
    ∷ post (environment (literal (codes "ssh-cert") ∷ [])) (codes "ssh_cert")
    ∷ get (environment (literal (codes "grants") ∷ [])) (codes "list_grants")
    ∷ post (environment (literal (codes "grants") ∷ [])) (codes "add_grant")
    ∷ delete (environment (literal (codes "grants") ∷ parameter ∷ [])) (codes "remove_grant")
    ∷ delete (environment []) (codes "destroy")
    ∷ post (api (literal (codes "images") ∷ literal (codes "refresh") ∷ [])) (codes "refresh_image")
    ∷ post (templates_api []) (codes "create_template")
    ∷ get (templates_api []) (codes "list_templates")
    ∷ get (templates_api (parameter ∷ [])) (codes "get_template")
    ∷ delete (templates_api (parameter ∷ [])) (codes "delete_template")
    ∷ []

abbrev taken : Text → Option (List Text) → Option (List Text)
taken part none = none
taken part (some parts) = some (part ∷ parts)

-- The values of the parameters, where the parts of a path fit a pattern.
abbrev fit : List Part → List Text → Option (List Text)
fit [] [] = some []
fit [] (t ∷ ts) = none
fit (p ∷ ps) [] = none
fit (literal l ∷ ps) (t ∷ ts) = let rest = fit ps ts in if l == t then rest else none
fit (parameter ∷ ps) ([] ∷ ts) = none
fit (parameter ∷ ps) ((c ∷ t) ∷ ts) = taken (c ∷ t) (fit ps ts)

abbrev or_else : Option (Text × List Text) → Option (Text × List Text) → Option (Text × List Text)
or_else none next = next
or_else (some found) next = some found

abbrev handled : Text → Option (List Text) → Option (Text × List Text)
handled handler none = none
handled handler (some values) = some (handler, values)

-- The handler of a request, and what the path gives it.
unfoldable pub dispatch : List Route → Text → List Text → Option (Text × List Text)
dispatch [] method parts = none
dispatch (r ∷ rs) method parts =
    let rest = dispatch rs method parts in
    if r.method == method then or_else (handled r.handler (fit r.pattern parts)) rest else rest

abbrev dispatched : Text → Option Text → Option (Text × List Text)
dispatched method none = none
dispatched method (some path) = dispatch routes method (split_on b'/' path)

unfoldable pub served : Call → Option (Text × List Text)
unfolding dispatch routes split_on decoded
served c = dispatched c.method (requested c.path)

-- What each method of the client is for: the function of api.py, with what the path names.
unfoldable pub target : Endpoint → Text × List Text
target whoami = (codes "whoami", [])
target (up body) = (codes "create", [])
target (ls template) = (codes "list_environments", [])
target (status sid) = (codes "get_environment", sid ∷ [])
target (exec sid cmd) = (codes "exec_in", sid ∷ [])
target (rm sid) = (codes "destroy", sid ∷ [])
target (stop sid) = (codes "stop", sid ∷ [])
target (start sid) = (codes "start", sid ∷ [])
target (ssh_cert sid key) = (codes "ssh_cert", sid ∷ [])
target (share sid principal) = (codes "add_grant", sid ∷ [])
target (unshare sid principal) = (codes "remove_grant", sid ∷ principal ∷ [])
target (expose sid port name access) = (codes "expose", sid ∷ [])
target (unexpose sid name) = (codes "unexpose", sid ∷ name ∷ [])
target (refresh_image template args backend) = (codes "refresh_image", [])
target (template_create yaml scope) = (codes "create_template", [])
target templates = (codes "list_templates", [])
target (template_show name) = (codes "get_template", name ∷ [])
target (template_rm name) = (codes "delete_template", name ∷ [])

abbrev below : List Text → List Text
below parts = [] ∷ codes "api" ∷ codes "environments" ∷ parts
