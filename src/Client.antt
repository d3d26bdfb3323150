-- ===== src/Client.antt =====
-- cli/src/cawl/client.py: the requests of the command line. The transport, `json` and `urlencode`
-- are parameters; a response is of the type `J` of JSON values.
pub mod Paths
pub mod Routes
pub mod Credentials
pub mod SignIn
pub mod SshKeys
pub mod Commands
mod Tests
use cawl.Prelude.{
  Text, List, Option, ℕ, Bool, Action, Result, codes, ◌++◌, ◌∷◌, [], none, some, leb, nat_beq, err,
  ok, if◌then◌else◌, pure, raise, lift, ◌>>=◌,
}
use cawl.Naming.Labels.{drop_while_end}
use cawl.Ingress.{show}

-- `ApiError`, `ConfigError`, and every other exception.
pub data ClientError : Type 0 where
  api_error : ℕ → Text → ClientError
  config_error : Text → ClientError
  other : Text → ClientError

-- A value in the body of a request.
pub data Field : Type 0 where
  text : Text → Field
  optional : Option Text → Field
  number : ℕ → Field
  flag : Bool → Field
  texts : List Text → Field
  pairs : List (Text × Text) → Field

abbrev pub Body : Type 0
Body = List (Text × Field)

-- The methods of `ApiClient`, one constructor for each.
pub data Endpoint : Type 0 where
  whoami : Endpoint
  up : Body → Endpoint
  ls : Option Text → Endpoint
  status : Text → Endpoint
  exec : Text → List Text → Endpoint
  rm : Text → Endpoint
  stop : Text → Endpoint
  start : Text → Endpoint
  ssh_cert : Text → Text → Endpoint
  share : Text → Text → Endpoint
  unshare : Text → Text → Endpoint
  expose : Text → ℕ → Option Text → List Text → Endpoint
  unexpose : Text → Text → Endpoint
  refresh_image : Text → List (Text × Text) → Option Text → Endpoint
  template_create : Text → Option Text → Endpoint
  templates : Endpoint
  template_show : Text → Endpoint
  template_rm : Text → Endpoint

-- What a method gives `_call`.
pub record Call : Type 0 where
  pub method : Text
  pub path : Text
  pub body : Option Body
  pub query : List (Text × Option Text)

-- The arguments of `_call` that most methods give.
abbrev plain : Text → Text → Call
plain method path = record { method = method; path = path; body = none; query = [] }

abbrev posted : Text → Body → Call
posted path body = record { method = codes "POST"; path = path; body = some body; query = [] }

abbrev environments : Text
environments = codes "/api/environments"

abbrev templates_path : Text
templates_path = codes "/api/templates"

abbrev pub environment_path : Text → Text → Text
environment_path sid rest = codes "/api/environments/" ++ (sid ++ rest)

-- `if scope:`
abbrev scoped : Option Text → Body
scoped none = []
scoped (some []) = []
scoped (some (c ∷ scope)) = (codes "scope", text (c ∷ scope)) ∷ []

unfoldable pub call_of : Endpoint → Call
call_of whoami = plain (codes "GET") (codes "/api/whoami")
call_of (up body) = posted environments body
call_of (ls template) = record {
  method = codes "GET";
  path = environments;
  body = none;
  query = (codes "template", template) ∷ [];
}
call_of (status sid) = plain (codes "GET") (environment_path sid [])
call_of (exec sid cmd) =
    posted (environment_path sid (codes "/exec")) ((codes "cmd", texts cmd) ∷ [])
call_of (rm sid) = plain (codes "DELETE") (environment_path sid [])
call_of (stop sid) = plain (codes "POST") (environment_path sid (codes "/stop"))
call_of (start sid) = plain (codes "POST") (environment_path sid (codes "/start"))
call_of (ssh_cert sid key) =
    posted (environment_path sid (codes "/ssh-cert")) ((codes "public_key", text key) ∷ [])
call_of (share sid principal) =
    posted (environment_path sid (codes "/grants")) ((codes "principal", text principal) ∷ [])
call_of (unshare sid principal) =
    plain (codes "DELETE") (environment_path sid (codes "/grants/" ++ principal))
call_of (expose sid port name access) = posted (environment_path sid (codes "/exposures")) (
    (codes "port", number port)
    ∷ (codes "name", optional name)
    ∷ (codes "access", texts access)
    ∷ [])
call_of (unexpose sid name) =
    plain (codes "DELETE") (environment_path sid (codes "/exposures/" ++ name))
call_of (refresh_image template args backend) = posted (codes "/api/images/refresh") (
    (codes "template", text template)
    ∷ (codes "args", pairs args)
    ∷ (codes "backend", optional backend)
    ∷ [])
call_of (template_create yaml scope) =
    posted templates_path ((codes "yaml", text yaml) ∷ scoped scope)
call_of templates = plain (codes "GET") templates_path
call_of (template_show name) = plain (codes "GET") (codes "/api/templates/" ++ name)
call_of (template_rm name) = plain (codes "DELETE") (codes "/api/templates/" ++ name)

-- What the client calls. `error_of` is `payload.get("error")` of an object.
pub record Wire (J : Type 0) : Type 0 where
  pub dumps : Body → Text
  pub loads : Text → Result ClientError J
  pub error_of : J → Option Text
  pub urlencode : List (Text × Text) → Text

pub record ApiClient (X : Type 0) : Type 0 where
  pub base_url : Text
  pub token : Text
  -- method, URL, headers, body; status and body
  pub transport : Text → Text → List (Text × Text) → Option Text → Action X ClientError (ℕ × Text)

abbrev is_slash : ℕ → Bool
is_slash c = nat_beq c b'/'

-- `{k: v for k, v in query.items() if v is not None}`
abbrev given : List (Text × Option Text) → List (Text × Text)
given [] = []
given ((k, none) ∷ qs) = given qs
given ((k, some v) ∷ qs) = (k, v) ∷ given qs

abbrev asked : Text → Text
asked [] = []
asked (c ∷ q) = b'?' ∷ c ∷ q

module _ {J X : Type 0} (wire : Wire J) (client : ApiClient X) where
  abbrev query_text : List (Text × Option Text) → Text
  query_text [] = []
  query_text (q ∷ qs) = asked (wire.urlencode (given (q ∷ qs)))

  unfoldable pub url_of : Call → Text
  unfolding drop_while_end
  url_of c = drop_while_end is_slash client.base_url ++ (c.path ++ query_text c.query)

  abbrev authorization : List (Text × Text)
  authorization =
      (codes "Authorization", codes "Bearer " ++ client.token)
      ∷ (codes "Accept", codes "application/json")
      ∷ []

  abbrev headers_for : Option Body → List (Text × Text)
  headers_for none = authorization
  headers_for (some body) = authorization ++ ((codes "Content-Type", codes "application/json") ∷ [])

  abbrev dumped : Option Body → Option Text
  dumped none = none
  dumped (some body) = some (wire.dumps body)

  -- `json.loads(raw) if raw else None`
  abbrev payload_of : Text → Result ClientError (Option J)
  payload_of [] = ok none
  payload_of (c ∷ raw) = elim (wire.loads (c ∷ raw)) [ ok j ↦ ok (some j) | err e ↦ err e ]

  abbrev default_message : ℕ → Option Text → Text
  default_message code none = codes "HTTP " ++ show code
  default_message code (some []) = codes "HTTP " ++ show code
  default_message code (some (c ∷ message)) = c ∷ message

  abbrev error_in : Option J → Option Text
  error_in none = none
  error_in (some j) = wire.error_of j

  abbrev answered : ℕ → Option J → Action X ClientError (Option J)
  answered code payload =
      if leb 400 code
      then raise (api_error code (default_message code (error_in payload)))
      else pure payload

  -- `_call`
  unfoldable pub call : Call → Action X ClientError (Option J)
  unfolding url_of
  call c = do
    reply ← client.transport c.method (url_of c) (headers_for c.body) (dumped c.body)
    payload ← lift (payload_of reply.1)
    answered reply.0 payload

  unfoldable pub ask : Endpoint → Action X ClientError (Option J)
  unfolding call call_of
  ask e = call (call_of e)
