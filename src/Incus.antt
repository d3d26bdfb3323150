-- ===== src/Incus.antt =====
-- server/cawl_core/runtime/incus_api.py: the requests of `IncusApiRuntime`. A connection and
-- `json.loads` are parameters, and so are the monotonic clock, sleeping for a second, and the
-- callback that registers a box with the egress proxy.
pub mod Addresses
pub mod Commands
pub mod Boxes
pub mod Keeping
pub mod Reported
mod Tests
pub mod Waiting
pub mod Registration
use cawl.Prelude.{
  Text, List, Option, ℕ, Bool, Action, Result, codes, ◌++◌, ◌∷◌, [], none, some, any, nat_beq, leb,
  ◌||◌, ◌==◌, if◌then◌else◌, pure, raise, lift, ◌>>=◌, ◌>>◌, false, ok, suc, zero,
}
use cawl.Ingress.{show}

-- `IncusApiError`, with its message and HTTP status, and every other exception.
pub data Failure : Type 0 where
  api : Text → Option ℕ → Failure
  other : Text → Failure

unfoldable pub not_found : Failure → Bool
not_found (api message none) = false
not_found (api message (some status)) = nat_beq status 404
not_found (other message) = false

-- An address that Incus reports of a network interface.
pub record Address : Type 0 where
  pub address : Text
  pub family : Text
  pub scope : Text

-- What Incus reports: of an operation its status, error and, of a command, the return code and the
-- paths of the two recorded logs; of an instance its status and network.
pub record Metadata : Type 0 where
  pub status_code : Option ℕ
  pub problem : Text
  pub status : Text
  pub network : List (Text × List Address)
  pub exit_code : Option ℕ
  pub output : Option Text
  pub errors : Option Text

-- A response: `type`, `error` with `error_code`, `operation` and `metadata`.
pub record Document : Type 0 where
  pub kind : Text
  pub error : Text
  pub error_code : Option ℕ
  pub operation : Text
  pub metadata : Metadata

-- The bodies of the requests that the adapter makes.
pub data Body : Type 0 where
  -- name, type, image, configuration, egress network
  instance_of : Text → Text → Text → Text × Text → Text → Body
  -- name, type, configuration
  builder_of : Text → Text → Text × Text → Body
  -- action, timeout, force
  state : Text → ℕ → Bool → Body
  command : List Text → Body
  -- builder, alias
  publish : Text → Text → Body

-- A call that leaves the daemon: a request, a sleep, or the registration of an address.
pub data Call : Type 0 where
  request : Text → Text → Option Body → Call
  slept : Call
  registered : Text → Call

-- The world outside, and the calls so far, the last one first.
pub record Line (X : Type 0) : Type 0 where
  pub outside : X
  pub calls : List Call

-- The fields of the runtime, and what it calls.
pub record IncusApiRuntime (X : Type 0) : Type 0 where
  pub project : Text
  pub image_prefix : Text
  pub timeout : ℕ
  pub vm : Bool
  -- one exchange over HTTPS: method, path, body; status and payload
  pub send : Text → Text → Option Body → Action X Failure (ℕ × Text)
  pub loads : Text → Result Failure Document
  pub now : X → ℕ
  pub sleep : X → X
  -- `egress_ready` for these hosts
  pub register : List Text → Text → Action X Failure (Unit {0})

abbrev pub no_metadata : Metadata
no_metadata = record {
  status_code = none;
  problem = [];
  status = [];
  network = [];
  exit_code = none;
  output = none;
  errors = none;
}

abbrev no_document : Document
no_document = record {
  kind = [];
  error = [];
  error_code = none;
  operation = [];
  metadata = no_metadata;
}

-- `a or b`, for texts.
abbrev pub or_else : Text → Text → Text
or_else [] u = u
or_else (c ∷ t) u = c ∷ t

abbrev code_text : Option ℕ → Text
code_text none = codes "request failed"
code_text (some zero) = codes "request failed"
code_text (some (suc n)) = show (suc n)

-- `_op` raises unless the status code is 200.
abbrev pub succeeded : Option ℕ → Bool
succeeded none = false
succeeded (some n) = nat_beq n 200

module _ {X : Type 0} (incus : IncusApiRuntime X) where
  abbrev pub Calling : Type 0 → Type 0
  Calling = Action (Line X) Failure

  unfoldable pub with_project : Text → Text
  with_project path =
      path
      ++ ((if any (λ c. nat_beq c b'?') path then codes "&" else codes "?")
          ++ (codes "project=" ++ incus.project))

  -- One exchange on a new connection, which is `_request` with `raw`.
  unfoldable pub exchange : Text → Text → Option Body → Calling (ℕ × Text)
  unfolding with_project
  exchange method path body l =
      let (r, x) = incus.send method (with_project path) body l.outside in
      (r, record l { outside = x; calls = request method path body ∷ l.calls })

  abbrev pub parse : Text → Result Failure Document
  parse [] = ok no_document
  parse (c ∷ s) = incus.loads (c ∷ s)

  abbrev checked : Text → Text → ℕ → Document → Calling Document
  checked method path status doc =
      if leb 400 status || (doc.kind == codes "error")
      then raise (
          api
            (method
              ++ (codes " "
                  ++ (with_project path
                      ++ (codes ": " ++ or_else doc.error (code_text doc.error_code)))))
            (some status))
      else pure doc

  -- `_request`
  unfoldable pub ask : Text → Text → Option Body → Calling Document
  unfolding exchange with_project
  ask method path body = do
    answer ← exchange method path body
    doc ← lift (parse answer.1)
    checked method path answer.0 doc

  -- `_sync`
  unfoldable pub sync : Text → Text → Option Body → Calling Metadata
  unfolding ask
  sync method path body = do doc ← ask method path body; pure doc.metadata

  abbrev finished : Metadata → Calling Metadata
  finished m =
      if succeeded m.status_code
      then pure m
      else raise
          (api (or_else m.problem (or_else m.status (codes "operation failed"))) m.status_code)

  abbrev pub waited : Document → Calling Metadata
  waited doc = do
    reply ← ask (codes "GET") (doc.operation ++ (codes "/wait?timeout=" ++ show incus.timeout)) none
    finished reply.metadata

  -- `_op`
  unfoldable pub op : Text → Text → Option Body → Calling Metadata
  unfolding ask
  op method path body = do
    doc ← ask method path body
    if doc.kind == codes "async" then waited doc else pure doc.metadata
