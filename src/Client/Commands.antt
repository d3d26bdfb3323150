-- ===== src/Client/Commands.antt =====
-- cli/src/cawl/cli.py: what the commands of `cawl` print, ask of the daemon and exit with. A command
-- of the library `click` is a function of its options; `json.dumps` of a message is a parameter.
pub mod Shell
pub mod Stored
use cawl.Prelude.{
  Text, List, Option, ℕ, Bool, Result, codes, ◌++◌, ◌∷◌, [], none, some, ok, err, nat_beq, ltb, not,
  ◌&&◌, ◌||◌, ◌==◌, if◌then◌else◌, put, contains, length, map, ◌+◌, ◌-◌, false, suc, true, zero,
}
use cawl.Client.{ClientError, api_error, config_error, other, Wire, ApiClient, ask, whoami}
use cawl.Client.Credentials.{Json, Machine, Files, save, clear, or_text, path}
use cawl.Params.Templates.{sort_values}
use cawl.Params.Patterns.{is_space}
use cawl.Naming.Labels.{strip}
use cawl.Egress.Hosts.{split_on}
use cawl.Ingress.{show}

-- What is put on standard output, or on standard error.
pub data Printed : Type 0 where
  out notice : Text → Printed

pub record Ended : Type 0 where
  pub printed : List Printed
  pub code : ℕ

abbrev pub well : List Printed → Ended
well lines = record { printed = lines; code = 0 }

-- `pair.partition("=")`, none without the sign
abbrev pub partition : Text → Option (Text × Text)
partition [] = none
partition (c ∷ s) =
    if nat_beq c b'='
    then some ([], s)
    else elim (partition s) [ none ↦ none | some (k, v) ↦ some (c ∷ k, v) ]

abbrev argument : Text → Option (Text × Text) → Option (Text × Text)
argument pair none = none
argument pair (some ([], value)) = none
argument pair (some (c ∷ key, value)) = some (strip is_space (c ∷ key), value)

-- `_parse_args` from the arguments so far: the values, or the first bad argument.
unfoldable pub parse_args : List Text → List (Text × Text) → Result Text (List (Text × Text))
unfolding strip put
parse_args [] args = ok args
parse_args (pair ∷ rest) args = elim (argument pair (partition pair)) [
  | none ↦ err pair
  | some (key, value) ↦ parse_args rest (put key value args)
]

abbrev pub spaced : List Text → Text
spaced [] = []
spaced (w ∷ []) = w
spaced (w ∷ v ∷ ws) = w ++ (b' ' ∷ spaced (v ∷ ws))

unfoldable pub fmt_args : List (Text × Text) → Text
unfolding sort_values
fmt_args args = spaced (map (λ a. a.0 ++ (b'=' ∷ a.1)) (sort_values args))

abbrev commas : List Text → Text
commas [] = []
commas (w ∷ []) = w
commas (w ∷ v ∷ ws) = w ++ (codes ", " ++ commas (v ∷ ws))

pub record ShownExposure : Type 0 where
  pub name : Text
  pub port : ℕ
  pub url : Text
  pub access : List Text

-- An environment as the daemon describes it; a member that is missing or null is empty.
pub record Shown : Type 0 where
  pub id : Text
  pub status : Text
  pub owner : Text
  pub args : List (Text × Text)
  pub shared_with : List Text
  pub exposures : List ShownExposure
  pub url : Text
  pub ssh : Text
  pub expires_at : Text
  pub failure : Text

-- A row of the description, unless its value is empty.
abbrev row : Text → Text → List (Text × Text)
row label [] = []
row label (c ∷ value) = (label, c ∷ value) ∷ []

abbrev shared_row : List Text → List (Text × Text)
shared_row [] = []
shared_row (p ∷ shared) = (codes "shared with", commas (p ∷ shared)) ∷ []

abbrev gate : List Text → Text
gate [] = codes "   (anyone with access to this env)"
gate (a ∷ access) = codes "   (viewers: " ++ (commas (a ∷ access) ++ codes ")")

abbrev exposure_row : ShownExposure → Text × Text
exposure_row e = (e.name ++ (codes " :" ++ show e.port), e.url ++ gate e.access)

abbrev url_row : List ShownExposure → Text → List (Text × Text)
url_row [] url = row (codes "url") url
url_row (e ∷ es) url = []

abbrev ssh_row : Text → Text → List (Text × Text)
ssh_row id [] = []
ssh_row id (c ∷ ssh) =
    (codes "ssh", codes "cawl ssh " ++ (id ++ (codes "   (host: " ++ ((c ∷ ssh) ++ codes ")"))))
    ∷ []

abbrev expiry : Text → Text
expiry [] = codes "never — remember to `cawl rm` it"
expiry (c ∷ at) = c ∷ at

unfoldable pub rows_of : Shown → List (Text × Text)
unfolding fmt_args
rows_of d =
    row (codes "args") (fmt_args d.args)
    ++ shared_row d.shared_with
    ++ map exposure_row d.exposures
    ++ url_row d.exposures d.url
    ++ ssh_row d.id d.ssh
    ++ ((codes "expires", expiry d.expires_at) ∷ [])
    ++ row (codes "error") d.failure

abbrev pub widest : List (Text × Text) → ℕ
widest [] = 0
widest ((label, value) ∷ rows) =
    let rest = widest rows in if ltb rest (length label) then length label else rest

abbrev pub spaces : ℕ → Text
spaces zero = []
spaces (suc n) = b' ' ∷ spaces n

-- `f"{t:<{width}}"`
abbrev pub padded : Text → ℕ → Text
padded t width = t ++ spaces (width - length t)

abbrev aligned : ℕ → List (Text × Text) → List Printed
aligned width [] = []
aligned width ((label, value) ∷ rows) =
    out (codes "  " ++ (padded (label ++ codes ":") (width + 1) ++ (codes "  " ++ value)))
    ∷ aligned width rows

abbrev ssh_steps : Text → Text → List (Text × Text)
ssh_steps id [] = []
ssh_steps id (c ∷ ssh) =
    (codes "cawl ssh " ++ id, codes "shell in it — a certificate is fetched for you")
    ∷ (
      codes "cawl exec " ++ (id ++ codes " -- <cmd>"),
      codes "run one command; its exit code is yours",
    )
    ∷ []

unfoldable pub next_steps : Shown → List (Text × Text)
next_steps d =
    ssh_steps d.id d.ssh
    ++ ((
      codes "cawl share " ++ (d.id ++ codes " --with <who>"),
      codes "let someone else in (they can't destroy it)",
    )
        ∷ (
          codes "cawl expose " ++ (d.id ++ codes " <port>"),
          codes "give a port a URL, gated by sign-in",
        )
        ∷ (codes "cawl rm " ++ d.id, codes "destroy it — the TTL is only a backstop")
        ∷ [])

abbrev steps_printed : ℕ → List (Text × Text) → List Printed
steps_printed pad [] = []
steps_printed pad ((cmd, why) ∷ steps) =
    out (codes "  " ++ (padded cmd pad ++ (codes "  # " ++ why))) ∷ steps_printed pad steps

-- `_emit`, without `--json`
unfoldable pub emit : Shown → Bool → List Printed
unfolding rows_of next_steps
emit d with_steps =
    (out (d.id ++ (codes "  [" ++ (d.status ++ (codes "]  owner=" ++ d.owner))))
      ∷ aligned (widest (rows_of d)) (rows_of d))
    ++ (if with_steps && (d.status == codes "ready")
        then out [] ∷ steps_printed (widest (next_steps d)) (next_steps d)
        else [])

-- The addresses of `--access`.
abbrev filled : List Text → List Text
filled [] = []
filled (e ∷ es) = elim (strip is_space e) [ [] ↦ filled es | c ∷ s ↦ (c ∷ s) ∷ filled es ]

unfoldable pub emails_of : Option Text → List Text
unfolding strip split_on
emails_of access = filled (split_on b',' (or_text access []))

-- The environments that a bare `cawl ssh-config` is about.
unfoldable pub is_mine : Text → Shown → Bool
is_mine me d = not (d.ssh == []) && ((d.owner == me) || contains d.shared_with me)

module _ (dumps_error : Text → Text) where
  -- `_fail`
  unfoldable pub fail : Bool → Text → ℕ → Ended
  fail true message code = record { printed = out (dumps_error message) ∷ []; code = code }
  fail false message code = record {
    printed = notice (codes "error: " ++ message) ∷ [];
    code = code;
  }

  -- `_guard`; none for an exception that it lets pass
  unfoldable pub guarded : Bool → ClientError → Option Ended
  unfolding fail
  guarded as_json (config_error message) = some (fail as_json message 1)
  guarded as_json (api_error status message) =
      some (fail as_json message (if nat_beq status 403 then 3 else 1))
  guarded as_json (other message) = none

  abbrev pub refused : Bool → Option Ended → ClientError → Result ClientError Ended
  refused as_json (some ended) e = ok ended
  refused as_json none e = err e

  -- A command around one call of the client.
  unfoldable pub command :
      {A : Type 0} → Bool → Result ClientError A → (A → Ended) → Result ClientError Ended
  unfolding guarded
  command as_json (ok a) show_it = ok (show_it a)
  command as_json (err e) show_it = refused as_json (guarded as_json e) e

-- The options of `cawl login`, what the user pastes when asked, and what the browser comes to.
pub record Way : Type 0 where
  pub token : Option Text
  pub headless : Bool
  pub pasted : Text
  pub browsed : Result ClientError Text

abbrev asked : Way → Result ClientError Text
asked way = if way.headless then ok (strip is_space way.pasted) else way.browsed

abbrev given : Option Text → Way → Result ClientError Text
given none way = asked way
given (some []) way = asked way
given (some (c ∷ token)) way = ok (c ∷ token)

unfoldable pub token_by : Way → Result ClientError Text
unfolding strip
token_by way = given way.token way

abbrev message_of : ClientError → Text
message_of (api_error status message) = show status ++ (codes ": " ++ message)
message_of (config_error message) = message
message_of (other message) = message

module _ {J X : Type 0} (wire : Wire J) (connect : Text → Text → ApiClient X) (json : Json)
    (m : Machine) (dumps_error : Text → Text) (who_of : Option J → Text × Text) where
  abbrev welcomed : Option J → List Printed
  welcomed who =
      out (
        codes "Logged in as "
        ++ ((who_of who).0
            ++ (codes " ("
                ++ ((who_of who).1
                    ++ (codes "). Credentials saved to " ++ (path m ++ codes "."))))))
      ∷ []

  -- What follows the daemon's answer to `whoami`.
  abbrev pub judged :
      Text → Text → Files → Result ClientError (Option J) → Result ClientError Ended × Files
  judged url token files (ok who) = (ok (well (welcomed who)), save json m url token files)
  judged url token files (err (api_error status message)) =
      (ok (fail dumps_error false (codes "token rejected: " ++ message) 1), files)
  judged url token files (err e) = (err e, files)

  abbrev pub verified :
      Text → Result ClientError Text → Files → X → (Result ClientError Ended × Files) × X
  verified url (err e) files x =
      ((ok (fail dumps_error false (codes "login failed: " ++ message_of e) 1), files), x)
  verified url (ok token) files x =
      let (r, x') = ask wire (connect url token) whoami x in (judged url token files r, x')

  -- `login`, for the address that was given, is in the environment, or was typed in; the lines before
  -- there is a token are left out.
  unfoldable pub login : Text → Way → Files → X → (Result ClientError Ended × Files) × X
  login url way files x = verified url (token_by way) files x

  unfoldable pub logout : Files → Ended × Files
  unfolding clear
  logout files =
      let (there, files') = clear m files in
      (well (out (if there then codes "Logged out." else codes "Not logged in.") ∷ []), files')
