-- ===== src/Client/Credentials.antt =====
-- cli/src/cawl/credentials.py, and the choice of address and token in client.py. The user's files
-- are texts by path, each with its mode.
use cawl.Prelude.{
  Text, List, Option, ℕ, Result, codes, ◌++◌, ◌∷◌, [], none, some, ok, err, lookup, put, pop, Bool,
  true, false, if◌then◌else◌, ◌≡◌, lookup-put_self, lookup-pop, Option-cases, refl, inl, inr,
}
use cawl.Client.{ClientError, config_error, other}

pub record File : Type 0 where
  pub content : Text
  pub mode : Option ℕ

abbrev pub Files : Type 0
Files = List (Text × File)

-- `os.environ`, and `os.path.expanduser("~")`.
pub record Machine : Type 0 where
  pub environ : List (Text × Text)
  pub home : Text

-- What `json.loads` makes of the file: no JSON, JSON that is no object, or an object with these two
-- members.
pub data Parsed : Type 0 where
  invalid : Parsed
  no_object : Parsed
  members : Option Text → Option Text → Parsed

pub record Json : Type 0 where
  pub dumps : Text → Text → Text
  pub parse : Text → Parsed

-- `a or b`, where `a` may be missing.
abbrev pub or_text : Option Text → Text → Text
or_text none u = u
or_text (some []) u = u
or_text (some (c ∷ t)) u = c ∷ t

unfoldable pub config_dir : Machine → Text
unfolding lookup
config_dir m =
    or_text (lookup (codes "CAWL_CONFIG_DIR") m.environ) (m.home ++ codes "/.config/cawl")

unfoldable pub path : Machine → Text
unfolding config_dir
path m = config_dir m ++ codes "/credentials.json"

abbrev mode_of : Option File → Option ℕ
mode_of none = none
mode_of (some f) = f.mode

-- Writing keeps the mode of a file that is there; none is that of new files. Then it is made private.
abbrev pub written : Text → Text → Files → Files
written p content files =
    put p (record { content = content; mode = mode_of (lookup p files) }) files

abbrev pub private_mode : Text → Text → Files → Files
private_mode p content files = put p (record { content = content; mode = some 384 }) files

unfoldable pub save : Json → Machine → Text → Text → Files → Files
unfolding put
save json m url token files =
    let content = json.dumps url token in
    private_mode (path m) content (written (path m) content files)

abbrev pub Stored : Type 0
Stored = Option Text × Option Text

abbrev pub credentials_in : Parsed → Result ClientError Stored
credentials_in invalid = ok (none, none)
credentials_in no_object = err (other (codes "AttributeError"))
credentials_in (members url token) = ok (url, token)

abbrev pub loaded_from : Json → Option File → Result ClientError Stored
loaded_from json none = ok (none, none)
loaded_from json (some f) = credentials_in (json.parse f.content)

unfoldable pub load : Json → Machine → Files → Result ClientError Stored
unfolding lookup path
load json m files = loaded_from json (lookup (path m) files)

abbrev pub is_there : Option File → Bool
is_there none = false
is_there (some f) = true

unfoldable pub clear : Machine → Files → Bool × Files
unfolding lookup path
clear m files =
    if is_there (lookup (path m) files) then (true, pop (path m) files) else (false, files)

-- The address and the token of an `ApiClient`.
abbrev pub Login : Type 0
Login = Text × Text

-- `url and token`, for what the environment may lack
abbrev pub pair_of : Option Text → Option Text → Option Login
pair_of none token = none
pair_of (some []) token = none
pair_of (some (c ∷ url)) none = none
pair_of (some (c ∷ url)) (some []) = none
pair_of (some (c ∷ url)) (some (d ∷ token)) = some (c ∷ url, d ∷ token)

-- `url or f_url`
abbrev pub or_stored : Option Text → Option Text → Option Text
or_stored none stored = stored
or_stored (some []) stored = stored
or_stored (some (c ∷ url)) stored = some (c ∷ url)

abbrev found : Option Login → Result ClientError Login
found none = err (
    config_error
      (codes "not logged in — run `cawl login` " ++ codes "(or set CAWL_API_URL and CAWL_TOKEN)"))
found (some login) = ok login

abbrev completed : Option Text → Option Text → Result ClientError Stored → Result ClientError Login
completed url token (err e) = err e
completed url token (ok (f_url, f_token)) =
    found (pair_of (or_stored url f_url) (or_stored token f_token))

abbrev resolved :
    Json → Machine → Files → Option Text → Option Text → Option Login → Result ClientError Login
resolved json m files url token (some login) = ok login
resolved json m files url token none = completed url token (load json m files)

unfoldable pub resolve_client : Json → Machine → Files → Result ClientError Login
unfolding load lookup
resolve_client json m files =
    let url = lookup (codes "CAWL_API_URL") m.environ in
    let token = lookup (codes "CAWL_TOKEN") m.environ in
    resolved json m files url token (pair_of url token)

abbrev missing : Option Text → Text → List Text
missing none name = name ∷ []
missing (some []) name = name ∷ []
missing (some (c ∷ v)) name = []

abbrev and_list : List Text → Text
and_list [] = []
and_list (n ∷ []) = n
and_list (n ∷ o ∷ ns) = n ++ (codes " and " ++ and_list (o ∷ ns))

abbrev required : List Text → Option Login → Result ClientError Login
required names none = err (config_error (codes "missing " ++ and_list names))
required names (some login) = ok login

unfoldable pub client_from_env : Machine → Result ClientError Login
unfolding lookup
client_from_env m =
    let url = lookup (codes "CAWL_API_URL") m.environ in
    let token = lookup (codes "CAWL_TOKEN") m.environ in
    required (missing url (codes "CAWL_API_URL") ++ missing token (codes "CAWL_TOKEN"))
      (pair_of url token)

load-clear :
    (json : Json) (m : Machine) (files : Files) → load json m (clear m files).1 ≡ ok (none, none)
unfolding load clear
load-clear json m files = elim (Option-cases (lookup (path m) files)) [
  | inl absent ↦ rw (absent, absent) refl
  | inr (f, held) ↦ rw (held, lookup-pop (path m) files) refl
]

-- What is saved is what a client without the two variables uses, and logging out removes it.
pub resolve_client-save :
    (json : Json) (m : Machine) (files : Files) (c d : ℕ) (url token : Text)
    → json.parse (json.dumps (c ∷ url) (d ∷ token)) ≡ members (some (c ∷ url)) (some (d ∷ token))
    → lookup (codes "CAWL_API_URL") m.environ ≡ none
    → lookup (codes "CAWL_TOKEN") m.environ ≡ none
    → let saved = save json m (c ∷ url) (d ∷ token) files in
      (resolve_client json m saved ≡ ok (c ∷ url, d ∷ token))
      × (load json m (clear m saved).1 ≡ ok (none, none))
      × (lookup (path m) saved
          ≡ some (record { content = json.dumps (c ∷ url) (d ∷ token); mode = some 384 }))
unfolding resolve_client save
resolve_client-save json m files c d url token parsed no_url no_token = (
  rw (no_url, no_token, there, parsed) refl,
  load-clear json m (save json m (c ∷ url) (d ∷ token) files),
  there,
)
  where
    there :
        lookup (path m) (save json m (c ∷ url) (d ∷ token) files)
        ≡ some (record { content = json.dumps (c ∷ url) (d ∷ token); mode = some 384 })
    there = lookup-put_self (path m) _ (written (path m) (json.dumps (c ∷ url) (d ∷ token)) files)
