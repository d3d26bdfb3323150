-- ===== src/Client/SshKeys/Options.antt =====
-- That a stanza of `ssh_config_block` sets what `ssh_argv` asks for, as the docstring says. `ssh`
-- takes the value of `-i` as it is, and reads that of `-o` like a line of a configuration file. What
-- it makes of apostrophes, backslashes and number signs there is left out.
use cawl.Client.SshKeys.{Target}
use cawl.Prelude.{
  List, Text, ℕ, ◌≡◌, ◌==◌, Bool, any, codes, false, ◌∷◌, [], if◌then◌else◌, nat_beq, true, leb,
  all, not, ◌&&◌, ◌||◌,
}

-- What stands before the first `sep`, and what after it.
abbrev cut : ℕ → Text → Text × Text
cut sep [] = ([], [])
cut sep (c ∷ s) =
    let (before, after) = cut sep s in if nat_beq c sep then ([], s) else (c ∷ before, after)

abbrev destination : Text → List (Text × Text)
destination w =
    let (user, host) = cut b'@' w in (codes "User", user) ∷ (codes "HostName", host) ∷ []

-- The first argument of a configuration line: up to a blank, except between quotes, which are taken
-- off.
abbrev is_quote : ℕ → Bool
is_quote c = nat_beq c b'"'

abbrev is_blank : ℕ → Bool
is_blank c = nat_beq c 32 || nat_beq c 9

unfoldable pub first_argument : Bool → Text → Text
first_argument quoted [] = []
first_argument quoted (c ∷ s) =
    let rest = first_argument (if is_quote c then not quoted else quoted) s in
    if is_quote c then rest else if not quoted && is_blank c then [] else c ∷ rest

-- A proxy command is the rest of the line.
abbrev setting : Text → Text → Text × Text
setting k v = (k, if k == codes "ProxyCommand" then v else first_argument false v)

-- The options that a command line of `ssh` gives.
pub argv_options : List Text → List (Text × Text)
argv_options [] = []
argv_options (w ∷ []) = destination w
argv_options (w ∷ v ∷ ws) =
    let rest = argv_options ws in
    if w == codes "-i"
    then (codes "IdentityFile", v) ∷ rest
    else if w == codes "-o"
    then (let (k, value) = cut b'=' v in setting k value ∷ rest)
    else destination w

-- The options that a stanza gives.
abbrev pub stanza_options : List (Text × Text) → List (Text × Text)
stanza_options [] = []
stanza_options ((k, v) ∷ body) = setting k v ∷ stanza_options body

-- What has no meaning of its own in a configuration line, and that or a space.
abbrev pub is_bare : ℕ → Bool
is_bare c =
    leb 33 c && not (is_quote c) && not (nat_beq c 39) && not (nat_beq c 92) && not (nat_beq c b'#')

abbrev pub is_quotable : ℕ → Bool
is_quotable c = nat_beq c b' ' || is_bare c

-- The keywords of both; agents are forwarded by the command line only.
abbrev pub shared_keywords : List Text
shared_keywords =
    codes "HostName"
    ∷ codes "User"
    ∷ codes "IdentityFile"
    ∷ codes "CertificateFile"
    ∷ codes "IdentitiesOnly"
    ∷ codes "UserKnownHostsFile"
    ∷ codes "StrictHostKeyChecking"
    ∷ codes "ProxyCommand"
    ∷ []

-- Those of the whole command line, without the program.
abbrev pub options_of : List Text → List (Text × Text)
options_of [] = []
options_of (program ∷ ws) = argv_options ws

-- The texts of a target have no character with a meaning of its own in a configuration line; the path
-- of the key may have spaces, and the user has no `@`.
pub record IsPlain (t : Target) : Type 0 where
  pub host : all is_bare t.host ≡ true
  pub user : all is_bare t.user ≡ true
  pub name : any (λ c. nat_beq c b'@') t.user ≡ false
  pub key : all is_quotable t.key ≡ true
  pub cert : all is_bare t.cert ≡ true
  pub known_hosts : all is_bare t.known_hosts ≡ true

abbrev reached : Target → List (Text × Text)
reached t = (codes "User", t.user) ∷ (codes "HostName", t.host) ∷ []

abbrev agent : Bool → List (Text × Text)
agent true = (codes "ForwardAgent", codes "yes") ∷ []
agent false = []
