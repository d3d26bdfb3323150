-- ===== src/Client/Commands/Shell.antt =====
-- cli/src/cawl/cli.py: the commands that reach a box, `ls`, and those that print one line.
-- `ssh-keygen`, and what `json.loads` made of an answer, are parameters.
use cawl.Prelude.{
  Text, List, Option, ℕ, Bool, codes, ◌++◌, ◌∷◌, [], Action, false, if◌then◌else◌, map, Result, any,
  nat_beq, pure, ◌>>=◌, lift, not, raise, none, try, ◌>>◌, modify, select,
}
use cawl.Client.Commands.{
  Printed, Ended, well, Shown, is_mine, fail, fmt_args, padded, out, notice, refused, guarded,
}
use cawl.Client.Credentials.{Machine, Files}
use cawl.Client.SshKeys.{
  Target, write_cert, cert_path, write_known_hosts, ssh_argv, ssh_config_block,
}
use cawl.Client.{
  ClientError, Wire, ApiClient, ask, whoami, ls, ssh_cert, api_error, config_error, other,
}

-- What the daemon answers to a request for a certificate.
pub record SshAccess : Type 0 where
  pub certificate : Text
  pub host : Text
  pub ca_pubkey : Text
  pub user : Text
  pub jump : Text

-- The files of the user, and the text of known_hosts.
pub record Local (X : Type 0) : Type 0 where
  pub world : X
  pub files : Files
  pub known_hosts : Text

abbrev listed : Shown → Printed
listed r = out (
    padded r.id 32
    ++ (codes "  "
        ++ (padded r.owner 14
            ++ (codes "  " ++ (padded r.status 8 ++ (codes "  " ++ fmt_args r.args))))))

-- `ls`, without `--json`
unfoldable pub ls_lines : List Shown → List Printed
unfolding fmt_args
ls_lines [] = out (codes "no environments") ∷ []
ls_lines (r ∷ rs) = listed r ∷ map listed rs

abbrev spoken : (Text → Printed) → Text → List Printed
spoken channel [] = []
spoken channel (c ∷ t) = channel (c ∷ t) ∷ []

-- `exec`; what the command printed goes through as it is.
abbrev pub exec_ended : Text → Text → ℕ → Ended
exec_ended stdout stderr exit_code = record {
  printed = spoken out stdout ++ spoken notice stderr;
  code = exit_code;
}

abbrev pub shared : Text → Text → List Printed
shared id principal = out (id ++ (codes " shared with " ++ principal)) ∷ []

abbrev pub unshared : Text → Text → List Printed
unshared id principal = out (id ++ (codes " no longer shared with " ++ principal)) ∷ []

abbrev pub unexposed : Text → Text → List Printed
unexposed id name = out (codes "unexposed " ++ (name ++ (codes " on " ++ id))) ∷ []

-- `_cawl_command`, for what it found and its quoted form
abbrev pub cawl_command : Text → Text
cawl_command quoted = if any (λ c. nat_beq c b'"') quoted then codes "cawl" else quoted

abbrev skipped_lines : List (Text × Text) → List Printed
skipped_lines [] = []
skipped_lines ((sid, why) ∷ rest) =
    notice (codes "# skipped " ++ (sid ++ (codes ": " ++ why))) ∷ skipped_lines rest

abbrev joined : List Text → Text
joined [] = []
joined (b ∷ []) = b
joined (b ∷ c ∷ bs) = b ++ (10 ∷ joined (c ∷ bs))

abbrev nothing_written : Ended
nothing_written =
    fail (λ message. message) false
      (codes "no environments to write a config for — `cawl up` one first, or check `cawl ls`") 1

abbrev preamble : Text
preamble =
    codes "# Generated by `cawl ssh-config`. Regenerate after `cawl up`,\n"
    ++ codes "# `cawl rm`, or a restart. Each stanza signs its own cert.\n"

-- What `ssh-config` prints of the stanzas and the environments it skipped.
unfoldable pub config_ended : List Text → List (Text × Text) → Ended
config_ended [] skipped = record nothing_written {
  printed = skipped_lines skipped ++ nothing_written.printed;
}
config_ended (b ∷ blocks) skipped =
    well (skipped_lines skipped ++ (out preamble ∷ out (joined (b ∷ blocks)) ∷ []))

module _ {J X : Type 0} (wire : Wire J) (client : ApiClient X) (m : Machine)
    (is_address : Text → Bool) (ensure_key : Action (Local X) ClientError (Text × Text))
    (access_of : Option J → Result ClientError SshAccess)
    (id_of : Option J → Result ClientError Text)
    (shown_of : Option J → Result ClientError (List Shown)) (known_hosts_path exe : Text) where
  abbrev on_world : {A : Type 0} → Action X ClientError A → Action (Local X) ClientError A
  on_world act s = let (r, x) = act s.world in (r, record s { world = x })

  abbrev target_for : Text → SshAccess → Text → Target
  target_for id access key = record {
    host = access.host;
    user = access.user;
    key = key;
    cert = cert_path m id;
    known_hosts = known_hosts_path;
    jump = access.jump;
  }

  abbrev stored : Text → SshAccess → Local X → Local X
  stored id access s = record s {
    files = write_cert m id access.certificate s.files;
    known_hosts = write_known_hosts is_address access.host access.ca_pubkey s.known_hosts;
  }

  -- `_fetch_cert`; `ensure_key` gives the path of the key and its public half.
  unfoldable pub fetch_cert : Text → Action (Local X) ClientError Target
  unfolding ask write_cert write_known_hosts cert_path
  fetch_cert id = do
    key ← ensure_key
    answer ← on_world (ask wire client (ssh_cert id key.1))
    access ← lift (access_of answer)
    modify (stored id access)
    pure (target_for id access key.0)

  -- The program that `ssh` becomes.
  unfoldable pub ssh : Text → List Text → Bool → Action (Local X) ClientError (List Text)
  unfolding fetch_cert ssh_argv
  ssh id command no_forward_agent = do
    target ← fetch_cert id
    pure (ssh_argv target (not no_forward_agent) command)

  abbrev ids_of : List Shown → List Text
  ids_of shown = map (λ (d : Shown). d.id) shown

  -- The environments that were named, or those the user works in.
  unfoldable pub targets : List Text → Action (Local X) ClientError (List Text)
  unfolding ask is_mine
  targets [] = do
    who ← on_world (ask wire client whoami)
    me ← lift (id_of who)
    rows ← on_world (ask wire client (ls none))
    shown ← lift (shown_of rows)
    pure (ids_of (select (is_mine me) shown))
  targets (id ∷ ids) = pure (id ∷ ids)

  abbrev block_for : Text → Target → Text
  block_for sid target = ssh_config_block sid target (exe ++ (codes " cert " ++ sid))

  -- The stanzas, and the environments that the daemon signs no certificate for, with its reason.
  unfoldable pub stanzas : List Text → Action (Local X) ClientError (List Text × List (Text × Text))
  unfolding fetch_cert ssh_config_block
  stanzas [] = pure ([], [])
  stanzas (sid ∷ rest) =
      try (fetch_cert sid) (with_block sid (stanzas rest)) (skip sid (stanzas rest))
    where
      with_block :
          Text
          → Action (Local X) ClientError (List Text × List (Text × Text))
          → Target
          → Action (Local X) ClientError (List Text × List (Text × Text))
      with_block sid others target = do
        found ← others
        pure (block_for sid target ∷ found.0, found.1)

      skip :
          Text
          → Action (Local X) ClientError (List Text × List (Text × Text))
          → ClientError
          → Action (Local X) ClientError (List Text × List (Text × Text))
      skip sid others (api_error status message) = do
        found ← others
        pure (found.0, (sid, message) ∷ found.1)
      skip sid others (config_error message) = raise (config_error message)
      skip sid others (other message) = raise (other message)

  -- `ssh-config`
  unfoldable pub ssh_config : List Text → Action (Local X) ClientError Ended
  unfolding targets stanzas config_ended guarded
  ssh_config ids = try (targets ids) written_for refuse
    where
      written_for : List Text → Action (Local X) ClientError Ended
      written_for found = do made ← stanzas found; pure (config_ended made.0 made.1)

      refuse : ClientError → Action (Local X) ClientError Ended
      refuse e = lift (refused (λ message. message) false (guarded (λ message. message) false e) e)
