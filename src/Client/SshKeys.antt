-- ===== src/Client/SshKeys.antt =====
-- cli/src/cawl/sshkeys.py: the files and the options for `ssh`. A file is its text,
-- and `ipaddress` and `ssh-keygen` are parameters.
pub mod KnownHosts
pub mod Options
use cawl.Prelude.{
  Text, List, Option, codes, ◌++◌, ◌∷◌, [], none, some, Bool, true, false, if◌then◌else◌, contains,
  select, not, nat_beq, any, put, leb, ◌&&◌, ◌||◌, ℕ,
}
use cawl.Incus.Commands.{includes}
use cawl.Naming.Labels.{strip}
use cawl.Params.Patterns.{is_space}
use cawl.Client.Credentials.{Machine, Files, config_dir, private_mode, written}

abbrev newline : Text
newline = 10 ∷ []

-- The paths in the directory of the credentials.
unfoldable pub key_path : Machine → Text
unfolding config_dir
key_path m = config_dir m ++ codes "/id_ed25519"

unfoldable pub cert_path : Machine → Text → Text
unfolding config_dir
cert_path m id = config_dir m ++ (codes "/" ++ (id ++ codes "-cert.pub"))

unfoldable pub write_cert : Machine → Text → Text → Files → Files
unfolding cert_path put
write_cert m id cert files =
    let content = strip is_space cert ++ newline in
    private_mode (cert_path m id) content (written (cert_path m id) content files)

-- `host.split(".", 1)[1]`, if there is a dot
abbrev after_dot : Text → Option Text
after_dot [] = none
after_dot (c ∷ s) = if nat_beq c b'.' then some s else after_dot s

abbrev wildcard : Text → Option Text → Text
wildcard host none = host
wildcard host (some domain) = codes "*." ++ domain

unfoldable pub host_pattern : (Text → Bool) → Text → Text
host_pattern is_address host = if is_address host then host else wildcard host (after_dot host)

-- How a line of a certificate authority for a pattern begins.
abbrev pub marker : Text → Text
marker pattern = codes "@cert-authority " ++ (pattern ++ codes " ")

unfoldable pub ca_line : Text → Text → Text
unfolding strip
ca_line pattern ca_pubkey = marker pattern ++ (strip is_space ca_pubkey ++ newline)

abbrev pub is_marked : Text → Text → Bool
is_marked pattern line = includes (marker pattern) line

-- The line breaks of `str.splitlines`.
abbrev pub is_break : ℕ → Bool
is_break c =
    (leb 10 c && leb c 13)
    || (leb 28 c && leb c 30)
    || nat_beq c 133
    || nat_beq c 8232
    || nat_beq c 8233

abbrev pub starts_at : ℕ → Text → Bool
starts_at d [] = false
starts_at d (c ∷ s) = nat_beq c d

abbrev pub on_first : ℕ → List Text → List Text
on_first c [] = (c ∷ []) ∷ []
on_first c (l ∷ ls) = (c ∷ l) ∷ ls

-- `splitlines(keepends=True)`; a carriage return and a newline are one break.
unfoldable pub lines_of : Text → List Text
lines_of [] = []
lines_of (c ∷ s) =
    let rest = lines_of s in
    if is_break c && not (nat_beq c 13 && starts_at 10 s) then (c ∷ []) ∷ rest else on_first c rest

-- `"".join(lines)`
abbrev pub concat : List Text → Text
concat [] = []
concat (l ∷ ls) = l ++ concat ls

-- `write_known_hosts`, on the text of the file, which is empty where there is none.
unfoldable pub write_known_hosts : (Text → Bool) → Text → Text → Text → Text
unfolding host_pattern ca_line lines_of
write_known_hosts is_address host ca_pubkey existing =
    let pattern = host_pattern is_address host in
    let line = ca_line pattern ca_pubkey in
    if contains (lines_of existing) line
    then existing
    else concat (select (λ ln. not (is_marked pattern ln)) (lines_of existing)) ++ line

-- `_conf_path`
unfoldable pub conf_path : Text → Text
conf_path p = if any (λ c. nat_beq c b' ') p then b'"' ∷ (p ++ (b'"' ∷ [])) else p

-- The arguments that both forms take.
pub record Target : Type 0 where
  pub host : Text
  pub user : Text
  pub key : Text
  pub cert : Text
  pub known_hosts : Text
  -- empty for none
  pub jump : Text

abbrev proxy_command : Text → Text
proxy_command jump = codes "ssh -W %h:%p " ++ jump

abbrev pub proxied : Text → List (Text × Text)
proxied [] = []
proxied (c ∷ jump) = (codes "ProxyCommand", proxy_command (c ∷ jump)) ∷ []

-- The lines of a stanza below its head, as keywords and arguments.
unfoldable pub stanza : Target → List (Text × Text)
unfolding conf_path
stanza t =
    (codes "HostName", t.host)
    ∷ (codes "User", t.user)
    ∷ (codes "IdentityFile", conf_path t.key)
    ∷ (codes "CertificateFile", conf_path t.cert)
    ∷ (codes "IdentitiesOnly", codes "yes")
    ∷ (codes "UserKnownHostsFile", conf_path t.known_hosts)
    ∷ (codes "StrictHostKeyChecking", codes "yes")
    ∷ (codes "ForwardAgent", codes "no")
    ∷ proxied t.jump

abbrev refreshed : Text → Text
refreshed [] = []
refreshed (c ∷ refresh) = codes " exec \"" ++ ((c ∷ refresh) ++ codes "\"")

unfoldable pub stanza_lines : List (Text × Text) → Text
stanza_lines [] = []
stanza_lines ((k, v) ∷ body) =
    codes "    " ++ (k ++ (codes " " ++ (v ++ (newline ++ stanza_lines body))))

unfoldable pub ssh_config_block : Text → Target → Text → Text
unfolding stanza stanza_lines
ssh_config_block alias t refresh =
    codes "Match host " ++ (alias ++ (refreshed refresh ++ (newline ++ stanza_lines (stanza t))))

abbrev pub jumping : Text → List Text
jumping [] = []
jumping (c ∷ jump) = codes "-o" ∷ (codes "ProxyCommand=" ++ proxy_command (c ∷ jump)) ∷ []

abbrev pub forwarding : Bool → List Text
forwarding true = codes "-o" ∷ codes "ForwardAgent=yes" ∷ []
forwarding false = []

abbrev pub commanded : List Text → List Text
commanded [] = []
commanded (c ∷ command) = codes "--" ∷ c ∷ command

unfoldable pub ssh_argv : Target → Bool → List Text → List Text
ssh_argv t forward_agent command =
    codes "ssh"
    ∷ codes "-i"
    ∷ t.key
    ∷ codes "-o"
    ∷ (codes "CertificateFile=" ++ t.cert)
    ∷ codes "-o"
    ∷ codes "IdentitiesOnly=yes"
    ∷ codes "-o"
    ∷ (codes "UserKnownHostsFile=" ++ t.known_hosts)
    ∷ codes "-o"
    ∷ codes "StrictHostKeyChecking=yes"
    ∷ (jumping t.jump
        ++ (forwarding forward_agent ++ ((t.user ++ (b'@' ∷ t.host)) ∷ commanded command)))
