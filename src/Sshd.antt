-- ===== src/Sshd.antt =====
-- server/cawl_core/runtime/sshd.py: the scripts that teach the sshd of a box the certificate
-- authority, and install the certificate of its host key.
use cawl.Prelude.{Text, List, codes, ◌++◌, ◌∷◌, []}
use cawl.Params.Templates.{quote}

abbrev ca_key : Text
ca_key = codes "/etc/ssh/cawl_ca.pub"

abbrev principals_dir : Text
principals_dir = codes "/etc/ssh/authorized_principals"

abbrev host_key_pub : Text
host_key_pub = codes "/etc/ssh/ssh_host_ed25519_key.pub"

abbrev host_cert : Text
host_cert = codes "/etc/ssh/ssh_host_ed25519_key-cert.pub"

abbrev conf_dir : Text
conf_dir = codes "/etc/ssh/sshd_config.d"

abbrev user_ca_conf : Text
user_ca_conf = conf_dir ++ codes "/10-cawl-ca.conf"

abbrev host_cert_conf : Text
host_cert_conf = conf_dir ++ codes "/20-cawl-host.conf"

abbrev reload : Text
reload =
    codes "systemctl reload ssh 2>/dev/null || systemctl reload sshd 2>/dev/null "
    ++ codes "|| systemctl restart ssh 2>/dev/null || systemctl restart sshd"

-- The lines of a triple-quoted text.
abbrev pub lines : List Text → Text
lines [] = []
lines (l ∷ []) = l
lines (l ∷ m ∷ ls) = l ++ (10 ∷ lines (m ∷ ls))

-- The indentation of the scripts in the source.
abbrev pub in8 : Text → Text
in8 l = codes "        " ++ l

-- `printf '%s\n' word > file`
abbrev print_to : Text → Text → Text
print_to word file = in8 (codes "printf '%s\\n' " ++ (word ++ (codes " > " ++ file)))

abbrev chmod : Text → Text
chmod file = in8 (codes "chmod 644 " ++ file)

abbrev here_doc : Text → Text
here_doc file = in8 (codes "cat > " ++ (file ++ codes " <<'EOF'"))

unfoldable pub trust_script : Text → Text → Text → Text
trust_script ca_pubkey principal login_user = lines (
    codes "set -e"
    ∷ print_to (quote ca_pubkey) ca_key
    ∷ chmod ca_key
    ∷ in8 (codes "install -d -m755 " ++ conf_dir)
    ∷ in8 (codes "install -d -m755 " ++ principals_dir)
    ∷ print_to (quote principal) (principals_dir ++ (codes "/" ++ quote login_user))
    ∷ chmod (principals_dir ++ (codes "/" ++ quote login_user))
    ∷ here_doc user_ca_conf
    ∷ codes "# cawl: a user cert signed by the CA, whose principal is this instance id, is"
    ∷ codes "# the only way in. The daemon decides who gets one."
    ∷ (codes "TrustedUserCAKeys " ++ ca_key)
    ∷ (codes "AuthorizedPrincipalsFile " ++ (principals_dir ++ codes "/%u"))
    ∷ codes "PubkeyAuthentication yes"
    ∷ codes "PasswordAuthentication no"
    ∷ codes "EOF"
    ∷ chmod user_ca_conf
    ∷ in8 (codes "# The golden image ships without host keys (they're wiped so clones don't")
    ∷ in8 (codes "# share an identity), so make sure this box has generated its own.")
    ∷ in8 (codes "ssh-keygen -A")
    ∷ in8 reload
    ∷ codes "    "
    ∷ [])

unfoldable pub read_host_pubkey_cmd : List Text
read_host_pubkey_cmd = codes "cat" ∷ host_key_pub ∷ []

unfoldable pub host_cert_script : Text → Text
host_cert_script cert = lines (
    codes "set -e"
    ∷ print_to (quote cert) host_cert
    ∷ chmod host_cert
    ∷ here_doc host_cert_conf
    ∷ (codes "HostCertificate " ++ host_cert)
    ∷ codes "EOF"
    ∷ chmod host_cert_conf
    ∷ in8 reload
    ∷ codes "    "
    ∷ [])
