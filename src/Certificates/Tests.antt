-- ===== src/Certificates/Tests.antt =====
-- The theorem about certificates at a concrete input.
use cawl.Certificates.{
  SshCertAuthority, sign_user, sign, clean_pubkey, filled_lines, split_at, one_key, is_pubkey,
  is_key_body, with_key, Command, is_break,
}
use cawl.Prelude.{Text, codes, true, ok, ◌==◌, ◌≡◌, any, false, ◌∷◌, [], refl}
use cawl.Params.Patterns.{span}
use cawl.Naming.Labels.{strip, drop_while, drop_while_end}
use cawl.Certificates.Principals.{is_comma, sign_user_lem}

abbrev signer : SshCertAuthority
signer = record {
  user_ttl = codes "10m";
  host_ttl = codes "52w";
  has_key = true;
  keygen = λ command. ok (codes "certificate");
}

abbrev ann_key : Text
ann_key = codes "ssh-ed25519 AAAA ann"

sign_user_lem_example :
    (key : Text) × (command : Command) × (clean_pubkey ann_key ≡ ok key)
    × (signer.keygen command ≡ ok (codes "certificate"))
    × (command.public_key ≡ key)
    × (any is_break key ≡ false)
    × (split_at is_comma command.principals ≡ codes "acme" ∷ [])
    × (command.host ≡ false)
unfolding sign_user sign clean_pubkey filled_lines split_at one_key is_pubkey is_key_body with_key
    span strip drop_while drop_while_end ◌==◌
sign_user_lem_example =
    sign_user_lem signer ann_key (codes "acme") (codes "ann") (codes "certificate") refl
