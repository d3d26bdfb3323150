-- ===== src/Certificates.antt =====
-- server/cawl_core/ssh_ca.py: the certificates that open a box, and those that a box shows.
pub mod Principals
mod Tests
use cawl.Errors.{Error, signing_failed}
use cawl.Prelude.{
  List, Result, Text, ℕ, ◌++◌, Bool, codes, err, true, ◌∷◌, [], any, if◌then◌else◌, leb, ok, ◌&&◌,
  false, not, ◌||◌, drop, nat_beq, length,
}
use cawl.Params.Patterns.{span, is_lower, is_space, is_digit}
use cawl.Naming.Labels.{strip, starts_with}
use cawl.Params.{empty_text}

-- What `ssh-keygen` is called with.
pub record Command : Type 0 where
  pub key_id : Text
  pub principals : Text
  pub validity : Text
  pub host : Bool
  pub options : List Text
  pub public_key : Text

-- `SshCertAuthority`; `has_key` says that the key is there, and `keygen` what the command answers.
pub record SshCertAuthority : Type 0 where
  pub user_ttl : Text
  pub host_ttl : Text
  pub has_key : Bool
  pub keygen : Command → Result Error Text

-- The characters that `str.splitlines` splits at.
abbrev pub is_break : ℕ → Bool
is_break c = (leb 10 c && leb c 13) || (leb 28 c && leb c 30)

unfoldable pub split_at : (ℕ → Bool) → Text → List Text
split_at p [] = [] ∷ []
split_at p (c ∷ s) =
    let rest = split_at p s in
    if p c then [] ∷ rest else elim rest [ [] ↦ (c ∷ []) ∷ [] | line ∷ lines ↦ (c ∷ line) ∷ lines ]

-- `[ln.strip() for ln in text.splitlines() if ln.strip()]`
unfoldable pub filled_lines : List Text → List Text
unfolding strip
filled_lines [] = []
filled_lines (line ∷ lines) =
    let rest = filled_lines lines in
    if empty_text (strip is_space line) then rest else strip is_space line ∷ rest

-- `[A-Za-z0-9+/=]`
abbrev pub is_base64 : ℕ → Bool
is_base64 c =
    is_lower c
    || (leb b'A' c && leb c b'Z')
    || is_digit c
    || nat_beq c b'+'
    || nat_beq c b'/'
    || nat_beq c b'='

abbrev pub key_types : List Text
key_types =
    codes "ssh-ed25519"
    ∷ codes "ssh-rsa"
    ∷ codes "ecdsa-sha2-nistp256"
    ∷ codes "ecdsa-sha2-nistp384"
    ∷ codes "ecdsa-sha2-nistp521"
    ∷ codes "sk-ssh-ed25519@openssh.com"
    ∷ codes "sk-ecdsa-sha2-nistp256@openssh.com"
    ∷ []

-- `(\\s+\\S.*)?$`, on a line without white space at its end
abbrev is_comment : Text → Bool
is_comment [] = true
is_comment (c ∷ s) = is_space c

-- `\\s+[A-Za-z0-9+/=]+(\\s+\\S.*)?$`
unfoldable pub is_key_body : Text → Bool
unfolding span
is_key_body s =
    let (spaces, body) = span is_space s in
    let (key, comment) = span is_base64 body in
    not (empty_text spaces) && (not (empty_text key) && is_comment comment)

-- `_PUBKEY`
unfoldable pub is_pubkey : Text → Bool
unfolding is_key_body
is_pubkey line = any (λ t. starts_with t line && is_key_body (drop (length t) line)) key_types

-- `_clean_pubkey`
abbrev pub bad_key : Error
bad_key = signing_failed (codes "not a single valid SSH public key")

unfoldable pub one_key : List Text → Result Error Text
unfolding is_pubkey
one_key [] = err bad_key
one_key (line ∷ []) = if is_pubkey line then ok line else err bad_key
one_key (line ∷ other ∷ lines) = err bad_key

unfoldable pub clean_pubkey : Text → Result Error Text
unfolding filled_lines split_at one_key
clean_pubkey text = one_key (filled_lines (split_at is_break text))

-- `not p or re.search(r"[\\s,]", p)`
abbrev pub is_separator : ℕ → Bool
is_separator c = is_space c || nat_beq c b','

abbrev pub is_bad_principal : Text → Bool
is_bad_principal p = empty_text p || any is_separator p

unfoldable pub join : List Text → Text
join [] = []
join (p ∷ []) = p
join (p ∷ q ∷ ps) = p ++ (b',' ∷ join (q ∷ ps))

module _ (ca : SshCertAuthority) where
  unfoldable pub with_key :
      Result Error Text → Text → List Text → Text → Bool → List Text → Result Error Text
  unfolding join
  with_key (err e) key_id principals ttl host options = err e
  with_key (ok key) key_id principals ttl host options = ca.keygen (record {
    key_id = key_id;
    principals = join principals;
    validity = b'+' ∷ ttl;
    host = host;
    options = options;
    public_key = key;
  })

  -- `_sign`
  unfoldable pub sign : Text → Text → List Text → Text → Bool → List Text → Result Error Text
  unfolding clean_pubkey with_key
  sign public_key key_id principals ttl host options =
      if not ca.has_key
      then err (signing_failed (codes "no CA key"))
      else if any is_bad_principal principals
      then err (signing_failed (codes "bad certificate principal"))
      else with_key (clean_pubkey public_key) key_id principals ttl host options

  abbrev pub user_options : List Text
  user_options = codes "clear" ∷ codes "permit-pty" ∷ codes "permit-agent-forwarding" ∷ []

  unfoldable pub sign_user : Text → Text → Text → Result Error Text
  unfolding sign
  sign_user public_key environment_id actor =
      sign public_key (actor ++ (b'@' ∷ environment_id)) (environment_id ∷ []) ca.user_ttl false
        user_options

  unfoldable pub sign_host : Text → Text → List Text → Result Error Text
  unfolding sign
  sign_host public_key environment_id hostnames =
      sign public_key environment_id hostnames ca.host_ttl true []
