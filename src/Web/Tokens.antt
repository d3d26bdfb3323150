-- ===== src/Web/Tokens.antt =====
-- API tokens: `ApiToken` of models.py, and who a request is from, in auth.py.
pub mod RoundTrip
use cawl.Prelude.{
  List, Option, Result, Text, ℕ, Action, Bool, codes, if◌then◌else◌, none, some, take, ◌∷◌, ◌&&◌,
  ◌++◌, ◌==◌, [], err, ok, true, false, ltb,
}
use cawl.Auth.{Principal, Role}
use cawl.Errors.{Error, integrity_error, value_error}
use cawl.Naming.Lifetimes.{compute_expiry, parse_ttl}

pub record ApiToken : Type 0 where
  pub name : Text
  pub subject : Text
  pub role : Text
  pub quota : Option ℕ
  pub max_ttl : Text
  pub backend : Text
  pub key_hash : Text
  pub prefix : Text
  pub created_by : Option Text
  pub created_at : ℕ
  pub expires_at : Option ℕ
  pub revoked_at : Option ℕ
  pub last_used_at : Option ℕ

-- The arguments of `mint`.
pub record Minting : Type 0 where
  pub name : Text
  pub subject : Text
  pub role : Text
  pub quota : Option ℕ
  pub max_ttl : Text
  pub backend : Text
  pub ttl : Option ℕ
  pub created_by : Option Text

pub record AuthContext : Type 0 where
  pub principal : Principal
  pub quota : Option ℕ
  pub max_ttl : Option ℕ
  pub backend : Text

-- A user of Django, as far as the code reads one.
pub record User : Type 0 where
  pub username : Text
  pub email : Text
  pub is_superuser : Bool

abbrev pub Tokens : Type 0
Tokens = List ApiToken

abbrev pub is_before : ℕ → Option ℕ → Bool
is_before now none = true
is_before now (some t) = ltb now t

abbrev pub unrevoked : Option ℕ → Bool
unrevoked none = true
unrevoked (some t) = false

unfoldable pub is_valid : ℕ → ApiToken → Bool
is_valid now tok = unrevoked tok.revoked_at && is_before now tok.expires_at

-- `Role(value)`
unfoldable pub role_of : Text → Result Error Role
role_of value =
    if value == codes "user"
    then ok Role.user
    else if value == codes "admin"
    then ok Role.admin
    else err (value_error value)

unfoldable pub role_for_user : User → Role
role_for_user user = if user.is_superuser then Role.admin else Role.user

abbrev pub role_value : Role → Text
role_value Role.user = codes "user"
role_value Role.admin = codes "admin"

-- `objects.get(key_hash=…)`; the column is unique.
unfoldable pub find_token : Text → Tokens → Option ApiToken
find_token key [] = none
find_token key (tok ∷ toks) = if tok.key_hash == key then some tok else find_token key toks

-- `tok.save(update_fields=["last_used_at"])`
abbrev pub touched : ℕ → ApiToken → ApiToken
touched now tok = record tok { last_used_at = some now }

unfoldable pub touch : Text → ℕ → Tokens → Tokens
touch key now [] = []
touch key now (tok ∷ toks) =
    if tok.key_hash == key then touched now tok ∷ toks else tok ∷ touch key now toks

-- `spec or None`
abbrev pub given : Text → Option Text
given [] = none
given (c ∷ spec) = some (c ∷ spec)

abbrev pub context_with :
    ApiToken → Result Error Role → Result Error (Option ℕ) → Result Error (Option AuthContext)
context_with tok (err e) max_ttl = err e
context_with tok (ok role) (err e) = err e
context_with tok (ok role) (ok max_ttl) = ok (
    some (record {
      principal = record { id = tok.subject; role = role };
      quota = tok.quota;
      max_ttl = max_ttl;
      backend = tok.backend;
    }))

abbrev pub context_of : ApiToken → Result Error (Option AuthContext)
context_of tok = context_with tok (role_of tok.role) (parse_ttl (given tok.max_ttl))

-- `hash_key` is SHA-256.
module _ (hash_key : Text → Text) where
  abbrev pub raw_of : Text → Text
  raw_of secret = codes "cawl_" ++ secret

  abbrev pub minted : Minting → Text → ℕ → ApiToken
  minted m secret now = record {
    name = m.name;
    subject = m.subject;
    role = m.role;
    quota = m.quota;
    max_ttl = m.max_ttl;
    backend = m.backend;
    key_hash = hash_key (raw_of secret);
    prefix = take 12 (raw_of secret);
    created_by = m.created_by;
    created_at = now;
    expires_at = compute_expiry now m.ttl;
    revoked_at = none;
    last_used_at = none;
  }

  abbrev create_at : Option ApiToken → Minting → Text → ℕ → Action Tokens Error Text
  create_at (some tok) m secret now toks = (err (integrity_error (raw_of secret)), toks)
  create_at none m secret now toks = (ok (raw_of secret), toks ++ (minted m secret now ∷ []))

  -- `mint`, for what `secrets.token_urlsafe(32)` returns: the raw token, shown once.
  unfoldable pub mint : Minting → Text → ℕ → Action Tokens Error Text
  unfolding find_token
  mint m secret now toks = create_at (find_token (hash_key (raw_of secret)) toks) m secret now toks

  abbrev authenticated : Option ApiToken → Text → ℕ → Action Tokens Error (Option AuthContext)
  authenticated none raw now toks = (ok none, toks)
  authenticated (some tok) raw now toks =
      if is_valid now tok then (context_of tok, touch (hash_key raw) now toks) else (ok none, toks)

  unfoldable pub authenticate_token : Text → ℕ → Action Tokens Error (Option AuthContext)
  unfolding is_valid
  authenticate_token raw now toks = authenticated (find_token (hash_key raw) toks) raw now toks

-- `SessionContextAuth`, for the user of Django's session, if there is one.
unfoldable pub session_context : Option User → Option AuthContext
unfolding role_for_user
session_context none = none
session_context (some user) = some (record {
  principal = record { id = user.username; role = role_for_user user };
  quota = none;
  max_ttl = none;
  backend = [];
})
