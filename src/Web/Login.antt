-- ===== src/Web/Login.antt =====
-- cli_auth.py: the sign-in of the command line, which hands a token to the user's own machine.
pub mod Handover
use cawl.Prelude.{
  Option, Text, ℕ, ◌++◌, Bool, if◌then◌else◌, ◌∷◌, Action, [], any, codes, false, nat_beq, some,
  ◌==◌, none, true, ◌&&◌, pure, ◌||◌, ◌>>=◌, Result, err, ok, raise,
}
use cawl.Web.Viewers.{Site, Url}
use cawl.Web.Tokens.{User, mint, Minting, role_for_user, Tokens, role_value}
use cawl.Errors.{Error}

pub data Method : Type 0 where
  get post : Method

-- What the view answers: a refusal, the page that asks for a confirmation, the page that shows a
-- token, or a redirect.
pub data Reply : Type 0 where
  bad_request : Reply
  confirm : Reply
  code_page : Text → Reply
  redirect_to : Text → Reply

-- What `request` holds: each value is empty where it is missing.
pub record LoginRequest : Type 0 where
  pub method : Method
  pub get_callback : Text
  pub post_callback : Text
  pub get_state : Text
  pub post_state : Text
  pub user : User

abbrev pub or_text : Text → Text → Text
or_text [] s = s
or_text (c ∷ t) s = c ∷ t

abbrev pub is_local : Option Text → Bool
is_local none = false
is_local (some hostname) = (hostname == codes "127.0.0.1") || (hostname == codes "localhost")

abbrev pub is_some_port : Result Error (Option ℕ) → Result Error Bool
is_some_port (err e) = err e
is_some_port (ok none) = ok false
is_some_port (ok (some port)) = ok true

abbrev pub is_loopback_url : Option Url → Result Error Bool
is_loopback_url none = ok false
is_loopback_url (some u) =
    if (u.scheme == codes "http") && is_local u.hostname then is_some_port u.port else ok false

abbrev pub ninety_days : ℕ
ninety_days = 7776000

module _ (site : Site) where
  -- `_is_loopback`
  unfoldable pub is_loopback : Text → Result Error Bool
  is_loopback url = is_loopback_url (site.parse_url url)

  abbrev pub callback_is_safe : Text → Result Error Bool
  callback_is_safe [] = ok true
  callback_is_safe (c ∷ callback) = is_loopback (c ∷ callback)

  abbrev pub minting_for : User → Minting
  minting_for user = record {
    name = codes "cli-login:" ++ user.username;
    subject = user.username;
    role = role_value (role_for_user user);
    quota = none;
    max_ttl = [];
    backend = [];
    ttl = some ninety_days;
    created_by = some user.username;
  }

  abbrev pub separator : Text → Text
  separator callback = if any (λ c. nat_beq c b'?') callback then codes "&" else codes "?"

  abbrev pub callback_with : Text → Text → Text → Text
  callback_with callback raw state =
      callback
      ++ (separator callback ++ site.urlencode ((codes "token", raw) ∷ (codes "state", state) ∷ []))

  abbrev pub delivered : Text → Text → Text → Reply
  delivered [] state raw = code_page raw
  delivered (c ∷ callback) state raw = redirect_to (callback_with (c ∷ callback) raw state)

  abbrev pub replied : Method → Text → Text → User → Text → ℕ → Action Tokens Error Reply
  replied get callback state user secret now = pure confirm
  replied post callback state user secret now =
      mint site.hash_key (minting_for user) secret now >>= λ raw.
      pure (delivered callback state raw)

  abbrev pub replied_if :
      Result Error Bool → Method → Text → Text → User → Text → ℕ → Action Tokens Error Reply
  replied_if (err e) method callback state user secret now = raise e
  replied_if (ok false) method callback state user secret now = pure bad_request
  replied_if (ok true) method callback state user secret now =
      replied method callback state user secret now

  -- `cli_login`, for a user who is logged in, and what `secrets` returns.
  unfoldable pub cli_login : LoginRequest → Text → ℕ → Action Tokens Error Reply
  unfolding mint role_for_user is_loopback
  cli_login request secret now =
      let callback = or_text request.get_callback request.post_callback in
      let state = or_text request.get_state request.post_state in
      replied_if (callback_is_safe callback) request.method callback state request.user secret now
