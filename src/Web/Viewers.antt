-- ===== src/Web/Viewers.antt =====
-- webauth.py: who may see an exposure, decided on every request that Traefik forwards.
pub mod Handoff
pub mod OneUse
pub mod SignIn
pub mod Allows
use cawl.Prelude.{
  List, Option, Text, ℕ, ◌++◌, ◌==◌, Bool, codes, map, not, some, ◌∷◌, [], false, if◌then◌else◌,
  nat_beq, none, true, any, contains, ◌||◌, Result,
}
use cawl.Models.{Status, Environment}
use cawl.Web.Tokens.{User, role_for_user}
use cawl.Params.Patterns.{span}
use cawl.Auth.{Principal, Role, can_view}
use cawl.Store.Tables.{Row, Store, ExposureRow, find_row, get}
use cawl.Naming.Labels.{normalize, to_lower, exposure_label}
use cawl.Params.{empty_text}
use cawl.Errors.{Error}

-- What a view answers: the visitor is let through, sent elsewhere, or shown a page, with its status.
pub data Response : Type 0 where
  allow : Text → Response
  redirect : Text → Response
  page : ℕ → Response

-- The object that a signed value holds: the keys `e` and `h`.
pub record Claims : Type 0 where
  pub email : Option Text
  pub host : Option Text

-- What `urlparse` finds in a URL; reading a port that is no port number raises.
pub record Url : Type 0 where
  pub scheme : Text
  pub hostname : Option Text
  pub path : Text
  pub query : Text
  pub port : Result Error (Option ℕ)

-- Settings, and the libraries that the views call. `loads` takes the salt, the greatest age and the
-- time, and refuses a value that is altered, of another salt, or too old; `dumps` takes the salt and
-- the time. `parse_url` refuses what `urlparse` raises on.
pub record Site : Type 0 where
  pub public_domain : Text
  pub auth_host : Text
  pub session_ttl : ℕ
  pub magic_ttl : ℕ
  pub loads : Text → ℕ → ℕ → Text → Option Claims
  pub dumps : Text → ℕ → Claims → Text
  pub parse_url : Text → Option Url
  pub urlencode : List (Text × Text) → Text
  pub hash_key : Text → Text

abbrev pub cookie_salt : Text
cookie_salt = codes "cawl.web-session"

abbrev pub sso_cookie_salt : Text
sso_cookie_salt = codes "cawl.viewer-sso"

abbrev pub code_salt : Text
code_salt = codes "cawl.handoff-code"

abbrev pub code_max_age : ℕ
code_max_age = 60

-- `ALIVE`
abbrev pub alive : Status → Bool
alive Status.creating = true
alive Status.ready = true
alive Status.stopped = true
alive _ = false

-- `email_of`
abbrev username_if_blank : Text → Text → Text
username_if_blank [] username = username
username_if_blank (c ∷ email) username = c ∷ email

abbrev pub email_of : User → Text
email_of user = normalize (username_if_blank user.email user.username)

-- `account_for_email`: the users in the order of their keys; a match of the address comes first.
abbrev pub lower : Text → Text
lower s = map to_lower s

unfoldable pub first_user : (User → Bool) → List User → Option User
first_user p [] = none
first_user p (u ∷ us) = if p u then some u else first_user p us

abbrev or_user : Option User → Option User → Option User
or_user none u = u
or_user (some v) u = some v

unfoldable pub account_for_email : Text → List User → Option User
unfolding first_user
account_for_email email users =
    or_user (first_user (λ u. lower u.email == lower email) users)
      (first_user (λ u. lower u.username == lower email) users)

abbrev pub viewer_named : Text → Principal
viewer_named email = record { id = normalize email; role = Role.user }

abbrev pub principal_of : Text → Option User → Principal
principal_of email none = viewer_named email
principal_of email (some user) =
    if any (λ c. nat_beq c b'@') user.username
    then viewer_named email
    else record { id = user.username; role = role_for_user user }

unfoldable pub principal_for_email : Text → List User → Principal
unfolding account_for_email role_for_user
principal_for_email email users = principal_of email (account_for_email email users)

-- The exposure at a label, and the row of its environment, where that is alive.
abbrev pub exposed_at : Option Row → ExposureRow → Option (Row × ExposureRow)
exposed_at none e = none
exposed_at (some r) e = if alive r.status then some (r, e) else none

unfoldable pub exposed_in : Text → Store → List ExposureRow → Option (Row × ExposureRow)
exposed_in label s [] = none
exposed_in label s (e ∷ es) =
    let rest = exposed_in label s es in
    if e.name == label
    then elim (exposed_at (find_row e.environment s.rows) e) [
      | none ↦ rest
      | some found ↦ some found
    ]
    else rest

abbrev pub labelled : Option Text → Store → Option (Row × ExposureRow)
labelled none s = none
labelled (some label) s = exposed_in label s s.exposures

-- The host of the header `X-Forwarded-Host`, without its port.
unfoldable pub forwarded_host : Text → Text
unfolding span
forwarded_host header = lower (span (λ c. not (nat_beq c b':')) header).0

abbrev pub https : Text
https = codes "https://"

-- `data.get("h") == host`, and then `data.get("e")`.
abbrev pub is_host : Option Text → Text → Bool
is_host none host = false
is_host (some h) host = h == host

abbrev pub email_if_host : Text → Option Claims → Option Text
email_if_host host none = none
email_if_host host (some claims) = if is_host claims.host host then claims.email else none

module _ (site : Site) (users : List User) where
  -- `_exposure_for_host`
  unfoldable pub exposure_for_host : Text → Store → Option (Row × ExposureRow)
  unfolding exposed_in exposure_label
  exposure_for_host host s = labelled (exposure_label host site.public_domain) s

  abbrev pub may_view : Text → Option Environment → Bool
  may_view email none = false
  may_view email (some inst) = can_view (principal_for_email email users) inst

  -- `_authorized`
  unfoldable pub authorized : Text → Row → ExposureRow → Store → Bool
  unfolding normalize
  authorized email sb exp s =
      contains (map normalize exp.exposure.access) (normalize email)
      || may_view (normalize email) (get sb.id s)

  abbrev pub cookie_claims : Text → ℕ → Option Text → Option Claims
  cookie_claims salt now none = none
  cookie_claims salt now (some []) = none
  cookie_claims salt now (some (c ∷ raw)) = site.loads salt site.session_ttl now (c ∷ raw)

  -- `_cookie_email`
  unfoldable pub cookie_email : Option Text → Text → ℕ → Option Text
  cookie_email cookie host now = email_if_host host (cookie_claims cookie_salt now cookie)

  abbrev pub login_url : Text → Text
  login_url original =
      https
      ++ (site.auth_host ++ (codes "/auth/sso?" ++ site.urlencode ((codes "next", original) ∷ [])))

  abbrev pub decided : Text → Row → ExposureRow → Store → Response
  decided email sb exp s = if authorized email sb exp s then allow email else page 403

  abbrev pub for_viewer : Option Text → Text → Row → ExposureRow → Store → Response
  for_viewer none original sb exp s = redirect (login_url original)
  for_viewer (some email) original sb exp s = decided email sb exp s

  abbrev pub for_exposure :
      Option (Row × ExposureRow) → Option Text → Text → Text → ℕ → Store → Response
  for_exposure none cookie host original now s = page 404
  for_exposure (some (sb, exp)) cookie host original now s =
      for_viewer (cookie_email cookie host now) original sb exp s

  -- `forward_auth`, for the headers `X-Forwarded-Host`, `X-Forwarded-Proto` and `X-Forwarded-Uri`,
  -- which are empty where they are missing, and the cookie.
  unfoldable pub forward_auth : Text → Text → Text → Option Text → ℕ → Store → Response
  unfolding exposure_for_host cookie_email authorized
  forward_auth header proto uri cookie now s =
      let host = forwarded_host header in
      let scheme = if empty_text proto then codes "https" else proto in
      let path = if empty_text uri then codes "/" else uri in
      for_exposure (exposure_for_host host s) cookie host
        (scheme ++ (codes "://" ++ (host ++ path))) now s
