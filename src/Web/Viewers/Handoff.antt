-- ===== src/Web/Viewers/Handoff.antt =====
-- webauth.py: signing a viewer in, from the emailed link to the cookie of an exposed host, with the
-- one-time links of models.py.
use cawl.Prelude.{
  List, Option, Text, ℕ, Bool, codes, if◌then◌else◌, none, some, ◌∷◌, ◌++◌, ◌==◌, Action, Result,
  [], false, nat_beq, suc, ◌||◌, ◌&&◌, leb, not, true, ◌+◌, err, ltb, raise, ok, ◌>>=◌, pure,
}
use cawl.Web.Viewers.{
  Response, Site, Claims, Url, code_salt, cookie_claims, cookie_salt, email_of, exposure_for_host,
  forwarded_host, https, page, sso_cookie_salt, authorized, code_max_age, is_host, lower, redirect,
}
use cawl.Web.Tokens.{User}
use cawl.Store.Tables.{Store}
use cawl.Naming.Labels.{exposure_label, normalize, starts_with}
use cawl.Errors.{Error, integrity_error, value_error}
use cawl.Params.{empty_text}

pub record MagicToken : Type 0 where
  pub email : Text
  pub host : Text
  pub key_hash : Text
  pub created_at : ℕ
  pub expires_at : ℕ
  pub consumed_at : Option ℕ

-- A response with the cookie that it sets, by its name and value.
pub record Answer : Type 0 where
  pub response : Response
  pub cookie : Option (Text × Text)

-- The links in the database, and the mail that was sent: recipient and link.
pub record Desk : Type 0 where
  pub links : List MagicToken
  pub mail : List (Text × Text)

-- What `_valid_next` returns.
pub record Target : Type 0 where
  pub host : Text
  pub scheme : Text
  pub path : Text

abbrev pub web_cookie : Text
web_cookie = codes "__Host-cawl"

abbrev pub sso_cookie : Text
sso_cookie = codes "__Host-cawl-sso"

abbrev pub answer : Response → Answer
answer response = record { response = response; cookie = none }

unfoldable pub find_link : Text → List MagicToken → Option MagicToken
find_link key [] = none
find_link key (t ∷ ts) = if t.key_hash == key then some t else find_link key ts

abbrev pub is_set : Option ℕ → Bool
is_set none = false
is_set (some t) = true

-- The rows that `filter(pk=…, consumed_at__isnull=True, expires_at__gt=now)` selects; the key of a
-- row stands for its `pk`.
abbrev pub is_open : Text → ℕ → MagicToken → Bool
is_open key now t = (t.key_hash == key) && (not (is_set t.consumed_at) && ltb now t.expires_at)

-- The conditional update: how many rows it wrote, and the rows.
unfoldable pub claim_link : Text → ℕ → List MagicToken → ℕ × List MagicToken
claim_link key now [] = (0, [])
claim_link key now (t ∷ ts) =
    let (n, ts') = claim_link key now ts in
    if is_open key now t then (suc n, record t { consumed_at = some now } ∷ ts') else (n, t ∷ ts')

abbrev pub email_if_claimed : ℕ → Text → Option Text
email_if_claimed n email = if nat_beq n 1 then some email else none

abbrev pub is_spent : ℕ → MagicToken → Bool
is_spent now t = is_set t.consumed_at || leb t.expires_at now

abbrev pub consume_found :
    Option MagicToken → Option Text → ℕ → List MagicToken → Option Text × List MagicToken
consume_found none expected now ts = (none, ts)
consume_found (some t) none now ts = (if is_spent now t then none else some t.email, ts)
consume_found (some t) (some host) now ts =
    if is_spent now t || not (t.host == host)
    then (none, ts)
    else (let (n, ts') = claim_link t.key_hash now ts in (email_if_claimed n t.email, ts'))

abbrev pub path_of : Text → Text
path_of [] = codes "/"
path_of (c ∷ path) = c ∷ path

abbrev pub query_of : Text → Text
query_of [] = []
query_of (c ∷ query) = codes "?" ++ (c ∷ query)

abbrev pub is_http : Text → Bool
is_http scheme = (scheme == codes "https") || (scheme == codes "http")

abbrev pub present : Option Text → Option Text
present none = none
present (some []) = none
present (some (c ∷ s)) = some (c ∷ s)

abbrev both : Option Text → Option Text → Option (Text × Text)
both none h = none
both (some e) none = none
both (some e) (some h) = some (e, h)

abbrev pub email_at : Option Target → Option (Text × Text) → Option Text
email_at none identity = none
email_at (some target) none = none
email_at (some target) (some (email, host)) = if host == target.host then some email else none

abbrev pub host_of : Option Target → Option Text
host_of none = none
host_of (some target) = some target.host

abbrev pub identity_of : Option Claims → Option (Text × Text)
identity_of none = none
identity_of (some claims) = both (present claims.email) (present claims.host)

abbrev pub local_path : Text → Text
local_path next =
    if starts_with (codes "/") next && not (starts_with (codes "//") next) then next else codes "/"

module _ (site : Site) (users : List User) where
  -- `ViewerMagicToken.mint`, for what `secrets.token_urlsafe(32)` returns; the key is unique.
  abbrev pub minted_link : Text → Text → Text → ℕ → MagicToken
  minted_link email host raw now = record {
    email = normalize email;
    host = lower host;
    key_hash = site.hash_key raw;
    created_at = now;
    expires_at = now + site.magic_ttl;
    consumed_at = none;
  }

  abbrev insert_at : Option MagicToken → MagicToken → Text → Action (List MagicToken) Error Text
  insert_at (some t) link raw ts = (err (integrity_error raw), ts)
  insert_at none link raw ts = (ok raw, ts ++ (link ∷ []))

  unfoldable pub mint_link : Text → Text → Text → ℕ → Action (List MagicToken) Error Text
  unfolding find_link
  mint_link email host raw now ts =
      insert_at (find_link (site.hash_key raw) ts) (minted_link email host raw now) raw ts

  -- `_valid_next`
  abbrev pub target_at : Url → Text → Option Text → Option Target
  target_at u host none = none
  target_at u host (some label) =
      some (record { host = host; scheme = u.scheme; path = path_of u.path ++ query_of u.query })

  abbrev pub target_of : Url → Option Text → Option Target
  target_of u none = none
  target_of u (some hostname) =
      if is_http u.scheme && not (empty_text hostname)
      then target_at u (lower hostname) (exposure_label (lower hostname) site.public_domain)
      else none

  abbrev pub target_of_url : Option Url → Option Target
  target_of_url none = none
  target_of_url (some u) = target_of u u.hostname

  unfoldable pub valid_next : Text → Option Target
  unfolding exposure_label
  valid_next next_url = target_of_url (site.parse_url next_url)

  -- `_consume_magic_token`
  unfoldable pub consume_magic_token :
      Text → Option Text → ℕ → List MagicToken → Option Text × List MagicToken
  unfolding find_link claim_link
  consume_magic_token raw expected now ts =
      consume_found (find_link (site.hash_key raw) ts) expected now ts

  -- `_handoff`
  abbrev pub code_for : Text → Text → ℕ → Text
  code_for email host now =
      site.dumps code_salt now (record { email = some (normalize email); host = some host })

  abbrev pub callback_url : Target → Text → Text
  callback_url target code =
      target.scheme
      ++ (codes "://"
          ++ (target.host
              ++ (codes "/.cawl/callback?"
                  ++ site.urlencode ((codes "code", code) ∷ (codes "next", target.path) ∷ []))))

  abbrev pub handoff : Text → Option Target → ℕ → Response
  handoff email none now = page 400
  handoff email (some target) now = redirect (callback_url target (code_for email target.host now))

  -- `_sso_identity`
  unfoldable pub sso_identity : Option Text → ℕ → Option (Text × Text)
  sso_identity cookie now = identity_of (cookie_claims site users sso_cookie_salt now cookie)

  abbrev pub session_email : Option User → Option Text
  session_email none = none
  session_email (some user) = some (email_of user)

  -- `email or email_of(request.user)`: the cookie's address comes first where it is not empty.
  abbrev pub or_session : Option Text → Option User → Option Text
  or_session none user = session_email user
  or_session (some email) user = some email

  abbrev pub handoff_or_form : Option Text → Option Target → ℕ → Response
  handoff_or_form none target now = page 200
  handoff_or_form (some email) target now = handoff email target now

  unfoldable pub sso : Text → Option Text → Option User → ℕ → Response
  unfolding valid_next sso_identity
  sso next cookie user now =
      let target = valid_next next in
      handoff_or_form (present (or_session (email_at target (sso_identity cookie now)) user)) target
        now

  -- `magic_link`, for a target that `_valid_next` found.
  abbrev pub link_url : Text → Text → Text
  link_url raw next =
      https
      ++ (site.auth_host
          ++ (codes "/auth/magic?"
              ++ site.urlencode ((codes "token", raw) ∷ (codes "next", next) ∷ [])))

  abbrev pub link_to : Option Target → Text → Text → Text → ℕ → Action (List MagicToken) Error Text
  link_to none email next raw now = raise (value_error next)
  link_to (some target) email next raw now =
      mint_link email target.host raw now >>= λ token. pure (link_url token next)

  unfoldable pub magic_link : Text → Text → Text → ℕ → Action (List MagicToken) Error Text
  unfolding valid_next mint_link
  magic_link email next raw now = link_to (valid_next next) email next raw now

  -- `login_submit`: the link goes out only to an address that the exposure would let in.
  abbrev pub may_enter : Text → Option Target → Store → Bool
  may_enter email none s = false
  may_enter email (some target) s = elim (exposure_for_host site users target.host s) [
    | none ↦ false
    | some (sb, exp) ↦ authorized site users email sb exp s
  ]

  abbrev pub send_link : Text → Result Error Text × List MagicToken → Action Desk Error Response
  send_link email (err e, links) desk = (err e, record desk { links = links })
  send_link email (ok url, links) desk =
      (ok (page 200), record { links = links; mail = desk.mail ++ ((email, url) ∷ []) })

  unfoldable pub login_submit : Text → Text → Text → ℕ → Store → Action Desk Error Response
  unfolding magic_link valid_next exposure_for_host authorized
  login_submit form next raw now s desk =
      let email = normalize form in
      if not (empty_text email) && may_enter email (valid_next next) s
      then send_link email (magic_link email next raw now desk.links) desk
      else (ok (page 200), desk)

  -- `magic`
  abbrev pub sso_value : Text → Text → ℕ → Text
  sso_value email host now =
      site.dumps sso_cookie_salt now (record { email = some email; host = some host })

  abbrev pub signed_in : Option Text → Option Target → ℕ → Answer
  signed_in none target now = answer (page 410)
  signed_in (some email) none now = answer (page 400)
  signed_in (some email) (some target) now = record {
    response = handoff email (some target) now;
    cookie = some (sso_cookie, sso_value email target.host now);
  }

  unfoldable pub magic : Text → Text → ℕ → List MagicToken → Answer × List MagicToken
  unfolding consume_magic_token valid_next
  magic token next now ts =
      let (email, ts') = consume_magic_token token (host_of (valid_next next)) now ts in
      (signed_in email (valid_next next) now, ts')

  -- `callback`, for the header `Host`; a code without an address raises.
  abbrev pub web_value : Text → Text → ℕ → Text
  web_value email host now =
      site.dumps cookie_salt now (record { email = some email; host = some host })

  abbrev pub redeemed : Option Text → Text → Text → ℕ → Answer
  redeemed none host next now = answer (page 500)
  redeemed (some email) host next now = record {
    response = redirect (local_path next);
    cookie = some (web_cookie, web_value email host now);
  }

  abbrev pub redeem : Option Claims → Text → Text → ℕ → Answer
  redeem none host next now = answer (page 400)
  redeem (some claims) host next now =
      if is_host claims.host host then redeemed claims.email host next now else answer (page 400)

  unfoldable pub callback : Text → Text → Text → ℕ → Answer
  unfolding forwarded_host
  callback header code next now =
      redeem (site.loads code_salt code_max_age now code) (forwarded_host header) next now

-- `logout_view`: the cookie is deleted, which sets it to nothing.
abbrev pub logout_view : Answer
logout_view = record { response = page 200; cookie = some (web_cookie, []) }
