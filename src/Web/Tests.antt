-- ===== src/Web/Tests.antt =====
-- The theorems about the web at concrete inputs.
use cawl.Web.Viewers.{
  Claims, Site, forward_auth, forwarded_host, exposure_for_host, cookie_email, authorized,
  exposed_in, account_for_email, first_user, cookie_salt, alive, principal_for_email,
}
use cawl.Store.Tables.{ExposureRow, Store, find_row, Row, get}
use cawl.Config.Yaml.{scalar, mapping, entry, no_entries, string}
use cawl.Prelude.{
  List, Text, codes, some, false, if◌then◌else◌, none, ◌∷◌, ◌==◌, [], ok, ◌≤◌, ◌≡◌, refl, true,
  contains, map, ◌⊎◌, inl, arith, Bool-cases, inr, ◌+◌, leb, zero, suc, Option, eq_refl, ℕ,
}
use cawl.Web.Viewers.Handoff.{MagicToken, Target, callback, code_for, web_cookie}
use cawl.Web.Viewers.OneUse.{signed_in_by, minting, following, signed_in_by-once}
use cawl.Web.Tokens.{User, role_for_user, Minting, find_token, mint, authenticate_token, role_of}
use cawl.Store.Tests.{idle, acme_row}
use cawl.Naming.Labels.{normalize, exposure_label, strip, drop_while, drop_while_end}
use cawl.Params.Patterns.{span}
use cawl.Web.Viewers.SignIn.{callback-handoff}
use cawl.Models.{Environment}
use cawl.Auth.{can_view, Role}
use cawl.Web.Viewers.Allows.{forward_auth_allows}
use cawl.Web.Login.{LoginRequest, cli_login, Method, callback_is_safe, code_page, delivered}
use cawl.Web.Templates.{
  Registry, TemplateVersion, find_version, new_template, publish, find_template,
}
use cawl.Store.Upsert.{fill, new_row}
use cawl.Web.Tokens.RoundTrip.{authenticate_token-mint}
use cawl.Naming.Lifetimes.{parse_ttl, compute_expiry}
use cawl.Web.Login.Handover.{cli_login-authenticate_token}
use cawl.Web.Endpoints.{Deployment, config_of_row}
use cawl.Web.Templates.Handles.{IsCurrent, bodies, history}
use cawl.Control.Tests.{vms}
use cawl.Web.Endpoints.Pinned.{config_of_row-publish}
use cawl.Web.Templates.History.{publish-history}

abbrev app_host : Text
app_host = codes "acme.cawl.test"

abbrev ann : Text
ann = codes "ann@x.io"

abbrev ann_claims : Claims
ann_claims = record { email = some ann; host = some app_host }

-- Every URL leads to the one exposure, and every value that is signed is the one of its visitor.
abbrev site : Site
site = record {
  public_domain = codes "cawl.test";
  auth_host = codes "auth.cawl.test";
  session_ttl = 3600;
  magic_ttl = 900;
  loads = λ salt age now raw. if raw == codes "signed" then some ann_claims else none;
  dumps = λ salt now claims. codes "signed";
  parse_url = λ url. some (record {
    scheme = codes "https";
    hostname = some app_host;
    path = [];
    query = [];
    port = ok none;
  });
  urlencode = λ values. codes "q";
  hash_key = λ raw. raw;
}

abbrev here : Target
here = record { host = app_host; scheme = codes "https"; path = codes "/" }

abbrev users : List User
users = record { username = codes "ann"; email = ann; is_superuser = false } ∷ []

abbrev app : ExposureRow
app = record {
  environment = codes "acme";
  exposure = record { name = codes "acme"; port = 8080; access = ann ∷ [] };
}

abbrev web : Store
web = record idle { exposures = app ∷ [] }

abbrev link : MagicToken
link = record {
  email = ann;
  host = app_host;
  key_hash = codes "secret";
  created_at = 0;
  expires_at = 900;
  consumed_at = none;
}

forward_auth_allows_example :
    ((raw : Text) × (claims : Claims) × (some (codes "signed") ≡ some raw)
      × (site.loads cookie_salt site.session_ttl 50 raw ≡ some claims)
      × (claims.host ≡ some (forwarded_host app_host))
      × (claims.email ≡ some ann))
    × ((sb : Row) × (exp : ExposureRow) × (exposure_for_host site users
            (forwarded_host app_host)
            web
          ≡ some (sb, exp))
        × (alive sb.status ≡ true)
        × ((contains (map normalize exp.exposure.access) (normalize ann) ≡ true)
            ⊎ ((inst : Environment) × (get sb.id web ≡ some inst)
                × (can_view (principal_for_email (normalize ann) users) inst ≡ true))))
unfolding forward_auth exposure_for_host cookie_email authorized exposed_in forwarded_host
    exposure_label normalize strip drop_while drop_while_end span ◌==◌ find_row account_for_email
    first_user role_for_user fill new_row
forward_auth_allows_example =
    forward_auth_allows site users app_host [] [] ann (some (codes "signed")) 50 web refl

-- The row of the link, as both requests read it.
abbrev sent : MagicToken
sent = record {
  email = ann;
  host = app_host;
  key_hash = codes "secret";
  created_at = 0;
  expires_at = 900;
  consumed_at = none;
}

signed_in_by-once_example :
    signed_in_by site users
      (codes "secret")
      (minting ann app_host (codes "secret") 0
        ∷ following sent app_host 5
        ∷ following sent app_host 5
        ∷ [])
      []
    ≤ 1
signed_in_by-once_example = signed_in_by-once site users (codes "secret") (
    minting ann app_host (codes "secret") 0
    ∷ following sent app_host 5
    ∷ following sent app_host 5
    ∷ [])

-- A signature that spells out what it signs: a one before each character, a zero at the end.
unfoldable spelled : Text → Text → Text
spelled [] rest = 0 ∷ rest
spelled (c ∷ t) rest = 1 ∷ c ∷ spelled t rest

unfoldable read_text : Text → Text × Text
read_text [] = ([], [])
read_text (zero ∷ rest) = ([], rest)
read_text (suc m ∷ []) = ([], [])
read_text (suc m ∷ c ∷ rest) = let (t, left) = read_text rest in (c ∷ t, left)

abbrev coded : Option Text → Text → Text
coded none rest = 0 ∷ rest
coded (some t) rest = 1 ∷ spelled t rest

abbrev read_option : Text → Option Text × Text
read_option [] = (none, [])
read_option (zero ∷ rest) = (none, rest)
read_option (suc m ∷ rest) = let (t, left) = read_text rest in (some t, left)

abbrev claims_in : Text → Text → Option Claims
claims_in salt raw =
    let (signed_for, body) = read_text raw in
    let (email, left) = read_option body in
    let (host, end) = read_option left in
    if signed_for == salt then some (record { email = email; host = host }) else none

abbrev loaded : Text → ℕ → ℕ → Text → Option Claims
loaded salt age now [] = none
loaded salt age now (made ∷ raw) = if leb now (made + age) then claims_in salt raw else none

abbrev signing_site : Site
signing_site = record site {
  loads = loaded;
  dumps = λ salt made claims. made ∷ spelled salt (coded claims.email (coded claims.host []));
}

read_text-spelled : (t rest : Text) → read_text (spelled t rest) ≡ (t, rest)
unfolding read_text spelled
read_text-spelled [] rest = refl
read_text-spelled (c ∷ t) rest = rw (read_text-spelled t rest) refl

read_option-coded : (o : Option Text) (rest : Text) → read_option (coded o rest) ≡ (o, rest)
read_option-coded none rest = refl
read_option-coded (some t) rest = rw (read_text-spelled t rest) refl

leb-true : (m n : ℕ) → m ≤ n → leb m n ≡ true
leb-true m n h = ground arith

loads-dumps :
    (salt : Text) (age made now : ℕ) (c : Claims)
    → now ≤ made + age
    → signing_site.loads salt age now (signing_site.dumps salt made c) ≡ some c
loads-dumps salt age made now c early =
    rw
      (
        leb-true now (made + age) early,
        read_text-spelled salt (coded c.email (coded c.host [])),
        read_option-coded c.email (coded c.host []),
        read_option-coded c.host [],
        eq_refl salt,
      )
      refl

callback-handoff_example :
    (value : Text) × ((callback signing_site users app_host
        (code_for signing_site users ann app_host 5)
        (codes "/")
        7).cookie
      ≡ some (web_cookie, value))
    × (cookie_email signing_site users (some value) app_host 9 ≡ some (normalize ann))
    × (cookie_email signing_site users (some value) (codes "blog.cawl.test") 9 ≡ none)
unfolding forwarded_host normalize strip drop_while drop_while_end span ◌==◌
callback-handoff_example =
    callback-handoff signing_site users ann app_host (codes "/") app_host 5 7 9
      (codes "blog.cawl.test") loads-dumps (λ salt made c h. cc) refl (omega arith) (omega arith)
      refl

abbrev as_is : Text → Text
as_is raw = raw

abbrev robot : Minting
robot = record {
  name = codes "ci";
  subject = codes "ann";
  role = codes "user";
  quota = some 2;
  max_ttl = [];
  backend = [];
  ttl = some 60;
  created_by = none;
}

authenticate_token-mint_example :
    (authenticate_token as_is (codes "cawl_s") 30 (mint as_is robot (codes "s") 0 []).1).0
    ≡ ok (
        some (record {
          principal = record { id = codes "ann"; role = Role.user };
          quota = some 2;
          max_ttl = none;
          backend = [];
        }))
unfolding mint find_token role_of parse_ttl compute_expiry ◌==◌
authenticate_token-mint_example =
    authenticate_token-mint as_is robot (codes "s") (codes "cawl_s") 0 30 [] Role.user none refl
      refl refl refl

abbrev confirmed : LoginRequest
confirmed = record {
  method = Method.post;
  get_callback = [];
  post_callback = [];
  get_state = [];
  post_state = [];
  user = record { username = codes "ann"; email = ann; is_superuser = false };
}

cli_login-authenticate_token_example :
    (confirmed.method ≡ Method.post)
    × (callback_is_safe site [] ≡ ok true)
    × ((raw : Text) × (code_page (codes "cawl_s") ≡ delivered site [] [] raw)
        × (raw ≡ codes "cawl_s")
        × ((authenticate_token as_is raw 30 (cli_login site confirmed (codes "s") 0 []).1).0
            ≡ ok (
                some (record {
                  principal = record { id = codes "ann"; role = role_for_user confirmed.user };
                  quota = none;
                  max_ttl = none;
                  backend = [];
                }))))
unfolding cli_login mint find_token ◌==◌
cli_login-authenticate_token_example =
    cli_login-authenticate_token site confirmed (codes "s") 0 30 [] (code_page (codes "cawl_s"))
      refl refl (omega arith)

abbrev first_version : TemplateVersion
first_version = record {
  template = codes "web";
  version = 1;
  raw_yaml = codes "name: web";
  params = [];
  created_at = 0;
  created_by = codes "ann";
}

abbrev registry : Registry
registry = record {
  templates = new_template (codes "web") (codes "ann") (codes "name: web") [] 0 ∷ [];
  versions = first_version ∷ [];
  locks = [];
}

registry-IsCurrent : IsCurrent registry
unfolding find_template
registry-IsCurrent = record {
  bounded = λ name. elim (Bool-cases (codes "web" == name)) [
    | inl same ↦ rw same refl
    | inr other ↦ rw other refl
  ];
}

publish-history_example :
    history
      (codes "web")
      (publish (codes "web") (codes "ann") (codes "name: web # 2") [] (codes "ann") 9 registry).1
    ≡ (some (codes "ann"), codes "name: web" ∷ codes "name: web # 2" ∷ [])
unfolding find_template bodies ◌==◌
publish-history_example =
    publish-history (codes "web") (codes "ann") (codes "name: web # 2") [] (codes "ann") 9 registry
      (codes "web") registry-IsCurrent

-- A deployment with one kind of box, whose templates all read as one name.
abbrev deployment : Deployment (List Text)
deployment = record {
  plane = vms;
  site = site;
  ingress = record {
    base_domain = codes "cawl.test";
    forward_auth_url = codes "http://daemon/auth/forward";
    daemon_url = codes "http://daemon";
    auth_host = codes "auth.cawl.test";
    cert_resolver = codes "le";
  };
  safe_load =
      λ text. ok (mapping (entry (string (codes "name")) (scalar (string text)) no_entries));
  repr = λ x. [];
}

abbrev web_row : Row
web_row = record acme_row { template = codes "web"; template_version = 1 }

config_of_row-publish_example :
    config_of_row deployment users
      (some web_row)
      (codes "acme")
      (publish (codes "web") (codes "ann") (codes "name: web # 2") [] (codes "ann") 9 registry).1
    ≡ config_of_row deployment users (some web_row) (codes "acme") registry
unfolding find_template find_version fill new_row ◌==◌
config_of_row-publish_example =
    config_of_row-publish deployment users (codes "web") (codes "ann") (codes "name: web # 2") []
      (codes "ann") 9 registry web_row (codes "acme")
      (new_template (codes "web") (codes "ann") (codes "name: web") [] 0) first_version
      registry-IsCurrent refl refl
