-- ===== src/Client/Tests.antt =====
-- The theorems about the command line at concrete inputs.
use cawl.Naming.Labels.{strip, drop_while, drop_while_end}
use cawl.Client.{Wire, ApiClient}
use cawl.Client.Routes.{target}
use cawl.Client.Credentials.{Machine, Json, Parsed, members, resolve_client}
use cawl.Client.Commands.{login, Way, token_by}
use cawl.Client.Commands.Stored.{login_stores, Accepted}
use cawl.Client.SignIn.{
  cli_login-browser_login, browser_login, target_of, token_query, origin_at, do_get,
}
use cawl.Client.SshKeys.{write_known_hosts, concat, host_pattern, ca_line, is_marked, Target}
use cawl.Client.SshKeys.KnownHosts.{write_known_hosts_lem, IsLine}
use cawl.Web.Viewers.{Site}
use cawl.Web.Login.{LoginRequest, Method, Reply, redirect_to, cli_login}
use cawl.Web.Tokens.{authenticate_token, role_for_user, mint, find_token}
use cawl.Prelude.{
  ◌++◌, All, Text, [], codes, lookup, Bool, List, false, none, true, ◌∷◌, ◌==◌, if◌then◌else◌,
  select, some, ◌≡◌, not, ok, refl, arith, Option, nat_beq, ℕ, ◌⊎◌, suc,
}

abbrev laptop : Machine
laptop = record { environ = []; home = codes "/home/ann" }

-- A file with both values, the address first and a line for each.
unfoldable split_line : Text → Parsed
split_line [] = Parsed.invalid
split_line (c ∷ s) = if nat_beq c 10 then members (some []) (some s) else elim (split_line s) [
  | Parsed.invalid ↦ Parsed.invalid
  | Parsed.no_object ↦ Parsed.no_object
  | members none token ↦ members none token
  | members (some url) token ↦ members (some (c ∷ url)) token
]

abbrev two_lines : Json
two_lines = record { dumps = λ url token. url ++ (10 ∷ token); parse = split_line }

abbrev plain_wire : Wire Text
plain_wire = record {
  dumps = λ body. [];
  loads = λ raw. ok raw;
  error_of = λ j. none;
  urlencode = λ values. [];
}

-- A daemon that accepts every token.
abbrev daemon : Text → Text → ApiClient ℕ
daemon url token = record {
  base_url = url;
  token = token;
  transport = λ method address headers body x. (ok (200, codes "ann"), suc x);
}

abbrev by_paste : Way
by_paste = record { token = none; headless = true; pasted = codes " t\n"; browsed = ok [] }

abbrev shown_user : Option Text → Text × Text
shown_user who = (codes "ann", codes "user")

login_stores_example :
    let after =
      (login plain_wire daemon two_lines laptop
        (λ e. e)
        shown_user
        (codes "u")
        by_paste
        []
        0).0.1 in
    (after ≡ [])
    ⊎ (Accepted plain_wire daemon two_lines laptop
          (λ e. e)
          shown_user
          (codes "u")
          by_paste
          []
          0
          after
        × ((d : ℕ) (token : Text)
            → token_by by_paste ≡ ok (d ∷ token)
            → resolve_client two_lines laptop after ≡ ok (codes "u", d ∷ token)))
unfolding lookup ◌==◌ split_line
login_stores_example =
    login_stores plain_wire daemon two_lines laptop (λ e. e) shown_user b'u' [] by_paste [] 0
      (λ d token. refl) refl refl

abbrev site : Site
site = record {
  public_domain = codes "cawl.test";
  auth_host = codes "auth.cawl.test";
  session_ttl = 3600;
  magic_ttl = 900;
  loads = λ salt age now raw. none;
  dumps = λ salt now claims. [];
  parse_url = λ url. some (record {
    scheme = codes "http";
    hostname = some (codes "127.0.0.1");
    path = codes "/";
    query = [];
    port = ok (some 8000);
  });
  urlencode = λ values. codes "q";
  hash_key = λ raw. raw;
}

abbrev parse_qs : Text → List (Text × Text)
parse_qs target = if target == codes "/?q" then token_query (codes "cawl_s") (codes "st") else []

abbrev confirmed : LoginRequest
confirmed = record {
  method = Method.post;
  get_callback = [];
  post_callback = codes "http://127.0.0.1:8000/";
  get_state = [];
  post_state = codes "st";
  user = record { username = codes "ann"; email = codes "ann@x.io"; is_superuser = false };
}

abbrev redirected : Reply
redirected = redirect_to (codes "http://127.0.0.1:8000/?q")

cli_login-browser_login_example :
    (redirected
      ≡ redirect_to (origin_at (codes "8000") ++ target_of site (codes "cawl_s") (codes "st")))
    × (browser_login parse_qs
          (codes "st")
          (codes "/favicon.ico" ∷ target_of site (codes "cawl_s") (codes "st") ∷ [])
        ≡ some (ok (codes "cawl_s")))
    × ((authenticate_token site.hash_key
          (codes "cawl_s")
          30
          (cli_login site confirmed (codes "s") 0 []).1).0
        ≡ ok (
            some (record {
              principal = record { id = codes "ann"; role = role_for_user confirmed.user };
              quota = none;
              max_ttl = none;
              backend = [];
            })))
unfolding cli_login mint find_token do_get lookup ◌==◌
cli_login-browser_login_example =
    cli_login-browser_login site parse_qs confirmed (codes "s") (codes "st") (codes "8000") 0 30 []
      redirected (codes "/favicon.ico" ∷ []) refl refl refl refl refl (omega arith) refl (refl, tt)

abbrev old_line : Text
old_line = codes "@cert-authority *.cawl.test ssh-ed25519 AAAA\n"

abbrev git_line : Text
git_line = codes "github.com ssh-ed25519 BBBB\n"

abbrev no_address : Text → Bool
no_address host = false

abbrev at_domain : Text
at_domain = host_pattern no_address (codes "demo.cawl.test")

write_known_hosts_lem_example :
    (lines : List Text) × (write_known_hosts no_address
        (codes "demo.cawl.test")
        (codes "ssh-ed25519 CCCC")
        (old_line ++ (git_line ++ []))
      ≡ concat lines)
    × All IsLine lines
    × (select (is_marked at_domain) lines ≡ ca_line at_domain (codes "ssh-ed25519 CCCC") ∷ [])
    × (select (λ l. not (is_marked at_domain l)) lines ≡ git_line ∷ [])
unfolding host_pattern strip drop_while drop_while_end
write_known_hosts_lem_example =
    write_known_hosts_lem no_address (codes "demo.cawl.test") (codes "ssh-ed25519 CCCC")
      (old_line ∷ git_line ∷ [])
      (
        record {
          body = codes "@cert-authority *.cawl.test ssh-ed25519 AAAA";
          shape = refl;
          unbroken = refl;
        },
        (record { body = codes "github.com ssh-ed25519 BBBB"; shape = refl; unbroken = refl }, tt),
      )
      (omega arith) refl refl

abbrev box : Target
box = record {
  host = codes "demo.cawl.test";
  user = codes "dev";
  key = codes "/home/ann/my keys/id";
  cert = codes "/home/ann/demo-cert.pub";
  known_hosts = codes "/home/ann/known_hosts";
  jump = codes "jump.cawl.test";
}
