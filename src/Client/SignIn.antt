-- ===== src/Client/SignIn.antt =====
-- cli/src/cawl/login.py: the browser login. `parse_qs` of a request's query is a parameter, and what
-- `secrets` returns an argument; a request is its target, such as `/?token=…&state=…`.
use cawl.Prelude.{
  Text, List, Option, codes, ◌++◌, ◌∷◌, [], none, some, ok, err, if◌then◌else◌, Result, ◌==◌,
  lookup, All, ◌≡◌, refl, ℕ, eq_refl, true, ◌<◌, ◌+◌, ◌∙◌, subst, any, nat_beq, false, ap,
  append_assoc, arith,
}
use cawl.Client.{ClientError, other}
use cawl.Web.Viewers.{Site}
use cawl.Web.Login.{
  LoginRequest, Reply, or_text, cli_login, ninety_days, redirect_to, callback_with, delivered,
}
use cawl.Web.Tokens.{Tokens, authenticate_token, role_for_user}
use cawl.Web.Login.Handover.{is_token, cli_login-authenticate_token}

-- `result`: the token and the state of the request that brought it.
abbrev pub Received : Type 0
Received = Option (Text × Text)

-- `params.get("state", [""])[0]`
abbrev state_of : Option Text → Text
state_of none = []
state_of (some t) = t

-- `if token:`
abbrev received_from : Option Text → Option Text → Received → Received
received_from none sent result = result
received_from (some []) sent result = result
received_from (some (c ∷ token)) sent result = some (c ∷ token, state_of sent)

-- The first value of each parameter.
module _ (parse_qs : Text → List (Text × Text)) where
  -- `do_GET`
  unfoldable pub do_get : Text → Received → Received
  unfolding lookup
  do_get target result =
      let params = parse_qs target in
      received_from (lookup (codes "token") params) (lookup (codes "state") params) result

  -- `while "token" not in result`, over the requests that come; none while it waits.
  unfoldable pub serve : List Text → Received → Received
  unfolding do_get
  serve requests (some result) = some result
  serve [] none = none
  serve (target ∷ requests) none = serve requests (do_get target none)

  abbrev checked : Text → Received → Option (Result ClientError Text)
  checked state none = none
  checked state (some (token, sent)) =
      some (if sent == state then ok token else err (other (codes "login failed: state mismatch")))

  -- `browser_login`, with the state that it made for this login.
  unfoldable pub browser_login : Text → List Text → Option (Result ClientError Text)
  unfolding serve
  browser_login state requests = checked state (serve requests none)

  -- A request that brings no token.
  abbrev pub IsStray : Text → Type 0
  IsStray target = do_get target none ≡ none

  serve-strays :
      (strays rest : List Text) → All IsStray strays → serve (strays ++ rest) none ≡ serve rest none
  unfolding serve
  serve-strays [] rest h = refl
  serve-strays (t ∷ strays) rest h = rw (serve, h.0) (serve-strays strays rest h.1)

-- The callback of a port, and what the browser asks of it when it follows the redirect there.
abbrev pub origin_at : Text → Text
origin_at port = codes "http://127.0.0.1:" ++ port

abbrev pub callback_at : Text → Text
callback_at port = origin_at port ++ codes "/"

unquestioned :
    (port : Text)
    → any (λ c. nat_beq c b'?') port ≡ false
    → any (λ c. nat_beq c b'?') (port ++ codes "/") ≡ false
unquestioned [] h = refl
unquestioned (c ∷ port) h = ground (arith, h, unquestioned port)

abbrev pub token_query : Text → Text → List (Text × Text)
token_query token state = (codes "token", token) ∷ (codes "state", state) ∷ []

abbrev pub target_of : Site → Text → Text → Text
target_of site token state = codes "/?" ++ site.urlencode (token_query token state)

module _ (site : Site) (parse_qs : Text → List (Text × Text)) where
  browser_login-redirected :
      (strays : List Text) (d : ℕ) (token state : Text)
      → parse_qs (target_of site (d ∷ token) state) ≡ token_query (d ∷ token) state
      → All (IsStray parse_qs) strays
      → browser_login parse_qs state (strays ++ (target_of site (d ∷ token) state ∷ []))
        ≡ some (ok (d ∷ token))
  unfolding browser_login do_get lookup ◌==◌
  browser_login-redirected strays d token state parsed stray = rw (
    serve-strays parse_qs strays (target_of site (d ∷ token) state ∷ []) stray,
    serve,
    parsed,
    eq_refl state,
  )

  callback_with-origin :
      (port token state : Text)
      → any (λ c. nat_beq c b'?') port ≡ false
      → callback_with site (callback_at port) token state
        ≡ origin_at port ++ target_of site token state
  callback_with-origin port token state digits =
      rw
        (
          unquestioned port digits,
          append_assoc port (codes "/") (codes "?" ++ site.urlencode (token_query token state)),
        )
        refl

  -- A confirmed login that names the callback and the state of `browser_login` sends the browser to
  -- that callback, where the command line gets the token, whatever requests without one come before;
  -- with the token it is the user who confirmed, for ninety days. `parse_qs` reads what `urlencode`
  -- wrote.
  pub cli_login-browser_login :
      (request : LoginRequest) (secret state port : Text) (now later : ℕ) (toks : Tokens)
      (reply : Reply) (strays : List Text)
      → or_text request.get_callback request.post_callback ≡ callback_at port
      → any (λ c. nat_beq c b'?') port ≡ false
      → or_text request.get_state request.post_state ≡ state
      → (cli_login site request secret now toks).0 ≡ ok reply
      → is_token reply ≡ true
      → later < now + ninety_days
      → parse_qs (target_of site (codes "cawl_" ++ secret) state)
        ≡ token_query (codes "cawl_" ++ secret) state
      → All (IsStray parse_qs) strays
      → (reply ≡ redirect_to (origin_at port ++ target_of site (codes "cawl_" ++ secret) state))
        × (browser_login parse_qs state
              (strays ++ (target_of site (codes "cawl_" ++ secret) state ∷ []))
            ≡ some (ok (codes "cawl_" ++ secret)))
        × ((authenticate_token site.hash_key
              (codes "cawl_" ++ secret)
              later
              (cli_login site request secret now toks).1).0
            ≡ ok (
                some (record {
                  principal = record {
                    id = request.user.username;
                    role = role_for_user request.user;
                  };
                  quota = none;
                  max_ttl = none;
                  backend = [];
                })))
  cli_login-browser_login request secret state port now later toks reply strays at_callback digits
        at_state h t soon parsed stray =
      let (confirmed, safe, (raw, sent, is_raw, authenticates)) =
        cli_login-authenticate_token site request secret now later toks reply h t soon in
      (
        sent
            ∙ rw (at_callback, at_state)
                (ap (delivered site (callback_at port) state) is_raw
                  ∙ ap redirect_to
                      (callback_with-origin port (codes "cawl_" ++ secret) state digits)),
        browser_login-redirected strays b'c' (codes "awl_" ++ secret) state parsed stray,
        subst
            (λ r.
              (authenticate_token site.hash_key r later
                (cli_login site request secret now toks).1).0
              ≡ ok (
                  some (record {
                    principal = record {
                      id = request.user.username;
                      role = role_for_user request.user;
                    };
                    quota = none;
                    max_ttl = none;
                    backend = [];
                  })))
            is_raw authenticates,
      )
