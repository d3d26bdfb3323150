-- ===== src/Web/Login/Handover.antt =====
-- Where the command line's token goes, and whose it is.
use cawl.Web.Login.{
  Reply, Method, bad_request, confirm, replied_if, post, minting_for, delivered, cli_login,
  ninety_days, callback_is_safe, or_text, LoginRequest,
}
use cawl.Web.Viewers.{Site}
use cawl.Naming.Lifetimes.{parse_ttl, compute_expiry}
use cawl.Web.Tokens.{
  role_of, role_value, User, Tokens, mint, authenticate_token, role_for_user, is_before, Minting,
  find_token,
}
use cawl.Prelude.{
  Bool, Result, Text, none, ◌==◌, false, ◌≡◌, ok, true, refl, ℕ, err, Result-cases, inr, arith, inl,
  ap, ◌<◌, ◌+◌, some, [], codes, ◌++◌, Option-cases,
}
use cawl.Errors.{Error}
use cawl.Auth.{Role}
use cawl.Web.Tokens.RoundTrip.{authenticate_token-mint}

abbrev pub is_token : Reply → Bool
is_token bad_request = false
is_token confirm = false
is_token _ = true

role_of-value : (role : Role) → role_of (role_value role) ≡ ok role
unfolding role_of ◌==◌
role_of-value Role.user = refl
role_of-value Role.admin = refl

parse_ttl-blank : parse_ttl none ≡ ok none
unfolding parse_ttl
parse_ttl-blank = refl

compute_expiry-live :
    (now later : ℕ)
    → later < now + ninety_days
    → is_before later (compute_expiry now (some ninety_days)) ≡ true
unfolding compute_expiry
compute_expiry-live now later soon = ground (arith, soon)

module _ (site : Site) where
  replied_if_lem :
      (safe : Result Error Bool) (method : Method) (callback state : Text) (user : User)
      (secret : Text) (now : ℕ) (toks : Tokens) (reply : Reply)
      → (replied_if site safe method callback state user secret now toks).0 ≡ ok reply
      → is_token reply ≡ true
      → (raw : Text) × (safe ≡ ok true)
        × (method ≡ post)
        × ((mint site.hash_key (minting_for site user) secret now toks).0 ≡ ok raw)
        × (reply ≡ delivered site callback state raw)
        × ((replied_if site safe method callback state user secret now toks).1
            ≡ (mint site.hash_key (minting_for site user) secret now toks).1)
  replied_if_lem (err e) method callback state user secret now toks reply h t = cc
  replied_if_lem (ok false) method callback state user secret now toks reply h t =
      let same : bad_request ≡ reply = cc in let none_made = ap is_token same in cc
  replied_if_lem (ok true) Method.get callback state user secret now toks reply h t =
      let same : confirm ≡ reply = cc in let none_made = ap is_token same in cc
  replied_if_lem (ok true) Method.post callback state user secret now toks reply h t =
      elim (Result-cases (mint site.hash_key (minting_for site user) secret now toks).0) [
        | inr (e, raised) ↦ absurd (ground (arith, raised))
        | inl (raw, made) ↦ (raw, refl, refl, made, ground (arith, made), rw made refl)
      ]

  mint_raw :
      (m : Minting) (secret raw : Text) (now : ℕ) (toks : Tokens)
      → (mint site.hash_key m secret now toks).0 ≡ ok raw
      → raw ≡ codes "cawl_" ++ secret
  unfolding mint
  mint_raw m secret raw now toks h =
      elim (Option-cases (find_token (site.hash_key (codes "cawl_" ++ secret)) toks)) [
        | inl free ↦ cc (rw free at h)
        | inr (tok, taken) ↦ cc (rw taken at h)
      ]

  -- A token that the sign-in makes is shown on the page or sent to a port of the user's own machine,
  -- only on a confirmed request, and is the identity of the user who is logged in for ninety days.
  pub cli_login-authenticate_token :
      (request : LoginRequest) (secret : Text) (now later : ℕ) (toks : Tokens) (reply : Reply)
      → (cli_login site request secret now toks).0 ≡ ok reply
      → is_token reply ≡ true
      → later < now + ninety_days
      → (request.method ≡ post)
        × (callback_is_safe site (or_text request.get_callback request.post_callback) ≡ ok true)
        × ((raw : Text) × (reply
              ≡ delivered site
                  (or_text request.get_callback request.post_callback)
                  (or_text request.get_state request.post_state)
                  raw)
            × (raw ≡ codes "cawl_" ++ secret)
            × ((authenticate_token site.hash_key raw later
                  (cli_login site request secret now toks).1).0
                ≡ ok (
                    some (record {
                      principal = record {
                        id = request.user.username;
                        role = role_for_user request.user;
                      };
                      quota = none;
                      max_ttl = none;
                      backend = [];
                    }))))
  unfolding cli_login
  cli_login-authenticate_token request secret now later toks reply h t soon =
      let callback = or_text request.get_callback request.post_callback in
      let state = or_text request.get_state request.post_state in
      let (raw, safe, confirmed, made, sent, rows) =
        replied_if_lem (callback_is_safe site callback) request.method callback state request.user
          secret now toks reply h t in
      (
        confirmed,
        safe,
        (
          raw,
          sent,
          mint_raw (minting_for site request.user) secret raw now toks made,
          rw rows (
              authenticate_token-mint site.hash_key (minting_for site request.user) secret raw now
                later toks (role_for_user request.user) none made
                (role_of-value (role_for_user request.user)) parse_ttl-blank
                (compute_expiry-live now later soon)),
        ),
      )
