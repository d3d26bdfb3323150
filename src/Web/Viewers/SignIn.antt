-- ===== src/Web/Viewers/SignIn.antt =====
-- Following an emailed link.
use cawl.Web.Viewers.Handoff.{
  MagicToken, find_link, claim_link, consume_found, email_if_claimed, magic, consume_magic_token,
  is_spent, Target, valid_next, sso_cookie, sso_value, host_of, signed_in, answer, callback,
  code_for, web_cookie,
}
use cawl.Web.Viewers.{Site, cookie_email, page, forwarded_host, code_salt, cookie_salt, Claims}
use cawl.Prelude.{
  ℕ, List, Text, ◌≡◌, some, Bool-cases, none, ◌∷◌, ◌==◌, false, nat_beq, inl, arith, inr, sym, ◌∙◌,
  [], eq_iff, Option, Option-cases, ap, refl, eq_refl, ◌≤◌, ◌≢◌, ◌+◌,
}
use cawl.Web.Tokens.{User}
use cawl.Naming.Labels.{normalize}
use cawl.Web.Viewers.OneUse.{claim_link-spent}

email_if_claimed-some :
    (n : ℕ) (email e : Text) → email_if_claimed n email ≡ some e → (n ≡ 1) × (email ≡ e)
email_if_claimed-some n email e h = elim (Bool-cases (nat_beq n 1)) [
  | inl one ↦ (ground (arith, one), ground (arith, one))
  | inr other ↦ absurd (ground (arith, other))
]

consume_found_lem :
    (t : MagicToken) (host email : Text) (now : ℕ) (ts : List MagicToken)
    → (consume_found (some t) (some host) now ts).0 ≡ some email
    → (t.email ≡ email)
      × (t.host ≡ host)
      × (is_spent now t ≡ false)
      × ((consume_found (some t) (some host) now ts).1 ≡ (claim_link t.key_hash now ts).1)
consume_found_lem t host email now ts h = elim (Bool-cases (is_spent now t)) [
  | inl spent ↦ absurd (ground (arith, spent))
  | inr fresh ↦ elim (Bool-cases (t.host == host)) [
    | inr other ↦ absurd (ground (arith, fresh, other))
    | inl same ↦
        let (one, named) =
          email_if_claimed-some (claim_link t.key_hash now ts).0 t.email email
            (sym (rw (fresh, same)) ∙ h) in
        (named, (eq_iff t.host host).0 same, fresh, rw (fresh, same))
  ]
]

consume_found-unclaimed :
    (t : MagicToken) (host : Text) (now : ℕ) (ts : List MagicToken)
    → (claim_link t.key_hash now ts).0 ≡ 0
    → (consume_found (some t) (some host) now ts).0 ≡ none
consume_found-unclaimed t host now ts h = ground (arith, h)

find_link-key :
    (key : Text) (ts : List MagicToken) (t : MagicToken)
    → find_link key ts ≡ some t
    → t.key_hash ≡ key
unfolding find_link
find_link-key key [] t h = cc
find_link-key key (u ∷ ts) t h = elim (Bool-cases (u.key_hash == key)) [
  | inl same ↦
      let one : some u ≡ some t = sym (rw same) ∙ h in
      let known = (eq_iff u.key_hash key).0 same in cc
  | inr other ↦ find_link-key key ts t (sym (rw other) ∙ h)
]

module _ (site : Site) (users : List User) where
  signed_in-cookie :
      (e : Option Text) (o : Option Target) (now : ℕ) (cookie : Text × Text)
      → (signed_in site users e o now).cookie ≡ some cookie
      → (email : Text) × (target : Target) × (e ≡ some email)
        × (o ≡ some target)
        × (cookie ≡ (sso_cookie, sso_value site users email target.host now))
  signed_in-cookie none o now cookie h = cc
  signed_in-cookie (some email) none now cookie h = cc
  signed_in-cookie (some email) (some target) now cookie h = (email, target, refl, refl, cc)

  consume_magic_token-found :
      (token host email : Text) (now : ℕ) (ts : List MagicToken)
      → (consume_magic_token site users token (some host) now ts).0 ≡ some email
      → (t : MagicToken) × (find_link (site.hash_key token) ts ≡ some t)
  unfolding consume_magic_token
  consume_magic_token-found token host email now ts h =
      elim (Option-cases (find_link (site.hash_key token) ts)) [
        | inl unknown ↦ absurd (ground (arith, unknown))
        | inr known ↦ known
      ]

  -- Following a link signs the visitor in, as the address that the link was sent to, only where the
  -- link was made, is unused and in time, and leads to the host that it was made for.
  pub magic_lem :
      (token next : Text) (now : ℕ) (ts : List MagicToken) (cookie : Text × Text)
      → (magic site users token next now ts).0.cookie ≡ some cookie
      → (t : MagicToken) × (target : Target) × (find_link (site.hash_key token) ts ≡ some t)
        × (valid_next site users next ≡ some target)
        × (t.host ≡ target.host)
        × (is_spent now t ≡ false)
        × (cookie ≡ (sso_cookie, sso_value site users t.email target.host now))
  unfolding magic consume_magic_token
  magic_lem token next now ts cookie h =
      let (email, target, consumed, valid, made) =
        signed_in-cookie
          (consume_magic_token site users token (host_of (valid_next site users next)) now ts).0
          (valid_next site users next) now cookie h in
      let at_host =
        ap (λ o. (consume_magic_token site users token (host_of o) now ts).0) (sym valid)
        ∙ consumed in
      let (t, found) = consume_magic_token-found token target.host email now ts at_host in
      let (named, host, fresh, after) =
        consume_found_lem t target.host email now ts
          (ap (λ o. (consume_found o (some target.host) now ts).0) (sym found) ∙ at_host) in
      (
        t,
        target,
        found,
        valid,
        host,
        fresh,
        made ∙ ap (λ e. (sso_cookie, sso_value site users e target.host now)) (sym named),
      )

  signed_in-nowhere : (e : Option Text) (now : ℕ) → (signed_in site users e none now).cookie ≡ none
  signed_in-nowhere none now = refl
  signed_in-nowhere (some email) now = refl

  consume_magic_token-spent :
      (token host : Text) (now later : ℕ) (ts : List MagicToken)
      → now ≤ later
      → (consume_magic_token site users token
          (some host)
          later
          (claim_link (site.hash_key token) now ts).1).0
        ≡ none
  unfolding consume_magic_token
  consume_magic_token-spent token host now later ts h =
      let ts' = (claim_link (site.hash_key token) now ts).1 in
      elim (Option-cases (find_link (site.hash_key token) ts')) [
        | inl gone ↦ rw gone refl
        | inr (t, found) ↦ rw found (
            consume_found-unclaimed t host later ts' (
              ap (λ k. (claim_link k later ts').0) (find_link-key (site.hash_key token) ts' t found)
              ∙ claim_link-spent (site.hash_key token) now later ts h))
      ]

  magic-links :
      (token next : Text) (now : ℕ) (ts : List MagicToken) (cookie : Text × Text)
      → (magic site users token next now ts).0.cookie ≡ some cookie
      → (magic site users token next now ts).1 ≡ (claim_link (site.hash_key token) now ts).1
  unfolding magic consume_magic_token
  magic-links token next now ts cookie h =
      let (t, target, found, valid, host, fresh, made) = magic_lem token next now ts cookie h in
      let key = find_link-key (site.hash_key token) ts t found in
      rw (valid, found, host, fresh, eq_refl target.host, key) refl

  -- A link that has signed a visitor in signs nobody in after that, whatever it is to lead to.
  magic-once :
      (token next again : Text) (now later : ℕ) (ts : List MagicToken) (cookie : Text × Text)
      → (magic site users token next now ts).0.cookie ≡ some cookie
      → now ≤ later
      → (magic site users token again later (magic site users token next now ts).1).0.cookie ≡ none
  unfolding magic
  magic-once token next again now later ts cookie h after =
      let links = magic-links token next now ts cookie h in
      elim (Option-cases (valid_next site users again)) [
        | inl nowhere ↦ rw nowhere (signed_in-nowhere _ later)
        | inr (target, valid) ↦
            rw (valid, links, consume_magic_token-spent token target.host now later ts after) refl
      ]

  -- A link that is followed to another host than its own signs nobody in, and stays as it was.
  magic-other_host :
      (token next : Text) (now : ℕ) (ts : List MagicToken) (t : MagicToken) (target : Target)
      → find_link (site.hash_key token) ts ≡ some t
      → valid_next site users next ≡ some target
      → (t.host == target.host) ≡ false
      → magic site users token next now ts ≡ (answer (page 410), ts)
  unfolding magic consume_magic_token
  magic-other_host token next now ts t target found valid other =
      elim (Bool-cases (is_spent now t)) [
        | inl spent ↦ rw (found, valid, spent) refl
        | inr fresh ↦ rw (found, valid, fresh, other) refl
      ]

  redeemed-cookie_email :
      (email value host other : Text) (redeemed visited : ℕ)
      → site.dumps cookie_salt redeemed (record { email = some email; host = some host }) ≡ value
      → value ≢ []
      → site.loads cookie_salt site.session_ttl visited value
        ≡ some (record { email = some email; host = some host })
      → (host == other) ≡ false
      → (cookie_email site users (some value) host visited ≡ some email)
        × (cookie_email site users (some value) other visited ≡ none)
  unfolding cookie_email
  redeemed-cookie_email email [] host other redeemed visited cookie filled read away =
      absurd (filled refl)
  redeemed-cookie_email email (c ∷ value) host other redeemed visited cookie filled read away =
      (rw (read, eq_refl host) refl, rw (read, away) refl)

  -- The code of a handoff, redeemed within its minute at the host that it names, becomes a cookie
  -- that makes the visitor known at that host, as long as the cookie lasts, and at no other. What is
  -- signed is not empty, and is read back with the same salt within its age.
  pub callback-handoff :
      (email header next host : Text) (made redeemed visited : ℕ) (other : Text)
      → ((salt : Text) (age signed now : ℕ) (c : Claims)
          → now ≤ signed + age
          → site.loads salt age now (site.dumps salt signed c) ≡ some c)
      → ((salt : Text) (signed : ℕ) (c : Claims) → site.dumps salt signed c ≢ [])
      → forwarded_host header ≡ host
      → redeemed ≤ made + 60
      → visited ≤ redeemed + site.session_ttl
      → (host == other) ≡ false
      → (value : Text) × ((callback site users header
            (code_for site users email host made)
            next
            redeemed).cookie
          ≡ some (web_cookie, value))
        × (cookie_email site users (some value) host visited ≡ some (normalize email))
        × (cookie_email site users (some value) other visited ≡ none)
  unfolding callback
  callback-handoff email header next host made redeemed visited other reads filled at in_time
        lasting away =
      let claims : Claims = record { email = some (normalize email); host = some host } in
      let value = site.dumps cookie_salt redeemed claims in
      let (known, elsewhere) =
        redeemed-cookie_email (normalize email) value host other redeemed visited refl
          (filled cookie_salt redeemed claims)
          (reads cookie_salt site.session_ttl redeemed visited claims lasting) away in
      (
        value,
        rw (at, reads code_salt 60 made redeemed claims in_time, eq_refl host) refl,
        known,
        elsewhere,
      )
