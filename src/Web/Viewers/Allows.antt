-- ===== src/Web/Viewers/Allows.antt =====
-- Who gets past forward-auth.
use cawl.Web.Viewers.{
  Site, forward_auth, allow, Claims, cookie_salt, forwarded_host, authorized, cookie_email,
  email_if_host, exposed_in, is_host, alive, exposure_for_host, principal_for_email, exposed_at,
  for_exposure, for_viewer, labelled,
}
use cawl.Prelude.{
  List, Text, Option, ℕ, ◌≡◌, some, Bool-cases, true, ◌∷◌, ap, contains, inl, none, [], eq_iff, map,
  sym, ◌∙◌, refl, inr, ◌⊎◌, arith, Option-cases, ◌==◌,
}
use cawl.Web.Tokens.{User}
use cawl.Store.Tables.{Store, Row, ExposureRow, get, find_row}
use cawl.Naming.Labels.{normalize, exposure_label}
use cawl.Models.{Environment}
use cawl.Auth.{can_view}

module _ (site : Site) (users : List User) where
  is_host-eq : (o : Option Text) (host : Text) → is_host o host ≡ true → o ≡ some host
  is_host-eq none host h = cc
  is_host-eq (some t) host h = ap (λ x. some x) ((eq_iff t host).0 h)

  claims_email :
      (found : Option Claims) (host email : Text)
      → email_if_host host found ≡ some email
      → (claims : Claims) × (found ≡ some claims)
        × (claims.host ≡ some host)
        × (claims.email ≡ some email)
  claims_email none host email h = cc
  claims_email (some claims) host email h = elim (Bool-cases (is_host claims.host host)) [
    | inl same ↦ (claims, refl, is_host-eq claims.host host same, sym (rw same) ∙ h)
    | inr other ↦ absurd (ground (arith, other))
  ]

  cookie_email_lem :
      (cookie : Option Text) (host email : Text) (now : ℕ)
      → cookie_email site users cookie host now ≡ some email
      → (raw : Text) × (claims : Claims) × (cookie ≡ some raw)
        × (site.loads cookie_salt site.session_ttl now raw ≡ some claims)
        × (claims.host ≡ some host)
        × (claims.email ≡ some email)
  unfolding cookie_email
  cookie_email_lem none host email now h = cc
  cookie_email_lem (some []) host email now h = cc
  cookie_email_lem (some (c ∷ raw)) host email now h =
      let (claims, loaded, at, named) =
        claims_email (site.loads cookie_salt site.session_ttl now (c ∷ raw)) host email h in
      (c ∷ raw, claims, refl, loaded, at, named)

  authorized_lem :
      (email : Text) (sb : Row) (exp : ExposureRow) (s : Store)
      → authorized site users email sb exp s ≡ true
      → (contains (map normalize exp.exposure.access) (normalize email) ≡ true)
        ⊎ ((inst : Environment) × (get sb.id s ≡ some inst)
            × (can_view (principal_for_email (normalize email) users) inst ≡ true))
  unfolding authorized
  authorized_lem email sb exp s h =
      elim (Bool-cases (contains (map normalize exp.exposure.access) (normalize email))) [
        | inl listed ↦ inl listed
        | inr unlisted ↦ elim (Option-cases (get sb.id s)) [
          | inl gone ↦ absurd (ground (arith, unlisted, gone))
          | inr (inst, found) ↦ inr (inst, found, ground (arith, unlisted, found))
        ]
      ]

  exposed_at-alive :
      (o : Option Row) (e : ExposureRow) (sb : Row) (exp : ExposureRow)
      → exposed_at o e ≡ some (sb, exp)
      → alive sb.status ≡ true
  exposed_at-alive none e sb exp h = cc
  exposed_at-alive (some r) e sb exp h = ground (arith)

  exposed_in-alive :
      (label : Text) (s : Store) (es : List ExposureRow) (sb : Row) (exp : ExposureRow)
      → exposed_in label s es ≡ some (sb, exp)
      → alive sb.status ≡ true
  unfolding exposed_in
  exposed_in-alive label s [] sb exp h = cc
  exposed_in-alive label s (e ∷ es) sb exp h = elim (Bool-cases (e.name == label)) [
    | inr other ↦ exposed_in-alive label s es sb exp (sym (rw other) ∙ h)
    | inl named ↦ elim (Option-cases (exposed_at (find_row e.environment s.rows) e)) [
      | inl dead ↦ exposed_in-alive label s es sb exp (sym (rw (named, dead)) ∙ h)
      | inr (there, e') ↦
          exposed_at-alive (find_row e.environment s.rows) e sb exp (e' ∙ sym (rw (named, e')) ∙ h)
    ]
  ]

  labelled-alive :
      (label : Option Text) (s : Store) (sb : Row) (exp : ExposureRow)
      → labelled label s ≡ some (sb, exp)
      → alive sb.status ≡ true
  labelled-alive none s sb exp h = cc
  labelled-alive (some label) s sb exp h = exposed_in-alive label s s.exposures sb exp h

  exposure_for_host-alive :
      (host : Text) (s : Store) (sb : Row) (exp : ExposureRow)
      → exposure_for_host site users host s ≡ some (sb, exp)
      → alive sb.status ≡ true
  unfolding exposure_for_host
  exposure_for_host-alive host s sb exp h =
      labelled-alive (exposure_label host site.public_domain) s sb exp h

  for_viewer_allows :
      (viewer : Option Text) (original email : Text) (sb : Row) (exp : ExposureRow) (s : Store)
      → for_viewer site users viewer original sb exp s ≡ allow email
      → (viewer ≡ some email) × (authorized site users email sb exp s ≡ true)
  for_viewer_allows none original email sb exp s h = cc
  for_viewer_allows (some e) original email sb exp s h =
      elim (Bool-cases (authorized site users e sb exp s)) [
        | inr refused ↦ absurd (ground (arith, refused))
        | inl granted ↦
            let same : e ≡ email = ground (arith, granted) in
            (ap (λ x. some x) same, ap (λ x. authorized site users x sb exp s) (sym same) ∙ granted)
      ]

  for_exposure_allows :
      (found : Option (Row × ExposureRow)) (cookie : Option Text) (host original email : Text)
      (now : ℕ) (s : Store)
      → for_exposure site users found cookie host original now s ≡ allow email
      → (sb : Row) × (exp : ExposureRow) × (found ≡ some (sb, exp))
        × (cookie_email site users cookie host now ≡ some email)
        × (authorized site users email sb exp s ≡ true)
  for_exposure_allows none cookie host original email now s h = cc
  for_exposure_allows (some (sb, exp)) cookie host original email now s h =
      let (known, granted) =
        for_viewer_allows (cookie_email site users cookie host now) original email sb exp s h in
      (sb, exp, refl, known, granted)

  -- A visitor gets past forward-auth only with a cookie that the daemon signed for the very host of
  -- the request, to an exposure of an environment that is alive, and only as an address that the
  -- exposure lists or whose principal may use the environment, as the database is at the request.
  pub forward_auth_allows :
      (header proto uri email : Text) (cookie : Option Text) (now : ℕ) (s : Store)
      → forward_auth site users header proto uri cookie now s ≡ allow email
      → ((raw : Text) × (claims : Claims) × (cookie ≡ some raw)
          × (site.loads cookie_salt site.session_ttl now raw ≡ some claims)
          × (claims.host ≡ some (forwarded_host header))
          × (claims.email ≡ some email))
        × ((sb : Row) × (exp : ExposureRow) × (exposure_for_host site users
                (forwarded_host header)
                s
              ≡ some (sb, exp))
            × (alive sb.status ≡ true)
            × ((contains (map normalize exp.exposure.access) (normalize email) ≡ true)
                ⊎ ((inst : Environment) × (get sb.id s ≡ some inst)
                    × (can_view (principal_for_email (normalize email) users) inst ≡ true))))
  unfolding forward_auth
  forward_auth_allows header proto uri email cookie now s h =
      let (sb, exp, found, known, granted) =
        for_exposure_allows (exposure_for_host site users (forwarded_host header) s) cookie
          (forwarded_host header) _ email now s h in
      (
        cookie_email_lem cookie (forwarded_host header) email now known,
        (
          sb,
          exp,
          found,
          exposure_for_host-alive (forwarded_host header) s sb exp found,
          authorized_lem email sb exp s granted,
        ),
      )
