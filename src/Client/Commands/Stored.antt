-- ===== src/Client/Commands/Stored.antt =====
-- What `cawl login` stores.
use cawl.Client.Commands.{login, Way, token_by, judged, verified}
use cawl.Client.{ClientError, Wire, ApiClient, ask, whoami, api_error, config_error, other}
use cawl.Client.Credentials.{
  Json, Machine, Files, save, members, resolve_client, resolve_client-save,
}
use cawl.Prelude.{
  Text, Option, Result, ok, err, ◌≡◌, ◌⊎◌, inr, inl, refl, ℕ, ◌∷◌, some, lookup, codes, none, ap,
  ◌∙◌, sym,
}

ok-inj : (s t : Text) → ◌≡◌ {A = Result ClientError Text} (ok s) (ok t) → s ≡ t
ok-inj s t h = cc

module _ {J X : Type 0} (wire : Wire J) (connect : Text → Text → ApiClient X) (json : Json)
    (m : Machine) (dumps_error : Text → Text) (who_of : Option J → Text × Text) where
  -- The daemon accepted the token, and the files are those with the credentials in.
  abbrev pub Accepted : Text → Way → Files → X → Files → Type 0
  Accepted url way files x after =
      (token : Text) × (who : Option J) × (token_by way ≡ ok token)
      × ((ask wire (connect url token) whoami x).0 ≡ ok who)
      × (after ≡ save json m url token files)

  judged_stores :
      (url token : Text) (files : Files) (r : Result ClientError (Option J))
      → ((judged wire connect json m dumps_error who_of url token files r).1 ≡ files)
        ⊎ ((who : Option J) × (r ≡ ok who)
            × ((judged wire connect json m dumps_error who_of url token files r).1
                ≡ save json m url token files))
  judged_stores url token files (ok who) = inr (who, refl, refl)
  judged_stores url token files (err (api_error status message)) = inl refl
  judged_stores url token files (err (config_error message)) = inl refl
  judged_stores url token files (err (other message)) = inl refl

  verified_cases :
      (url : Text) (way : Way) (files : Files) (x : X) (r : Result ClientError Text)
      → token_by way ≡ r
      → let after = (verified wire connect json m dumps_error who_of url r files x).0.1 in
        (after ≡ files) ⊎ Accepted url way files x after
  verified_cases url way files x (err e) held = inl refl
  verified_cases url way files x (ok token) held =
      elim (judged_stores url token files (ask wire (connect url token) whoami x).0) [
        | inl same ↦ inl same
        | inr (who, answered, saved) ↦ inr (token, who, held, answered, saved)
      ]

  login_cases :
      (url : Text) (way : Way) (files : Files) (x : X)
      → let after = (login wire connect json m dumps_error who_of url way files x).0.1 in
        (after ≡ files) ⊎ Accepted url way files x after
  unfolding login
  login_cases url way files x = verified_cases url way files x (token_by way) refl

  -- A login changes the stored credentials only to a token that the daemon accepted, at the address
  -- that it was asked at; from then on clients without the two variables use both, where the JSON that
  -- is written is read back.
  pub login_stores :
      (c : ℕ) (url : Text) (way : Way) (files : Files) (x : X)
      → ((d : ℕ) (token : Text)
          → json.parse (json.dumps (c ∷ url) (d ∷ token))
            ≡ members (some (c ∷ url)) (some (d ∷ token)))
      → lookup (codes "CAWL_API_URL") m.environ ≡ none
      → lookup (codes "CAWL_TOKEN") m.environ ≡ none
      → let after = (login wire connect json m dumps_error who_of (c ∷ url) way files x).0.1 in
        (after ≡ files)
        ⊎ (Accepted (c ∷ url) way files x after
            × ((d : ℕ) (token : Text)
                → token_by way ≡ ok (d ∷ token)
                → resolve_client json m after ≡ ok (c ∷ url, d ∷ token)))
  login_stores c url way files x parsed no_url no_token = elim (login_cases (c ∷ url) way files x) [
    | inl same ↦ inl same
    | inr (token, who, held, answered, saved) ↦ inr (
      (token, who, held, answered, saved),
      λ d t by.
          ap (resolve_client json m)
            (saved ∙ ap (λ t. save json m (c ∷ url) t files) (ok-inj token (d ∷ t) (sym held ∙ by)))
          ∙ (resolve_client-save json m files c d url t (parsed d t) no_url no_token).0,
    )
  ]
