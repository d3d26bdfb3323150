-- ===== src/Web/Tokens/RoundTrip.antt =====
-- A token that was minted is the identity that it was minted for.
use cawl.Prelude.{
  Text, ℕ, ◌≡◌, Option, none, ok, some, ◌==◌, ◌⊎◌, Option-cases, true, ◌≤◌, ◌++◌, inl, inr, ◌∷◌, [],
  arith, eq_refl,
}
use cawl.Web.Tokens.{
  authenticate_token, find_token, Minting, Tokens, is_valid, mint, ApiToken, minted, role_of, given,
  raw_of, is_before,
}
use cawl.Auth.{Role}
use cawl.Naming.Lifetimes.{parse_ttl, compute_expiry}

find_token-append :
    (key : Text) (toks : Tokens) (tok : ApiToken)
    → find_token key toks ≡ none
    → (tok.key_hash == key) ≡ true
    → find_token key (toks ++ (tok ∷ [])) ≡ some tok
unfolding find_token
find_token-append key [] tok h e = rw e
find_token-append key (t ∷ toks) tok h e = ground (arith, find_token-append key toks tok)

module _ (hash_key : Text → Text) where
  minted_ends :
      (m : Minting) (secret raw : Text) (now : ℕ) (toks : Tokens)
      → (mint hash_key m secret now toks).0 ≡ ok raw
      → (find_token (hash_key raw) (mint hash_key m secret now toks).1
          ≡ some (minted hash_key m secret now))
  unfolding mint
  minted_ends m secret raw now toks h =
      elim (Option-cases (find_token (hash_key (raw_of hash_key secret)) toks)) [
        | inr (tok, taken) ↦ cc
        | inl free ↦
            let same : raw_of hash_key secret ≡ raw = ground (arith, free) in
            rw (free, ← same)
              (find_token-append (hash_key (raw_of hash_key secret)) toks
                (minted hash_key m secret now) free (eq_refl (hash_key (raw_of hash_key secret))))
      ]

  -- Presenting a token that `mint` returned gives the caller the subject, the role, the quota, the
  -- lifetime cap and the backend that it was minted with, as long as it has not expired, if the role
  -- and the cap are legible.
  pub authenticate_token-mint :
      (m : Minting) (secret raw : Text) (now later : ℕ) (toks : Tokens) (role : Role)
      (cap : Option ℕ)
      → (mint hash_key m secret now toks).0 ≡ ok raw
      → role_of m.role ≡ ok role
      → parse_ttl (given m.max_ttl) ≡ ok cap
      → is_before later (compute_expiry now m.ttl) ≡ true
      → (authenticate_token hash_key raw later (mint hash_key m secret now toks).1).0
        ≡ ok (
            some (record {
              principal = record { id = m.subject; role = role };
              quota = m.quota;
              max_ttl = cap;
              backend = m.backend;
            }))
  unfolding authenticate_token
  authenticate_token-mint m secret raw now later toks role cap h r c live =
      rw (minted_ends m secret raw now toks h, live, r, c)

-- A token that has been revoked, or whose time is over, is nobody's, and is not written to.
authenticate_token_refuses :
    (hash_key : Text → Text) (raw : Text) (now : ℕ) (toks : Tokens) (tok : ApiToken)
    → find_token (hash_key raw) toks ≡ some tok
    → ((t : ℕ) × (tok.revoked_at ≡ some t)) ⊎ ((t : ℕ) × (tok.expires_at ≡ some t) × (t ≤ now))
    → authenticate_token hash_key raw now toks ≡ (ok none, toks)
unfolding authenticate_token is_valid
authenticate_token_refuses hash_key raw now toks tok found h = elim h [
  | inl (t, revoked) ↦ rw (found, revoked)
  | inr (t, expires, over) ↦ rw (found, expires) (ground arith)
]
