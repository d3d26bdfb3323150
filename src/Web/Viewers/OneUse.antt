-- ===== src/Web/Viewers/OneUse.antt =====
-- An emailed link signs in one visitor, once, at the host it was made for.
use cawl.Prelude.{
  Text, List, ℕ, ◌+◌, ◌==◌, Bool, any, if◌then◌else◌, ◌≡◌, ◌∷◌, ◌&&◌, Bool-cases, arith, false,
  none, inl, inr, nat_beq, not, Option-cases, ap, sym, eq_iff, suc, ◌∙◌, [], refl, ◌++◌, ◌||◌, ◌≤◌,
  eq_refl, Option, some,
}
use cawl.Web.Viewers.Handoff.{
  find_link, MagicToken, is_set, claim_link, is_open, mint_link, minted_link, consume_found,
  email_if_claimed, is_spent,
}
use cawl.Web.Viewers.{Site}
use cawl.Web.Tokens.{User}

-- What requests do to the links, in the order in which the database takes it. A request that follows
-- a link to a host has read its row before, at any time, so many requests may have seen it open.
pub data Event : Type 0 where
  minting : Text → Text → Text → ℕ → Event
  following : MagicToken → Text → ℕ → Event

-- Whether the link with this key signed a visitor in.
abbrev signs : Bool → Option Text → ℕ
signs own none = 0
signs own (some email) = if own then 1 else 0

abbrev won : Text → Text → ℕ → ℕ
won key k n = if (k == key) && nat_beq n 1 then 1 else 0

-- Rows of a key that no visitor has used.
unfoldable unused : Text → List MagicToken → ℕ
unused key [] = 0
unused key (t ∷ ts) =
    if (t.key_hash == key) && not (is_set t.consumed_at) then suc (unused key ts) else unused key ts

abbrev has_key : Text → MagicToken → Bool
has_key key t = t.key_hash == key

unused-claim_link :
    (key : Text) (now : ℕ) (ts : List MagicToken)
    → unused key (claim_link key now ts).1 + (claim_link key now ts).0 ≡ unused key ts
unfolding unused claim_link
unused-claim_link key now [] = refl
unused-claim_link key now (t ∷ ts) =
    let rest = unused-claim_link key now ts in
    elim (Bool-cases (t.key_hash == key)) [
      | inr other ↦ ground (arith, rest, other)
      | inl same ↦ elim (Option-cases t.consumed_at) [
        | inr (u, used) ↦ ground (arith, rest, same, used)
        | inl fresh ↦ ground (arith, rest, same, fresh)
      ]
    ]

unused-claim_other :
    (key k : Text) (now : ℕ) (ts : List MagicToken)
    → (k == key) ≡ false
    → unused key (claim_link k now ts).1 ≡ unused key ts
unfolding unused claim_link
unused-claim_other key k now [] h = refl
unused-claim_other key k now (t ∷ ts) h =
    let rest = unused-claim_other key k now ts h in
    elim (Bool-cases (t.key_hash == k)) [
      | inr other ↦ ground (arith, rest, other)
      | inl same ↦
          let away : (t.key_hash == key) ≡ false =
            ap (λ x. x == key) ((eq_iff t.key_hash k).0 same) ∙ h in
          ground (arith, rest, same, away)
    ]

any-claim_link :
    (key k : Text) (now : ℕ) (ts : List MagicToken)
    → any (has_key key) (claim_link k now ts).1 ≡ any (has_key key) ts
unfolding claim_link
any-claim_link key k now [] = refl
any-claim_link key k now (t ∷ ts) = ground (arith, any-claim_link key k now ts)

unused-unknown :
    (key : Text) (ts : List MagicToken) → any (has_key key) ts ≡ false → unused key ts ≡ 0
unfolding unused
unused-unknown key [] h = refl
unused-unknown key (t ∷ ts) h = elim (Bool-cases (t.key_hash == key)) [
  | inl same ↦ absurd (ground (arith, same))
  | inr other ↦ rw other (unused-unknown key ts (sym (rw other) ∙ h))
]

find_link-none :
    (key : Text) (ts : List MagicToken) → find_link key ts ≡ none → any (has_key key) ts ≡ false
unfolding find_link
find_link-none key [] h = refl
find_link-none key (t ∷ ts) h = elim (Bool-cases (t.key_hash == key)) [
  | inl same ↦ absurd (ground (arith, same))
  | inr other ↦ rw other (find_link-none key ts (sym (rw other) ∙ h))
]

unused-append :
    (key : Text) (ts : List MagicToken) (t : MagicToken)
    → unused key (ts ++ (t ∷ [])) ≡ unused key ts + unused key (t ∷ [])
unfolding unused
unused-append key [] t = omega arith
unused-append key (u ∷ ts) t = ground (arith, unused-append key ts t)

any-append :
    (key : Text) (ts : List MagicToken) (t : MagicToken)
    → any (has_key key) (ts ++ (t ∷ [])) ≡ (any (has_key key) ts || has_key key t)
any-append key [] t = ground (arith)
any-append key (u ∷ ts) t = ground (arith, any-append key ts t)

-- How many visitors a link can still sign in: one before it is made, and then its unused rows.
abbrev chances : Text → List MagicToken → ℕ
chances key ts = if any (has_key key) ts then unused key ts else 1

won_le :
    (key : Text) (n left all : ℕ) → left + n ≡ all → left + (if nat_beq n 1 then 1 else 0) ≤ all
won_le key n left all h = ground arith

none_of : (left n : ℕ) → left + n ≡ 0 → n ≡ 0
none_of left n h = omega arith

chances-claim_link :
    (key k : Text) (now : ℕ) (ts : List MagicToken)
    → chances key (claim_link k now ts).1 + won key k (claim_link k now ts).0 ≤ chances key ts
chances-claim_link key k now ts = elim (Bool-cases (k == key)) [
  | inr other ↦
      rw (any-claim_link key k now ts, unused-claim_other key k now ts other, other) (ground arith)
  | inl same ↦
      let one = (eq_iff k key).0 same in
      let count = unused-claim_link key now ts in
      elim (Bool-cases (any (has_key key) ts)) [
        | inl known ↦
            rw (one, any-claim_link key key now ts, known, eq_refl key)
              (won_le key (claim_link key now ts).0 (unused key (claim_link key now ts).1)
                (unused key ts) count)
        | inr unknown ↦
            rw
              (
                one,
                any-claim_link key key now ts,
                unknown,
                eq_refl key,
                none_of (unused key (claim_link key now ts).1) (claim_link key now ts).0
                    (count ∙ unused-unknown key ts unknown),
              )
              (ground arith)
      ]
]

chances-insert :
    (key : Text) (ts : List MagicToken) (t : MagicToken)
    → find_link t.key_hash ts ≡ none
    → t.consumed_at ≡ none
    → chances key (ts ++ (t ∷ [])) ≤ chances key ts
unfolding unused
chances-insert key ts t free fresh = elim (Bool-cases (t.key_hash == key)) [
  | inr other ↦ rw (any-append key ts t, unused-append key ts t, other) (ground arith)
  | inl same ↦
      let unknown =
        find_link-none key ts
          (ap (λ k. find_link k ts) (sym ((eq_iff t.key_hash key).0 same)) ∙ free) in
      rw
        (
          any-append key ts t,
          unused-append key ts t,
          unused-unknown key ts unknown,
          unknown,
          same,
          fresh,
        )
        (ground arith)
]

module _ (site : Site) (users : List User) where
  -- How many visitors the link with this key signed in.
  unfoldable pub signed_in_by : Text → List Event → List MagicToken → ℕ
  unfolding mint_link claim_link
  signed_in_by key [] ts = 0
  signed_in_by key (minting email host raw now ∷ events) ts =
      signed_in_by key events (mint_link site users email host raw now ts).1
  signed_in_by key (following t host now ∷ events) ts =
      let (email, ts') = consume_found (some t) (some host) now ts in
      signs (t.key_hash == key) email + signed_in_by key events ts'

  signs-won :
      (key k : Text) (email : Text) (n : ℕ)
      → signs (k == key) (email_if_claimed n email) ≡ won key k n
  signs-won key k email n = elim (Bool-cases (nat_beq n 1)) [
    | inl one ↦ ground (arith, one)
    | inr other ↦ ground (arith, other)
  ]

  chances-consume_found :
      (key : Text) (t : MagicToken) (host : Text) (now : ℕ) (ts : List MagicToken)
      → let (email, ts') = consume_found (some t) (some host) now ts in
        chances key ts' + signs (t.key_hash == key) email ≤ chances key ts
  chances-consume_found key t host now ts =
      elim (Bool-cases (is_spent now t || not (t.host == host))) [
        | inl refused ↦ rw refused (omega arith)
        | inr taken ↦
            rw (taken, signs-won key t.key_hash t.email (claim_link t.key_hash now ts).0)
              (chances-claim_link key t.key_hash now ts)
      ]

  chances-mint_link :
      (key email host raw : Text) (now : ℕ) (ts : List MagicToken)
      → chances key (mint_link site users email host raw now ts).1 ≤ chances key ts
  unfolding mint_link
  chances-mint_link key email host raw now ts =
      elim (Option-cases (find_link (site.hash_key raw) ts)) [
        | inr (t, taken) ↦ rw taken (ground arith)
        | inl free ↦
            rw free (chances-insert key ts (minted_link site users email host raw now) free refl)
      ]

  signed_in_by-chances :
      (key : Text) (events : List Event) (ts : List MagicToken)
      → signed_in_by key events ts ≤ chances key ts
  unfolding signed_in_by
  signed_in_by-chances key [] ts = ground arith
  signed_in_by-chances key (minting email host raw now ∷ events) ts =
      let rest = signed_in_by-chances key events (mint_link site users email host raw now ts).1 in
      let less = chances-mint_link key email host raw now ts in omega arith
  signed_in_by-chances key (following t host now ∷ events) ts =
      let rest = signed_in_by-chances key events (consume_found (some t) (some host) now ts).1 in
      let less = chances-consume_found key t host now ts in omega arith

  -- However requests make and follow links, and whatever rows they read before they claim, each link
  -- signs in at most one visitor, in whatever order the database takes their writes.
  pub signed_in_by-once : (key : Text) (events : List Event) → signed_in_by key events [] ≤ 1
  signed_in_by-once key events = signed_in_by-chances key events []

is_open-later :
    (key : Text) (now later : ℕ) (t : MagicToken)
    → now ≤ later
    → is_open key now t ≡ false
    → is_open key later t ≡ false
is_open-later key now later t h shut = elim (Bool-cases (t.key_hash == key)) [
  | inr other ↦ rw other refl
  | inl same ↦ elim (Option-cases t.consumed_at) [
    | inr (u, used) ↦ ground (arith, used)
    | inl fresh ↦ ground (arith, same, fresh)
  ]
]

pub claim_link-spent :
    (key : Text) (now later : ℕ) (ts : List MagicToken)
    → now ≤ later
    → (claim_link key later (claim_link key now ts).1).0 ≡ 0
unfolding claim_link
claim_link-spent key now later [] h = refl
claim_link-spent key now later (t ∷ ts) h =
    let rest = claim_link-spent key now later ts h in
    elim (Bool-cases (is_open key now t)) [
      | inl opened ↦ ground (arith, rest, opened)
      | inr shut ↦ rw (shut, is_open-later key now later t h shut) rest
    ]
