-- ===== src/Client/Paths.antt =====
-- The path of a request, from `urllib` in client.py to the routes of the server.
use cawl.Params.Patterns.{is_digit}
use cawl.Prelude.{
  Text, ℕ, Bool, Option, all, any, not, leb, nat_beq, ◌&&◌, ◌||◌, ◌∷◌, ◌++◌, ◌+◌, ◌-◌, ◌*◌,
  if◌then◌else◌, some, none, true, false, refl, and_true, arith, [], ◌≡◌,
}

-- What `urllib` and the server make of the path of a request: a fragment is left out, a character
-- that is no visible ASCII is refused, what follows a question mark is the query, and the rest is
-- decoded, a `%` with two hexadecimal digits to one byte.
abbrev pub before : ℕ → Text → Text
before sep [] = []
before sep (c ∷ s) = let rest = before sep s in if nat_beq c sep then [] else c ∷ rest

abbrev pub is_sent : ℕ → Bool
is_sent c = leb 33 c && leb c 126

pub data Pending : Type 0 where
  clear percent : Pending
  half : ℕ → Pending

abbrev pub is_hex : ℕ → Bool
is_hex c = is_digit c || (leb b'a' c && leb c b'f') || (leb b'A' c && leb c b'F')

abbrev pub hex_value : ℕ → ℕ
hex_value c = if is_digit c then c - b'0' else if leb b'a' c then c - 87 else c - 55

abbrev pub is_percent : ℕ → Bool
is_percent c = nat_beq c b'%'

abbrev pub or_literal : ℕ → Pending
or_literal c = if is_percent c then percent else clear

abbrev pub next_pending : Pending → ℕ → Pending
next_pending clear c = or_literal c
next_pending percent c = if is_hex c then half c else or_literal c
next_pending (half h) c = if is_hex c then clear else or_literal c

abbrev pub itself : ℕ → Text
itself c = if is_percent c then [] else c ∷ []

abbrev pub emitted : Pending → ℕ → Text
emitted clear c = itself c
emitted percent c = if is_hex c then [] else b'%' ∷ itself c
emitted (half h) c = if is_hex c then (16 * hex_value h + hex_value c) ∷ [] else b'%' ∷ h ∷ itself c

abbrev pub left_over : Pending → Text
left_over clear = []
left_over percent = b'%' ∷ []
left_over (half h) = b'%' ∷ h ∷ []

unfoldable pub decoded : Pending → Text → Text
decoded pending [] = left_over pending
decoded pending (c ∷ s) = emitted pending c ++ decoded (next_pending pending c) s

abbrev pub requested : Text → Option Text
requested path =
    if all is_sent (before b'#' path)
    then some (decoded clear (before b'?' (before b'#' path)))
    else none

-- What stands for itself in a path.
abbrev pub is_plain : ℕ → Bool
is_plain c = is_sent c && not (nat_beq c b'#') && not (nat_beq c b'?') && not (is_percent c)

-- A text that is one part of a path.
abbrev pub is_part : Text → Bool
is_part [] = false
is_part (c ∷ t) = all is_plain (c ∷ t) && not (any (λ d. nat_beq d b'/') (c ∷ t))

plain_sent : (t : Text) → all is_plain t ≡ true → all is_sent t ≡ true
plain_sent [] h = refl
plain_sent (c ∷ t) h = ground (arith, plain_sent t, h)

before-plain :
    (sep : ℕ) (t : Text)
    → ((c : ℕ) → is_plain c ≡ true → nat_beq c sep ≡ false)
    → all is_plain t ≡ true
    → before sep t ≡ t
before-plain sep [] apart h = refl
before-plain sep (c ∷ t) apart h =
    let (first, others) = and_true (is_plain c) (all is_plain t) h in
    rw (apart c first, before-plain sep t apart others) refl

decoded-plain : (t : Text) → all is_plain t ≡ true → decoded clear t ≡ t
unfolding decoded
decoded-plain [] h = refl
decoded-plain (c ∷ t) h =
    let (first, others) = and_true (is_plain c) (all is_plain t) h in
    rw (no_percent c first, decoded-plain t others) refl
  where
    no_percent : (d : ℕ) → is_plain d ≡ true → is_percent d ≡ false
    no_percent d p = ground arith

pub requested-plain : (t : Text) → all is_plain t ≡ true → requested t ≡ some t
requested-plain t h =
    rw
      (
        before-plain b'#' t (λ c p. ground arith) h,
        plain_sent t h,
        before-plain b'?' t (λ c p. ground arith) h,
        decoded-plain t h,
      )
      refl

pub all-append :
    (s t : Text) → all is_plain s ≡ true → all is_plain t ≡ true → all is_plain (s ++ t) ≡ true
all-append [] t h k = k
all-append (c ∷ s) t h k =
    let (first, others) = and_true (is_plain c) (all is_plain s) h in
    rw (first, all-append s t others k) refl

pub part-plain : (t : Text) → is_part t ≡ true → all is_plain t ≡ true
part-plain [] h = refl
part-plain (c ∷ t) h = (and_true (all is_plain (c ∷ t)) _ h).0
