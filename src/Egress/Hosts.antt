-- ===== src/Egress/Hosts.antt =====
-- `normalize_host` and `EgressPolicy` of egress.py.
use cawl.Prelude.{
  Bool, List, Text, ℕ, Option, Result, [], false, nat_beq, not, ◌∷◌, ◌≡◌, ok, select, true, ◌||◌,
  ◌&&◌, ◌==◌, err, if◌then◌else◌, length, map, leb, ltb, ◌≤◌, any, some, all, none, Bool-cases, inl,
  arith, inr, subst,
}
use cawl.Errors.{Error, no_text, value_error}
use cawl.Params.{empty_text}
use cawl.Naming.Labels.{is_dash, to_lower, drop_while_end, starts_with_dash, strip, is_alnum}
use cawl.Params.Patterns.{is_space}

-- `s.split(sep)` for a separator of one character
abbrev split_cons : Bool → ℕ → List Text → List Text
split_cons true c parts = [] ∷ parts
split_cons false c [] = (c ∷ []) ∷ []
split_cons false c (p ∷ parts) = (c ∷ p) ∷ parts

unfoldable pub split_on : ℕ → Text → List Text
split_on sep [] = [] ∷ []
split_on sep (c ∷ s) = split_cons (nat_beq c sep) c (split_on sep s)

abbrev is_dot : ℕ → Bool
is_dot c = nat_beq c b'.'

abbrev pub is_bracket : ℕ → Bool
is_bracket c = nat_beq c b'[' || nat_beq c b']'

abbrev ends_with_dash : Text → Bool
ends_with_dash [] = false
ends_with_dash (c ∷ []) = is_dash c
ends_with_dash (c ∷ d ∷ s) = ends_with_dash (d ∷ s)

-- A label of a hostname: what the `any` of `normalize_host` does not refuse.
unfoldable pub is_host_label : Text → Bool
is_host_label x =
    not (empty_text x)
    && leb (length x) 63
    && not (starts_with_dash x)
    && not (ends_with_dash x)
    && all (λ c. is_alnum c || is_dash c) x

-- Each text once, at its first place: `dict.fromkeys`.
unfoldable pub distinct : List Text → List Text
distinct [] = []
distinct (x ∷ xs) = x ∷ select (λ y. not (y == x)) (distinct xs)

-- `is_ip` says whether `ipaddress.ip_address` accepts a text.
module _ (is_ip : Text → Bool) where
  abbrev accept_host : Text → Text → Result Error Text
  accept_host raw value =
      if empty_text value || ltb 253 (length value) || any is_space value
      then err (value_error raw)
      else if is_ip (strip is_bracket value)
      then err (value_error raw)
      else if all is_host_label (split_on b'.' value)
      then ok value
      else err (value_error raw)

  unfoldable pub normalize_host : Text → Result Error Text
  unfolding split_on is_host_label
  normalize_host raw = accept_host raw (map to_lower (drop_while_end is_dot raw))

  abbrev then_host : Result Error Text → Result Error (List Text) → Result Error (List Text)
  then_host (err e) rest = err e
  then_host (ok h) (err e) = err e
  then_host (ok h) (ok hs) = ok (h ∷ hs)

  -- `normalize_host(h) for h in hosts`; an item that is no text has no `rstrip`.
  abbrev item_host : Option Text → Result Error Text
  item_host none = err no_text
  item_host (some raw) = normalize_host raw

  unfoldable pub normalize_hosts : List (Option Text) → Result Error (List Text)
  normalize_hosts [] = ok []
  normalize_hosts (raw ∷ raws) = then_host (item_host raw) (normalize_hosts raws)

  accept_host_lem :
      (raw value h : Text)
      → accept_host raw value ≡ ok h
      → (length h ≤ 253)
        × (is_ip (strip is_bracket h) ≡ false)
        × (all is_host_label (split_on b'.' h) ≡ true)
  accept_host_lem raw value h e = elim (Bool-cases (is_ip (strip is_bracket value))) [
    | inl ip ↦ absurd (ground (arith, ip))
    | inr free ↦ elim (Bool-cases (all is_host_label (split_on b'.' value))) [
      | inr bad ↦ absurd (ground (arith, bad))
      | inl good ↦
          let same : value ≡ h = ground (arith, free, good) in
          subst
            (λ v.
              (length v ≤ 253)
              × (is_ip (strip is_bracket v) ≡ false)
              × (all is_host_label (split_on b'.' v) ≡ true))
            same (ground (arith, free, good), free, good)
    ]
  ]

  -- A host that is accepted is at most 253 characters long, is no address, and every part of it
  -- between dots is a label of at most 63.
  pub normalize_host_lem :
      (raw h : Text)
      → normalize_host raw ≡ ok h
      → (length h ≤ 253)
        × (is_ip (strip is_bracket h) ≡ false)
        × (all is_host_label (split_on b'.' h) ≡ true)
  unfolding normalize_host
  normalize_host_lem raw h e = accept_host_lem raw (map to_lower (drop_while_end is_dot raw)) h e
