-- ===== src/Control/Expiry.antt =====
-- The caller's cap on the lifetime of a new environment.
use cawl.Control.Creation.{capped, expiry_for, or_else}
use cawl.Prelude.{
  ℕ, Option, Text, some, ◌≡◌, ok, ◌≤◌, ◌+◌, Result-cases, arith, Bool-cases, ltb, inl, inr, none,
  refl,
}
use cawl.Naming.Lifetimes.{parse_ttl, compute_expiry}

capped_cases :
    (now most : ℕ) (expires : Option ℕ)
    → (t : ℕ) × (capped now (some most) expires ≡ some t) × (t ≤ now + most)
unfolding capped
capped_cases now most none = (now + most, refl, ground arith)
capped_cases now most (some t) = elim (Bool-cases (ltb (now + most) t)) [
  | inl above ↦ (now + most, rw above, ground arith)
  | inr within ↦ (t, rw within, ground arith)
]

-- Under a cap on its lifetime an environment always expires, and no later than the cap allows,
-- whatever the request and the template ask for.
pub expiry_for_capped :
    (now most : ℕ) (ttl default_ttl : Option Text) (expires : Option ℕ)
    → expiry_for now ttl default_ttl (some most) ≡ ok expires
    → (t : ℕ) × (expires ≡ some t) × (t ≤ now + most)
unfolding expiry_for
expiry_for_capped now most ttl default_ttl expires h =
    elim (Result-cases (parse_ttl (or_else ttl default_ttl))) [
      | inr (e, malformed) ↦ cc
      | inl (parsed, e) ↦
          let (t, same, within) = capped_cases now most (compute_expiry now parsed) in
          (t, cc, within)
    ]
