-- ===== src/Incus/Reported.antt =====
-- What `_first_ipv4` may return.
use cawl.Incus.{Address}
use cawl.Incus.Addresses.{
  is_global, first_global, global_on, is_internal, first_other, first_ipv4, or_next,
}
use cawl.Prelude.{
  lookup, Text, Bool, List, ◌==◌, ◌≡◌, ◌∷◌, codes, some, true, Bool-cases, [], ◌||◌, ◌⊎◌, inl, not,
  arith, inr, Option, false, subst, sym, eq_iff, none, refl,
}

-- `a` is one of these addresses, and global.
abbrev pub IsGlobalOf : Text → List Address → Type 0
IsGlobalOf a [] = ⊥
IsGlobalOf a (x ∷ xs) = ((is_global x ≡ true) × (x.address ≡ a)) ⊎ IsGlobalOf a xs

-- The interfaces that may carry the traffic of a box: the two primary ones, and those that are
-- neither the loopback nor of a bridge inside the box.
abbrev pub is_outward : Text → Bool
is_outward name = (name == codes "eth0") || (name == codes "enp5s0") || not (is_internal name)

abbrev pub IsReported : Text → List (Text × List Address) → Type 0
IsReported a [] = ⊥
IsReported a ((name, addresses) ∷ net) =
    ((is_outward name ≡ true) × IsGlobalOf a addresses) ⊎ IsReported a net

some-inj : (x a : Text) → some x ≡ some a → x ≡ a
some-inj x a h = cc

or_next-cases : (a : Text) (o n : Option Text) → or_next o n ≡ some a → (o ≡ some a) ⊎ (n ≡ some a)
or_next-cases a none n h = inr h
or_next-cases a (some b) n h = inl h

first_global-IsGlobalOf :
    (a : Text) (xs : List Address) → first_global xs ≡ some a → IsGlobalOf a xs
first_global-IsGlobalOf a [] h = cc
first_global-IsGlobalOf a (x ∷ xs) h = elim (Bool-cases (is_global x)) [
  | inl global ↦ inl (global, some-inj _ a (rw global at h))
  | inr local ↦ inr (first_global-IsGlobalOf a xs (rw local at h))
]

outer_outward : (name : Text) → is_internal name ≡ false → is_outward name ≡ true
outer_outward name outer = ground (arith, outer)

first_other-IsReported :
    (a : Text) (net : List (Text × List Address)) → first_other net ≡ some a → IsReported a net
unfolding first_other
first_other-IsReported a [] h = cc
first_other-IsReported a ((name, addresses) ∷ net) h = elim (Bool-cases (is_internal name)) [
  | inl internal ↦ inr (first_other-IsReported a net (rw internal at h))
  | inr outer ↦ elim (or_next-cases a (first_global addresses) (first_other net) (rw outer at h)) [
    | inl found ↦ inl (outer_outward name outer, first_global-IsGlobalOf a addresses found)
    | inr further ↦ inr (first_other-IsReported a net further)
  ]
]

lookup-IsReported :
    (a k : Text) (net : List (Text × List Address))
    → is_outward k ≡ true
    → global_on (lookup k net) ≡ some a
    → IsReported a net
unfolding lookup
lookup-IsReported a k [] out h = cc
lookup-IsReported a k ((name, addresses) ∷ net) out h = elim (Bool-cases (name == k)) [
  | inl same ↦ inl (
    subst (λ n. is_outward n ≡ true) (sym ((eq_iff name k).0 same)) out,
    first_global-IsGlobalOf a addresses (rw same at h),
  )
  | inr different ↦ inr (lookup-IsReported a k net out (rw different at h))
]

-- An address that is found is a global IPv4 address that Incus reports of the primary interface of
-- the box, or of one that is neither the loopback nor a bridge inside it.
pub first_ipv4-IsReported :
    (a : Text) (net : List (Text × List Address)) → first_ipv4 net ≡ some a → IsReported a net
unfolding first_ipv4 ◌==◌
first_ipv4-IsReported a net h = elim (or_next-cases a (global_on (lookup (codes "eth0") net)) _ h) [
  | inl found ↦ lookup-IsReported a (codes "eth0") net refl found
  | inr h' ↦ elim (or_next-cases a (global_on (lookup (codes "enp5s0") net)) _ h') [
    | inl found ↦ lookup-IsReported a (codes "enp5s0") net refl found
    | inr further ↦ first_other-IsReported a net further
  ]
]
