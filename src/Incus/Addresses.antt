-- ===== src/Incus/Addresses.antt =====
-- `_first_ipv4` of incus_api.py: the address of a box, which is never one of Docker's.
use cawl.Prelude.{
  Text, List, Option, Bool, codes, ◌∷◌, [], none, some, any, ◌||◌, ◌&&◌, ◌==◌, if◌then◌else◌,
  lookup,
}
use cawl.Incus.{Address}
use cawl.Naming.Labels.{starts_with}

abbrev pub is_global : Address → Bool
is_global a = (a.family == codes "inet") && (a.scope == codes "global")

abbrev pub first_global : List Address → Option Text
first_global [] = none
first_global (a ∷ rest) = if is_global a then some a.address else first_global rest

-- `globals_on(net[name])[0]`, if the interface is there and has one
abbrev pub global_on : Option (List Address) → Option Text
global_on none = none
global_on (some addresses) = first_global addresses

abbrev pub is_internal : Text → Bool
is_internal name =
    (name == codes "lo")
    || any (λ p. starts_with p name)
        (codes "docker" ∷ codes "br-" ∷ codes "veth" ∷ codes "cni" ∷ [])

abbrev pub or_next : Option Text → Option Text → Option Text
or_next none next = next
or_next (some a) next = some a

unfoldable pub first_other : List (Text × List Address) → Option Text
first_other [] = none
first_other ((name, addresses) ∷ net) =
    let rest = first_other net in
    if is_internal name then rest else or_next (first_global addresses) rest

unfoldable pub first_ipv4 : List (Text × List Address) → Option Text
unfolding lookup first_other
first_ipv4 net =
    or_next (global_on (lookup (codes "eth0") net))
      (or_next (global_on (lookup (codes "enp5s0") net)) (first_other net))
