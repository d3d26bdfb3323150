-- ===== src/Store/Sound/Reserving.antt =====
-- Reservations keep the namespace sound.
use cawl.Store.Sound.{IsSound, Text, lookup, Store, ExposureRow, Labelled, Row, find_row}
use cawl.Models.{Environment, dead, Status}
use cawl.Prelude.{
  lookup, lookup-select, Text, List, ℕ, ◌≡◌, none, some, ◌==◌, false, ◌∷◌, All-imp, select, not,
  Option, arith, refl, eq_iff, All-select, ◌<◌, eq_comm, inl, inr,
}
use cawl.Store.Tables.{Store, ExposureRow, Row, find_row}
use cawl.Store.Reserve.Outcome.{
  claimed, prepared, claimed_leases, claimed_exposures, claimed_next, find_row-claimed,
  reserve_cases, prepared_rows, prepared_next,
}
use cawl.Store.Upsert.{release_leases, drop_capabilities, drop_stale, fill, new_row}
use cawl.Store.Reserve.{lock_owner, reserve}

pub released-lookup :
    (id name holder : Text) (ls : List (Text × Text))
    → lookup name ls ≡ some holder
    → (holder == id) ≡ false
    → lookup name (select (λ l. not (l.1 == id)) ls) ≡ some holder
released-lookup id name holder ls h ne = lookup-select _ name ls h (rw ne refl)

add_lease-Labelled :
    (id : Text) (ls : List (Text × Text)) (es : List ExposureRow)
    → lookup id ls ≡ none
    → Labelled ls es
    → Labelled ((id, id) ∷ ls) es
unfolding lookup
add_lease-Labelled id ls es free l = All-imp es (λ e h. ground (arith, eq_iff id e.name)) l

module _ (inst : Environment) (s : Store) where
  prepared-lookup :
      (held : Option Row) (name holder : Text)
      → lookup name s.leases ≡ some holder
      → (holder == inst.id) ≡ false
      → lookup name (prepared inst held s).leases ≡ some holder
  unfolding release_leases
  prepared-lookup none name holder h ne = h
  prepared-lookup (some sb) name holder h ne = released-lookup inst.id name holder s.leases h ne

  prepared-Labelled :
      (held : Option Row)
      → Labelled s.leases s.exposures
      → Labelled
          (prepared inst held s).leases
          (drop_stale held inst.id (prepared inst held s)).exposures
  unfolding release_leases drop_capabilities
  prepared-Labelled none l = l
  prepared-Labelled (some sb) l =
      All-select _ s.exposures
        (λ e h kept. released-lookup inst.id e.name e.environment s.leases h (ground arith)) l

module _ (inst : Environment) (s : Store) (held : Option Row) (version : ℕ) (sound : IsSound s)
    (unleased : lookup inst.id (prepared inst held s).leases ≡ none) where
  abbrev after : Store
  after = claimed inst version (prepared inst held s) held

  after-homed :
      (id : Text) (r : Row)
      → find_row id after.rows ≡ some r
      → dead r.status ≡ false
      → lookup id after.leases ≡ some id
  unfolding lookup
  after-homed id r found live = rw claimed_leases (
      ground (
        arith,
        find_row-claimed inst version (prepared inst held s) held id,
        prepared_rows inst s held,
        eq_iff inst.id id,
        eq_comm inst.id id,
        sound.homed id r,
        prepared-lookup inst s held id id,
      ))

  after-below :
      (id : Text) (r : Row) → find_row id after.rows ≡ some r → r.generation < after.next_uuid
  unfolding fill new_row
  after-below id r found = rw claimed_next (
      ground (
        arith,
        find_row-claimed inst version (prepared inst held s) held id,
        prepared_rows inst s held,
        prepared_next inst s held,
        sound.below id r,
      ))

  after-IsSound : IsSound after
  after-IsSound = record {
    homed = after-homed;
    labelled =
        rw (claimed_leases, claimed_exposures)
          (add_lease-Labelled inst.id _ _ unleased (prepared-Labelled inst s held sound.labelled));
    below = after-below;
  }

locked-IsSound : (owner : Text) (s : Store) → IsSound s → IsSound (lock_owner owner s)
locked-IsSound owner s h = record { homed = h.homed; labelled = h.labelled; below = h.below }

-- A reservation, granted or not, keeps the namespace sound.
pub reserve-IsSound :
    (inst : Environment) (quota : Option ℕ) (s : Store)
    → inst.status ≡ Status.creating
    → IsSound s
    → IsSound (reserve inst quota s).1
reserve-IsSound inst quota s creating sound = elim (reserve_cases inst quota s creating) [
  | inl (held, version, g) ↦ rw (g.outcome) (after-IsSound inst s held version sound g.unleased)
  | inr (_, inl same) ↦ rw same sound
  | inr (_, inr locked) ↦ rw locked (locked-IsSound inst.owner s sound)
]
