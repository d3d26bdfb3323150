-- ===== src/Store/Sound/Methods.antt =====
-- The other methods of the store keep the namespace sound.
use cawl.Prelude.{
  lookup, lookup-select, Text, List, Option-cases, select, not, inl, ◌==◌, inr, All-select, arith,
  Option, ◌≡◌, All-imp, some, eq_iff, eq_comm, none, Bool-cases, ◌∷◌, [], any, Result, eq_refl,
  atomic, continue, ok, modify, err, refl, ◌∙◌, ap, ◌&&◌,
}
use cawl.Store.Upsert.{delete}
use cawl.Store.Tables.{Store, ExposureRow, find_row, find_row-save_row, find_row-id, Event, note}
use cawl.Store.Sound.{IsSound, Labelled, find_row, lookup}
use cawl.Models.{Status, Exposure}
use cawl.Store.Capabilities.{
  lease_holder, put_exposure, update_exposure, is_exposure, set_exposure, exposure_recovered,
  release_label, remove_exposure,
}
use cawl.Store.Sound.Reserving.{released-lookup}
use cawl.Errors.{Error, integrity_error}

deleted-Labelled :
    (id : Text) (ls : List (Text × Text)) (es : List ExposureRow)
    → Labelled ls es
    → Labelled (select (λ l. not (l.1 == id)) ls) (select (λ e. not (e.environment == id)) es)
deleted-Labelled id ls es l =
    All-select _ es (λ e h kept. lookup-select _ e.name ls h (ground arith)) l

-- Retiring an environment keeps the namespace sound.
pub delete-IsSound : (id : Text) (s : Store) → IsSound s → IsSound (delete id s)
unfolding delete
delete-IsSound id s sound = elim (Option-cases (find_row id s.rows)) [
  | inl missing ↦ rw missing sound
  | inr (sb, found) ↦ rw found (record {
    homed = λ j r e live. ground (
      arith,
      find_row-save_row (record sb { status = Status.destroyed; destroyed_at = some s.clock }) j
          s.rows,
      find_row-id id s.rows sb found,
      eq_iff id j,
      eq_comm id j,
      sound.homed j r,
      released-lookup id j j s.leases,
    );
    labelled = deleted-Labelled id s.leases s.exposures sound.labelled;
    below = λ j r e. ground (
      arith,
      find_row-save_row (record sb { status = Status.destroyed; destroyed_at = some s.clock }) j
          s.rows,
      find_row-id id s.rows sb found,
      eq_iff id j,
      sound.below j r,
      sound.below id sb found,
    );
  })
]

-- The leases after `get_or_create`.
lease_holder-Labelled :
    (found : Option Text) (name id : Text) (s : Store)
    → lookup name s.leases ≡ found
    → Labelled s.leases s.exposures
    → Labelled (lease_holder found name id s).1.leases s.exposures
unfolding lookup
lease_holder-Labelled none name id s e l =
    All-imp s.exposures (λ x h. ground (arith, eq_iff name x.name)) l
lease_holder-Labelled (some holder) name id s e l = l

update_exposure-Labelled :
    (id : Text) (x : Exposure) (ls : List (Text × Text)) (es : List ExposureRow)
    → Labelled ls es
    → Labelled ls (update_exposure id x es)
unfolding update_exposure
update_exposure-Labelled id x ls [] l = tt
update_exposure-Labelled id x ls (e ∷ es) l =
    ground (arith, l.0, update_exposure-Labelled id x ls es l.1, eq_iff e.name x.name)

-- Once the label is held by the environment, its row is written and the namespace stays sound.
put_exposure-IsSound :
    (id : Text) (x : Exposure) (s : Store)
    → lookup x.name s.leases ≡ some id
    → IsSound s
    → IsSound (put_exposure id x s).1
unfolding put_exposure
put_exposure-IsSound id x s held sound =
    elim (Bool-cases (any (is_exposure id x.name) s.exposures)) [
      | inl old ↦ rw old (record {
        homed = sound.homed;
        labelled = update_exposure-Labelled id x s.leases s.exposures sound.labelled;
        below = sound.below;
      })
      | inr new ↦ elim (Bool-cases (any (λ e. e.name == x.name) s.exposures)) [
        | inl taken ↦ rw (new, taken) sound
        | inr free ↦
            rw (new, free)
              (record {
                homed = sound.homed;
                labelled = (held, sound.labelled);
                below = sound.below;
              })
      ]
    ]

lease_holder-IsSound :
    (found : Option Text) (name id : Text) (s : Store)
    → lookup name s.leases ≡ found
    → IsSound s
    → IsSound (lease_holder found name id s).1
unfolding lookup
lease_holder-IsSound none name id s e sound = record {
  homed = λ j r found live. ground (arith, eq_iff name j, sound.homed j r found live);
  labelled = lease_holder-Labelled none name id s e sound.labelled;
  below = sound.below;
}
lease_holder-IsSound (some holder) name id s e sound = sound

note-IsSound : (e : Event) (s : Store) → IsSound s → IsSound (note e s)
note-IsSound e s h = record { homed = h.homed; labelled = h.labelled; below = h.below }

exposure_recovered-keeps :
    (id name : Text) (r : Result Error (Unit {0})) (s : Store)
    → (exposure_recovered id name r s).1 ≡ s
exposure_recovered-keeps id name (ok a) s = refl
exposure_recovered-keeps id name (err (integrity_error n)) s = ground arith
exposure_recovered-keeps id name (err _) s = refl

-- The end of a transaction that notes an event after its last write.
ended-IsSound :
    (e : Event) (r : Result Error (Unit {0})) (s s' : Store)
    → IsSound s
    → IsSound s'
    → IsSound (atomic (λ t. continue r (λ _. modify {E = Error} (note e)) s') s).1
ended-IsSound e (ok a) s s' h h' = note-IsSound e s' h'
ended-IsSound e (err x) s s' h h' = h

-- Writing an exposure, or failing to, keeps the namespace sound.
pub set_exposure-IsSound :
    (id : Text) (x : Exposure) (s : Store) → IsSound s → IsSound (set_exposure id x s).1
unfolding set_exposure
set_exposure-IsSound id x s sound = elim (Option-cases (find_row id s.rows)) [
  | inl missing ↦ rw missing sound
  | inr (r, found) ↦ elim (Option-cases (lookup x.name s.leases)) [
    | inl free ↦
        rw (found, free, eq_refl id, exposure_recovered-keeps)
          (ended-IsSound (Event.exposed id x) _ s _ sound (
            put_exposure-IsSound id x (record s { leases = (x.name, id) ∷ s.leases })
              (unfold lookup in rw (eq_refl x.name))
              (lease_holder-IsSound none x.name id s free sound)))
    | inr (holder, held) ↦ elim (Bool-cases (holder == id)) [
      | inl own ↦
          rw (found, held, own, exposure_recovered-keeps)
            (ended-IsSound (Event.exposed id x) _ s _ sound
              (put_exposure-IsSound id x s (held ∙ ap some ((eq_iff holder id).0 own)) sound))
      | inr other ↦ rw (found, held, other) sound
    ]
  ]
]

remaining-Labelled :
    (id name : Text) (s : Store)
    → Labelled s.leases s.exposures
    → Labelled
        (release_label id name s).leases
        (select (λ e. not (is_exposure id name e)) s.exposures)
remaining-Labelled id name s l =
    All-select _ s.exposures
      (λ e h kept. ground (
        arith,
        lookup-select (λ l. not (l.0 == name && l.1 == id)) e.name s.leases {v = e.environment} h,
      ))
      l

-- Taking an exposure down keeps the namespace sound.
pub remove_exposure-IsSound :
    (id name : Text) (s : Store) → IsSound s → IsSound (remove_exposure id name s).1
unfolding remove_exposure
remove_exposure-IsSound id name s sound = elim (Option-cases (find_row id s.rows)) [
  | inl missing ↦ rw missing sound
  | inr (r, found) ↦ elim (Bool-cases (any (is_exposure id name) s.exposures)) [
    | inl there ↦
        rw (found, there)
          (record {
            homed = λ j q e live. ground (
              arith,
              sound.homed j q e live,
              lookup-select (λ l. not (l.0 == name && l.1 == id)) j s.leases {v = j}
                  (sound.homed j q e live),
              eq_iff j name,
              eq_iff j id,
              eq_iff name id,
            );
            labelled = remaining-Labelled id name s sound.labelled;
            below = sound.below;
          })
    | inr gone ↦ rw (found, gone) sound
  ]
]
