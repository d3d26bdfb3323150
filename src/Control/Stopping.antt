-- ===== src/Control/Stopping.antt =====
-- How `stop` ends, once it has claimed the environment.
use cawl.Errors.{Error, stop_failed, unknown_backend}
use cawl.Control.Lifecycle.{stopping, stop_done, stop_raised}
use cawl.Control.Plane.{Plane, World, or_default}
use cawl.Control.Lifecycle.{halt, stopping}
use cawl.Prelude.{
  lookup, Text, ℕ, ◌≡◌, arith, ◌∷◌, [], ok, some, err, none, ◌⊎◌, Result-cases, inr, inl, Bool,
  false, true, ap, ◌∙◌, refl, Bool-cases,
}
use cawl.Models.{Environment, Status}
use cawl.Store.Tables.{Store, Kind, Row, find_row}
use cawl.Store.Lifecycle.{begin_operation, complete_operation}
use cawl.Errors.{Error}
use cawl.Control.Jobs.{complete}
use cawl.Store.Lifecycle.Claims.{claim_commits}

module _ {X : Type 0} (plane : Plane X) where
  halt-store :
      (id : Text) (inst : Environment) (w : World X) → (halt plane id inst w).1.store ≡ w.store
  unfolding halt
  halt-store id inst w = ground arith

  abbrev recovered : Environment → Error → Environment
  recovered i e = record i { status = Status.ready; failure = some e }

  abbrev halted : Environment → Environment
  halted i = record i { status = Status.stopped; vm_ip = none; ssh = none }

  stopping-raised :
      (id : Text) (i i' : Environment) (w : World X) (e : Error) (b : Bool)
      → (halt plane id i w).0 ≡ err e
      → (complete_operation (recovered i e) false w.store).0 ≡ ok (b, i')
      → ((stopping plane id i w).0 ≡ err (stop_failed id e))
        × ((stopping plane id i w).1.store ≡ (complete_operation (recovered i e) false w.store).1)
  unfolding stopping stop_raised complete
  stopping-raised id i i' w e b a c =
      (ground (arith, a, halt-store id i w, c), ground (arith, a, halt-store id i w, c))

  stopping-done :
      (id : Text) (i i' : Environment) (w : World X) (u : Unit {0}) (b : Bool)
      → (halt plane id i w).0 ≡ ok u
      → (complete_operation (halted i) true w.store).0 ≡ ok (b, i')
      → (stopping plane id i w).1.store ≡ (complete_operation (halted i) true w.store).1
  unfolding stopping stop_done complete
  stopping-done id i i' w u b a c = ground (arith, a, halt-store id i w, c)

  -- A call of a provider raises: giving up the address, finding the backend, or stopping the box.
  pub data Fails (i : Environment) (x : X) (e : Error) : Type 0 where
    unregistering : (plane.unregister i.id i.vm_ip x).0 ≡ err e → Fails i x e
    finding :
        (plane.unregister i.id i.vm_ip x).0 ≡ ok tt
        → plane.has_backend (or_default plane i.backend) ≡ false
        → e ≡ unknown_backend (or_default plane i.backend)
        → Fails i x e
    stopped_by :
        (plane.unregister i.id i.vm_ip x).0 ≡ ok tt
        → plane.has_backend (or_default plane i.backend) ≡ true
        → (plane.stop (or_default plane i.backend) i.id (plane.unregister i.id i.vm_ip x).1).0
          ≡ err e
        → Fails i x e

  -- All of these calls return.
  pub record Succeeds (i : Environment) (x : X) : Type 0 where
    pub unregistered : (plane.unregister i.id i.vm_ip x).0 ≡ ok tt
    pub found : plane.has_backend (or_default plane i.backend) ≡ true
    pub halted_box :
        (plane.stop (or_default plane i.backend) i.id (plane.unregister i.id i.vm_ip x).1).0 ≡ ok tt

  halt-cases :
      (i : Environment) (w : World X)
      → ((e : Error) × ((halt plane i.id i w).0 ≡ err e) × Fails i w.outside e)
        ⊎ (((halt plane i.id i w).0 ≡ ok tt) × Succeeds i w.outside)
  unfolding halt
  halt-cases i w =
      let x' = (plane.unregister i.id i.vm_ip w.outside).1 in
      elim (Result-cases (plane.unregister i.id i.vm_ip w.outside).0) [
        | inr (e, refused) ↦ inl (e, rw refused refl, unregistering refused)
        | inl (u, gone) ↦ elim (Bool-cases (plane.has_backend (or_default plane i.backend))) [
          | inr missing ↦ inl (
            unknown_backend (or_default plane i.backend),
            rw (gone, missing) refl,
            finding gone missing refl,
          )
          | inl there ↦ elim (Result-cases (plane.stop (or_default plane i.backend) i.id x').0) [
            | inr (e, refused) ↦
                inl (e, rw (gone, there, refused) refl, stopped_by gone there refused)
            | inl (v, off) ↦ inr (
              rw (gone, there, off) refl,
              record { unregistered = gone; found = there; halted_box = off },
            )
          ]
        ]
      ]

  -- A stop that has claimed a ready environment, whose template is there, ends the claim. Where giving up the address, finding
  -- the backend or stopping the box raises, the row is ready with that failure in it, and the caller
  -- has the error; otherwise all three calls were made and returned, and the row is stopped, without
  -- an address.
  pub stop_outcome :
      (s : Store) (x : X) (i : Environment) (version : ℕ)
      → (begin_operation i.id Kind.stop (Status.ready ∷ []) Status.stopping s).0 ≡ ok (some i)
      → lookup i.template s.templates ≡ some version
      → let w : World X = record {
        store = (begin_operation i.id Kind.stop (Status.ready ∷ []) Status.stopping s).1;
        outside = x;
      } in
        let (r, w') = stopping plane i.id i w in
        ((e : Error) × Fails i x e
          × (r ≡ err (stop_failed i.id e))
          × ((q : Row) × (find_row i.id w'.store.rows ≡ some q)
              × (q.status ≡ Status.ready)
              × (q.failure ≡ some e)
              × (q.active_operation ≡ none)))
        ⊎ (Succeeds i x
            × ((q : Row) × (find_row i.id w'.store.rows ≡ some q)
                × (q.status ≡ Status.stopped)
                × (q.vm_ip ≡ none)
                × (q.active_operation ≡ none)))
  stop_outcome s x i version h known =
      let w : World X = record {
        store = (begin_operation i.id Kind.stop (Status.ready ∷ []) Status.stopping s).1;
        outside = x;
      } in
      elim (halt-cases i w) [
        | inl (e, a, fails) ↦
            let (c, (q, found, says, free)) =
              claim_commits i.id Kind.stop (Status.ready ∷ []) Status.stopping s i (recovered i e)
                version false h refl refl refl refl known in
            let (r, kept) = stopping-raised i.id i _ w e true a c in
            inl (
              e,
              fails,
              r,
              (q, ap (λ t. find_row i.id t.rows) kept ∙ found, says.status, says.failure, free),
            )
        | inr (a, succeeds) ↦
            let (c, (q, found, says, free)) =
              claim_commits i.id Kind.stop (Status.ready ∷ []) Status.stopping s i (halted i)
                version true h refl refl refl refl known in
            let kept = stopping-done i.id i _ w tt true a c in
            inr (
              succeeds,
              (q, ap (λ t. find_row i.id t.rows) kept ∙ found, says.status, says.vm_ip, free),
            )
      ]
