-- ===== src/Control/Teardown.antt =====
-- How `_destroy` ends.
use cawl.Control.Plane.{Plane, World}
use cawl.Store.Tables.{Store, expired}
use cawl.Models.{Environment, Status}
use cawl.Prelude.{
  ◌≡◌, try, ◌⊎◌, arith, ok, some, err, Result-cases, inl, inr, ◌∙◌, ap, List, Text, ◌∷◌, [], refl,
  ℕ, sym,
}
use cawl.Control.Lifecycle.{demolish, delete_row, destroy_raised, tear_down, reap_each, reap}
use cawl.Errors.{Error, teardown_failed, destroy_failed}
use cawl.Store.Upsert.{upsert, delete}
use cawl.Auth.{Principal, require_admin}

-- The database after a teardown that raised `e`: as it was, or with the failure in the row.
abbrev pub TornDown : Store → Environment → Store → Type 0
TornDown s inst s' =
    (s' ≡ s)
    ⊎ ((why : Error) × (s'
          ≡ (upsert
              (record inst { status = Status.destroy_failed; failure = some (teardown_failed why) })
              s).1))

module _ {X : Type 0} (plane : Plane X) (inst : Environment) where
  demolish-store : (w : World X) → (demolish plane inst w).1.store ≡ w.store
  demolish-store w = ground arith

  abbrev failed_row : Error → Environment
  failed_row why = record inst {
    status = Status.destroy_failed;
    failure = some (teardown_failed why);
  }

  demolished :
      (w : World X)
      → let (r, w') =
          try (demolish plane inst) (λ u. delete_row plane inst.id) (destroy_raised plane inst) w in
        ((r ≡ ok tt) × (w'.store ≡ delete inst.id w.store))
        ⊎ ((e : Error) × (r ≡ err e) × TornDown w.store inst w'.store)
  demolished w = elim (Result-cases (demolish plane inst w).0) [
    | inl (u, a) ↦ inl (rw a, (rw a) ∙ ap (delete inst.id) (demolish-store w))
    | inr (e, a) ↦
        let row = failed_row e in
        let y = (demolish plane inst w).1 in
        elim (Result-cases (upsert row y.store).0) [
          | inl (v, b) ↦ inr (
            destroy_failed inst.id e,
            rw (a, b),
            inr (e, (rw (a, b)) ∙ ap (λ s. (upsert row s).1) (demolish-store w)),
          )
          | inr (e', b) ↦
              inr (
                e',
                rw (a, b),
                inr (e, (rw (a, b)) ∙ ap (λ s. (upsert row s).1) (demolish-store w)),
              )
        ]
  ]

-- A teardown that returns has deleted the environment's row. One that raises has left the database
-- as it was, or marked the row `destroy_failed` so that a later teardown can be tried.
pub tear_down_outcome :
    {X : Type 0} (plane : Plane X) (inst : Environment) (w : World X)
    → let (r, w') = tear_down plane inst w in
      ((r ≡ ok tt) × (w'.store ≡ delete inst.id w.store))
      ⊎ ((e : Error) × (r ≡ err e) × TornDown w.store inst w'.store)
unfolding tear_down
tear_down_outcome plane inst w = elim (Result-cases (plane.deregister inst.id w.outside).0) [
  | inr (e, a) ↦ inr (e, rw a, inl (rw a))
  | inl (u, a) ↦
      let x = (plane.deregister inst.id w.outside).1 in
      elim (Result-cases (plane.unregister inst.id inst.vm_ip x).0) [
        | inr (e, b) ↦ inr (e, rw (a, b), inl (rw (a, b)))
        | inl (v, b) ↦
            let y = (plane.unregister inst.id inst.vm_ip x).1 in
            rw (a, b) (demolished plane inst (record w { outside = y }))
      ]
]

-- One deletion after another.
pub delete_all : List Text → Store → Store
delete_all [] s = s
delete_all (id ∷ ids) s = delete_all ids (delete id s)

pub ids_of : List Environment → List Text
ids_of [] = []
ids_of (inst ∷ rest) = inst.id ∷ ids_of rest

reaped :
    {X : Type 0} (plane : Plane X) (insts : List Environment) (w : World X) (ids : List Text)
    → (reap_each plane insts w).0 ≡ ok ids
    → ((reap_each plane insts w).0 ≡ ok (ids_of insts))
      × ((reap_each plane insts w).1.store ≡ delete_all (ids_of insts) w.store)
unfolding reap_each delete_all ids_of
reaped plane [] w ids h = (refl, refl)
reaped plane (inst ∷ rest) w ids h = elim (tear_down_outcome plane inst w) [
  | inr (e, raised, after) ↦ cc
  | inl (returned, deleted) ↦
      let w' = (tear_down plane inst w).1 in
      elim (Result-cases (reap_each plane rest w').0) [
        | inr (e, raised) ↦ cc
        | inl (others, e) ↦
            let (named, gone) = reaped plane rest w' others e in
            (
              rw (returned, named),
              (rw (returned, named)) ∙ gone ∙ ap (delete_all (ids_of rest)) deleted,
            )
      ]
]

-- A reap that returns has deleted exactly the environments that had expired, and returns their ids.
pub reap_deletes :
    {X : Type 0} (plane : Plane X) (actor : Principal) (now : ℕ) (w : World X) (ids : List Text)
    → (reap plane actor now w).0 ≡ ok ids
    → (ids ≡ ids_of (expired now w.store))
      × ((reap plane actor now w).1.store ≡ delete_all ids w.store)
unfolding reap
reap_deletes plane actor now w ids h = elim (Result-cases (require_admin actor)) [
  | inr (e, refused) ↦ cc
  | inl (u, admin) ↦
      let (named, gone) = reaped plane (expired now w.store) w ids (sym (rw admin) ∙ h) in
      let same : ids ≡ ids_of (expired now w.store) = cc in
      (same, (rw admin) ∙ gone ∙ ap (λ l. delete_all l w.store) (sym same))
]
