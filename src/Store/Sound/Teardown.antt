-- ===== src/Store/Sound/Teardown.antt =====
-- Retiring an environment: what goes with it, what stays, and what a claim left open can undo.
use cawl.Prelude.{
  lookup, Text, List, select, ◌==◌, any, not, ◌≡◌, ◌≢◌, [], false, some, ◌∷◌, arith, eq_iff, ◌∙◌,
  refl, eq_refl, ap, map, Bool, ℕ, true, ok, none, sym,
}
use cawl.Store.Upsert.{delete, fill}
use cawl.Store.Tables.{
  ExposureRow, Grant, Row, Store, find_row, find_row-save_row, find_row-id, Operation,
}
use cawl.Models.{Exposure, Status, dead, Environment}
use cawl.Store.Capabilities.{has_grant, exposures, is_grant, find_exposure, find_exposure_in}
use cawl.Store.Sound.{IsSound, Labelled}
use cawl.Store.Lifecycle.Commit.{Due, complete_operation-Due, completed_leases, find_row-completed}
use cawl.Store.Lifecycle.{complete_operation}

select_drops :
    (id name : Text) (ls : List (Text × Text))
    → lookup name (select (λ l. not (l.1 == id)) ls) ≢ some id
unfolding lookup
select_drops id name [] h = cc
select_drops id name ((j, w) ∷ ls) h =
    ground (arith, select_drops id name ls, eq_iff w id, eq_refl id)

grants_dropped :
    (id p : Text) (gs : List Grant)
    → any (is_grant id p) (select (λ g. not (g.environment == id)) gs) ≡ false
grants_dropped id p [] = refl
grants_dropped id p (g ∷ gs) = ground (arith, grants_dropped id p gs)

grants_kept :
    (id j p : Text) (gs : List Grant)
    → (id == j) ≡ false
    → any (is_grant j p) (select (λ g. not (g.environment == id)) gs) ≡ any (is_grant j p) gs
grants_kept id j p [] ne = refl
grants_kept id j p (g ∷ gs) ne =
    ground (
      arith,
      grants_kept id j p gs ne,
      eq_iff g.environment id,
      eq_iff g.environment j,
      eq_iff id j,
    )

exposures_dropped :
    (id : Text) (es : List ExposureRow)
    → select (λ (e : ExposureRow). e.environment == id) (select (λ e. not (e.environment == id)) es)
      ≡ []
exposures_dropped id [] = refl
exposures_dropped id (e ∷ es) = ground (arith, exposures_dropped id es)

-- Deleting an environment that has a row marks it destroyed and revokes every grant, exposure and
-- label of it; the rows and grants of other environments stay.
pub delete_revokes :
    (id : Text) (s : Store) (sb : Row)
    → find_row id s.rows ≡ some sb
    → let s' = delete id s in
      ((q : Row) × (find_row id s'.rows ≡ some q) × (q.status ≡ Status.destroyed))
      × ((p : Text) → has_grant id p s' ≡ false)
      × (exposures id s' ≡ [])
      × ((name : Text) → lookup name s'.leases ≢ some id)
      × ((j : Text) → (id == j) ≡ false → find_row j s'.rows ≡ find_row j s.rows)
      × ((j p : Text) → (id == j) ≡ false → has_grant j p s' ≡ has_grant j p s)
unfolding delete has_grant exposures
delete_revokes id s sb found = rw found (
  (
    record sb { status = Status.destroyed; destroyed_at = some s.clock },
    find_row-save_row _ id s.rows ∙ (rw (find_row-id id s.rows sb found, eq_refl id)),
    refl,
  ),
  (λ p. grants_dropped id p s.grants),
  ap (map (λ (e : ExposureRow). e.exposure)) (exposures_dropped id s.exposures),
  (λ name. select_drops id name s.leases),
  (λ j ne. find_row-save_row _ j s.rows ∙ (rw (find_row-id id s.rows sb found, ne))),
  (λ j p ne. grants_kept id j p s.grants ne),
)

found-Labelled :
    (name id : Text) (x : Exposure) (rows : List Row) (ls : List (Text × Text))
    (es : List ExposureRow)
    → Labelled ls es
    → find_exposure_in name rows es ≡ some (id, x)
    → lookup name ls ≡ some id
unfolding find_exposure_in
found-Labelled name id x rows ls [] l h = cc
found-Labelled name id x rows ls (e ∷ es) l h =
    ground (arith, l.0, found-Labelled name id x rows ls es l.1, eq_iff e.name name)

-- The label of an exposure and the id of a live environment are never the same name for two
-- environments.
pub find_exposure_holder :
    (name id : Text) (x : Exposure) (r : Row) (s : Store)
    → IsSound s
    → find_exposure name s ≡ some (id, x)
    → find_row name s.rows ≡ some r
    → dead r.status ≡ false
    → id ≡ name
unfolding find_exposure
find_exposure_holder name id x r s sound found row live = ground (
  arith,
  found-Labelled name id x s.rows s.leases s.exposures sound.labelled found,
  sound.homed name r row live,
)

-- The claim of an environment is still due once its row is marked destroyed.
destroyed-Due :
    (inst : Environment) (s : Store) (sb : Row) (op : Operation) (version : ℕ)
    → Due inst s sb op version
    → inst.status ≡ Status.ready
    → Due inst
        (delete inst.id s)
        (record sb { status = Status.destroyed; destroyed_at = some s.clock })
        op
        version
unfolding delete
destroyed-Due inst s sb op version d ready = rw (d.row) (record {
  generation = d.generation;
  operation = d.operation;
  row =
      find_row-save_row _ inst.id s.rows
      ∙ (rw (find_row-id inst.id s.rows sb d.row, eq_refl inst.id));
  active = d.active;
  recorded = d.recorded;
  fits = d.fits;
  known = d.known;
  old = rw ready;
})

-- A claim that is in progress when its environment is deleted can still commit: the row comes back
-- to the status that the claim reports, without the lease of its own id, so the namespace is no
-- longer sound.
pub completion_revives :
    (inst : Environment) (s : Store) (sb : Row) (op : Operation) (version : ℕ)
    → Due inst s sb op version
    → inst.status ≡ Status.ready
    → let (r, s') = complete_operation inst true (delete inst.id s) in
      (r ≡ ok (true, record inst { operation_id = none }))
      × ((q : Row) × (find_row inst.id s'.rows ≡ some q) × (q.status ≡ Status.ready))
      × (lookup inst.id s'.leases ≢ some inst.id)
unfolding fill
completion_revives inst s sb op version d ready =
    let due = destroyed-Due inst s sb op version d ready in
    let gone = record sb { status = Status.destroyed; destroyed_at = some s.clock } in
    (
      ap (λ r. r.0) (complete_operation-Due inst true (delete inst.id s) gone op version due),
      (
        record (fill inst gone) { active_operation = none },
        find_row-completed inst true (delete inst.id s) gone op version inst.id due
            ∙ (rw (eq_refl inst.id)),
        ready,
      ),
      (λ h. (delete_revokes inst.id s sb d.row).3 inst.id (
          ap (lookup inst.id)
            (sym (completed_leases inst true (delete inst.id s) gone op version due).0)
          ∙ h)),
    )

-- A result committed to a row that is neither destroyed nor failed keeps the namespace sound.
pub commit-IsSound :
    (inst : Environment) (b : Bool) (s : Store) (sb : Row) (op : Operation) (version : ℕ)
    → Due inst s sb op version
    → dead sb.status ≡ false
    → IsSound s
    → IsSound (complete_operation inst b s).1
unfolding fill
commit-IsSound inst b s sb op version d live sound =
    let (leases, es, next) = completed_leases inst b s sb op version d in
    record {
      homed = λ j r found lively.
          ap (lookup j) leases
          ∙ ground (
            arith,
            find_row-completed inst b s sb op version j d,
            sound.homed inst.id sb d.row live,
            sound.homed j r,
            eq_iff inst.id j,
          );
      labelled = rw (leases, es) sound.labelled;
      below = λ j r found. rw next (
          ground (
            arith,
            find_row-completed inst b s sb op version j d,
            sound.below inst.id sb d.row,
            sound.below j r,
          ));
    }
