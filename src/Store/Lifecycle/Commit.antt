-- ===== src/Store/Lifecycle/Commit.antt =====
-- Committing the result of an operation.
use cawl.Models.{Environment}
use cawl.Store.Lifecycle.{
  complete_operation, finish, Store, Row, Operation, Bool, find_row, find_operation, operation_fits,
  owns, settle, complete_with, upsert,
}
use cawl.Store.Upsert.{write_updated, fill, is_creating, upsert}
use cawl.Prelude.{
  lookup, Bool, Text, ℕ, ◌≡◌, if◌then◌else◌, ok, some, ◌==◌, true, none, arith, false, ap₂, ◌∙◌,
  Option, eq_refl, refl, nat_beq, ap,
}
use cawl.Store.Tables.{
  Operation, Row, Store, find_row, find_operation, find_row-save_row, find_row-id,
}

find_row-finish :
    (inst : Environment) (op : Operation) (b : Bool) (s : Store) (q : Row) (id : Text)
    → find_row inst.id s.rows ≡ some q
    → find_row id (finish inst op b s).rows
      ≡ (if inst.id == id then some (record q { active_operation = none }) else find_row id s.rows)
unfolding finish
find_row-finish inst op b s q id found = rw found (
    ground (
      arith,
      find_row-save_row (record q { active_operation = none }) id s.rows,
      find_row-id inst.id s.rows q found,
    ))

find_row-updated :
    (inst : Environment) (sb : Row) (s : Store) (id : Text)
    → find_row id (write_updated inst sb s).rows
      ≡ (if sb.id == id then some (fill inst sb) else find_row id s.rows)
unfolding write_updated
find_row-updated inst sb s id = find_row-save_row (fill inst sb) id s.rows

-- A completion that is due: the environment's fencing values are those of its row, and name an
-- open operation of it.
pub record Due (inst : Environment) (s : Store) (sb : Row) (op : Operation) (version : ℕ)
    : Type 0 where
  pub generation : inst.generation ≡ some sb.generation
  pub operation : inst.operation_id ≡ some op.number
  pub row : find_row inst.id s.rows ≡ some sb
  pub active : sb.active_operation ≡ some op.number
  pub recorded : find_operation op.number s.operations ≡ some op
  pub fits : operation_fits sb op ≡ true
  pub known : lookup inst.template s.templates ≡ some version
  pub old : is_creating inst (some sb) ≡ false

owns_self : (sb : Row) (n : ℕ) → sb.active_operation ≡ some n → owns sb sb.generation n ≡ true
owns_self sb n active = rw active (ground arith)

complete_with-owner :
    (inst : Environment) (b : Bool) (s : Store) (sb : Row) (op : Operation) (version g n : ℕ)
    → find_row inst.id s.rows ≡ some sb
    → owns sb g n ≡ true
    → find_operation n s.operations ≡ some op
    → operation_fits sb op ≡ true
    → lookup inst.template s.templates ≡ some version
    → is_creating inst (some sb) ≡ false
    → complete_with (some n) (some g) inst b s
      ≡ (ok (true, record inst { operation_id = none }), finish inst op b (write_updated inst sb s))
unfolding settle upsert
complete_with-owner inst b s sb op version g n row own recorded fits known old =
    rw (row, own, recorded, fits, known, row, old)

pub complete_operation-Due :
    (inst : Environment) (b : Bool) (s : Store) (sb : Row) (op : Operation) (version : ℕ)
    → Due inst s sb op version
    → complete_operation inst b s
      ≡ (ok (true, record inst { operation_id = none }), finish inst op b (write_updated inst sb s))
unfolding complete_operation
complete_operation-Due inst b s sb op version d =
    ap₂ (λ o g. complete_with o g inst b s) d.operation d.generation
    ∙ complete_with-owner inst b s sb op version sb.generation op.number d.row
        (owns_self sb op.number d.active) d.recorded d.fits d.known d.old

-- The row that a committed result leaves: what the environment says, and no operation in progress.
pub find_row-completed :
    (inst : Environment) (b : Bool) (s : Store) (sb : Row) (op : Operation) (version : ℕ)
    (id : Text)
    → Due inst s sb op version
    → find_row id (complete_operation inst b s).1.rows ≡ (
        if inst.id == id
        then some (record (fill inst sb) { active_operation = none })
        else find_row id s.rows)
find_row-completed inst b s sb op version id d =
    rw
      (
        complete_operation-Due inst b s sb op version d,
        find_row-finish inst op b (write_updated inst sb s) (fill inst sb) id written,
      )
      (ground (arith, find_row-updated inst sb s id, find_row-id inst.id s.rows sb d.row))
  where
    written : find_row inst.id (write_updated inst sb s).rows ≡ some (fill inst sb)
    written =
        find_row-updated inst sb s inst.id
        ∙ (rw (find_row-id inst.id s.rows sb d.row, eq_refl inst.id))

finish_leases :
    (found : Option Row) (inst : Environment) (op : Operation) (b : Bool) (s : Store)
    → find_row inst.id s.rows ≡ found
    → ((finish inst op b s).leases ≡ s.leases)
      × ((finish inst op b s).exposures ≡ s.exposures)
      × ((finish inst op b s).next_uuid ≡ s.next_uuid)
unfolding finish
finish_leases none inst op b s e = rw e (refl, refl, refl)
finish_leases (some q) inst op b s e = rw e (refl, refl, refl)

-- A committed result touches neither leases nor exposures.
pub completed_leases :
    (inst : Environment) (b : Bool) (s : Store) (sb : Row) (op : Operation) (version : ℕ)
    → Due inst s sb op version
    → let s' = (complete_operation inst b s).1 in
      (s'.leases ≡ s.leases) × (s'.exposures ≡ s.exposures) × (s'.next_uuid ≡ s.next_uuid)
unfolding write_updated
completed_leases inst b s sb op version d = rw (complete_operation-Due inst b s sb op version d) (
    finish_leases (find_row inst.id (write_updated inst sb s).rows) inst op b
      (write_updated inst sb s) refl)

-- No operation is in progress on the environment, so no completion is accepted.
complete_operation_idle :
    (inst : Environment) (b : Bool) (s : Store) (q : Row)
    → find_row inst.id s.rows ≡ some q
    → q.active_operation ≡ none
    → complete_operation inst b s ≡ (ok (false, inst), s)
unfolding complete_operation
complete_operation_idle inst b s q found idle = go inst.operation_id inst.generation
  where
    go : (o g : Option ℕ) → complete_with o g inst b s ≡ (ok (false, inst), s)
    go none g = refl
    go (some n) none = refl
    go (some n) (some g) = rw (found, idle) (ground arith)

-- The row has another generation than the environment, so its completion is not accepted.
pub complete_operation_stale :
    (inst : Environment) (b : Bool) (s : Store) (q : Row) (n : ℕ)
    → find_row inst.id s.rows ≡ some q
    → inst.generation ≡ some n
    → nat_beq q.generation n ≡ false
    → complete_operation inst b s ≡ (ok (false, inst), s)
unfolding complete_operation
complete_operation_stale inst b s q n found aged other =
    ap (λ g. complete_with inst.operation_id g inst b s) aged ∙ go inst.operation_id
  where
    go : (o : Option ℕ) → complete_with o (some n) inst b s ≡ (ok (false, inst), s)
    go none = refl
    go (some m) = rw (found, other)

-- A result is committed once: a second completion by the same operation, whatever its outcome,
-- is refused and changes nothing.
pub complete_operation_once :
    (inst : Environment) (b c : Bool) (s : Store) (sb : Row) (op : Operation) (version : ℕ)
    → Due inst s sb op version
    → let s' = (complete_operation inst b s).1 in
      complete_operation inst c s' ≡ (ok (false, inst), s')
complete_operation_once inst b c s sb op version d =
    complete_operation_idle inst c (complete_operation inst b s).1
      (record (fill inst sb) { active_operation = none })
      (find_row-completed inst b s sb op version inst.id d ∙ (rw (eq_refl inst.id))) refl
