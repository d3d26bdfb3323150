-- ===== src/Store/Lifecycle.antt =====
-- begin_operation and complete_operation of `DjangoStateStore`: claiming an environment before a
-- side effect, and committing the result for the claim that owns it.
pub mod Fence
pub mod Commit
pub mod Claims
use cawl.Prelude.{
  Text, ℕ, suc, Bool, true, false, ◌&&◌, ◌||◌, Option, none, some, List, [], ◌∷◌, ◌==◌, nat_beq,
  if◌then◌else◌, ok, Action, pure, modify, atomic, ◌>>=◌, ◌>>◌, ◌++◌,
}
use cawl.Errors.{Error}
use cawl.Models.{Status, Environment, same_status}
use cawl.Store.Tables.{
  Row, Kind, Progress, Operation, Event, Store, find_row, save_row, find_operation, save_operation,
  note, to_environment,
}
use cawl.Store.Upsert.{upsert}

-- `LifecycleOperation.objects.create(…)`, with the defaults of its other fields.
abbrev pub opened : Row → Kind → ℕ → Operation
opened sb kind n = record {
  number = n;
  environment = sb.id;
  generation = sb.generation;
  kind = kind;
  state = Progress.queued;
  failure = none;
  finished_at = none;
}

-- A new operation, and the row that it becomes the active operation of.
unfoldable pub open_operation : Row → Kind → Action Store Error Row
open_operation sb kind s =
    let sb' = record sb { active_operation = some s.next_uuid } in
    (
      ok sb',
      record s {
        operations = save_operation (opened sb kind s.next_uuid) s.operations;
        rows = save_row sb' s.rows;
        next_uuid = suc s.next_uuid;
      },
    )

unfoldable pub begun : Row → Status → Kind → Action Store Error (Option Environment)
unfolding open_operation
begun sb transitional kind s =
    let (r, s') = open_operation (record sb { status = transitional }) kind s in
    let s'' = note (Event.operation_begun sb.id sb.status transitional s.next_uuid kind) s' in
    (
      ok (
          some (
            to_environment
              (record sb { status = transitional; active_operation = some s.next_uuid }) s'')),
      s'',
    )

abbrev is_none : {A : Type 0} → Option A → Bool
is_none none = true
is_none (some a) = false

abbrev pub may_begin : Row → List Status → Bool
may_begin sb [] = false
may_begin sb (e ∷ es) = same_status sb.status e || may_begin sb es

-- `sb.active_operation is not None or sb.status not in {…}`
abbrev pub may_claim : Row → List Status → Bool
may_claim sb expected = is_none sb.active_operation && may_begin sb expected

abbrev pub begin_at :
    Option Row → List Status → Status → Kind → Action Store Error (Option Environment)
begin_at none expected transitional kind s = (ok none, s)
begin_at (some sb) expected transitional kind s =
    if may_claim sb expected then begun sb transitional kind s else (ok none, s)

unfoldable pub begin_operation :
    Text → Kind → List Status → Status → Action Store Error (Option Environment)
unfolding begun
begin_operation id kind expected transitional s =
    begin_at (find_row id s.rows) expected transitional kind s

abbrev same_number : Option ℕ → ℕ → Bool
same_number none n = false
same_number (some m) n = nat_beq m n

-- `str(sb.generation) == inst.generation and str(sb.active_operation or "") == inst.operation_id`
abbrev pub owns : Row → ℕ → ℕ → Bool
owns sb generation operation =
    nat_beq sb.generation generation && same_number sb.active_operation operation

abbrev is_open : Progress → Bool
is_open Progress.queued = true
is_open Progress.running = true
is_open _ = false

abbrev pub operation_fits : Row → Operation → Bool
operation_fits sb op =
    op.environment == sb.id && nat_beq op.generation sb.generation && is_open op.state

-- A stop or a start that succeeded is in the audit stream as one transition.
abbrev completed_events : Bool → Kind → Text → ℕ → List Event
completed_events true Kind.stop id n =
    Event.operation_completed id Status.ready Status.stopped n ∷ []
completed_events true Kind.start id n =
    Event.operation_completed id Status.stopped Status.ready n ∷ []
completed_events _ kind id n = []

abbrev clear_active : Option Row → Store → Store
clear_active none s = s
clear_active (some sb) s = record s {
  rows = save_row (record sb { active_operation = none }) s.rows;
}

unfoldable pub finish : Environment → Operation → Bool → Store → Store
finish inst op succeeded s =
    let op' = record op {
      state = if succeeded then Progress.succeeded else Progress.failed;
      failure = inst.failure;
      finished_at = some s.clock;
    } in
    clear_active (find_row inst.id s.rows) (record s {
      operations = save_operation op' s.operations;
      events = completed_events succeeded op.kind inst.id op.number ++ s.events;
    })

unfoldable pub settle : Environment → Operation → Bool → Action Store Error (Bool × Environment)
unfolding upsert
settle inst op succeeded = do
  upsert inst
  modify (finish inst op succeeded)
  pure (true, record inst { operation_id = none })

abbrev settle_at :
    Option Operation → Row → Environment → Bool → Action Store Error (Bool × Environment)
settle_at none sb inst succeeded = pure (false, inst)
settle_at (some op) sb inst succeeded =
    if operation_fits sb op then settle inst op succeeded else pure (false, inst)

abbrev complete_row :
    Option Row → Environment → ℕ → ℕ → Bool → Action Store Error (Bool × Environment)
complete_row none inst generation operation succeeded s = (ok (false, inst), s)
complete_row (some sb) inst generation operation succeeded s =
    if owns sb generation operation
    then settle_at (find_operation operation s.operations) sb inst succeeded s
    else (ok (false, inst), s)

abbrev pub complete_with :
    Option ℕ → Option ℕ → Environment → Bool → Action Store Error (Bool × Environment)
complete_with (some operation) (some generation) inst succeeded =
    atomic (λ s. complete_row (find_row inst.id s.rows) inst generation operation succeeded s)
complete_with _ _ inst succeeded = pure (false, inst)

unfoldable pub complete_operation : Environment → Bool → Action Store Error (Bool × Environment)
unfolding settle
complete_operation inst succeeded = complete_with inst.operation_id inst.generation inst succeeded
