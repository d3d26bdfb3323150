-- ===== src/Store/Lifecycle/Fence.antt =====
-- The fence of the lifecycle operations: who may commit a result, and how often.
use cawl.Store.Lifecycle.{
  begin_operation, Text, save_operation, Kind, Operation, Status, Store, find_row, begun, Row,
  begin_at, may_begin, may_claim,
}
use cawl.Store.Tables.{
  find_operation, save_operation, Kind, Operation, Store, find_row, Row, find_row-id,
  find_row-save_row,
}
use cawl.Prelude.{
  Text, List, ℕ, ◌≡◌, if◌then◌else◌, nat_beq, ok, some, none, ◌∷◌, arith, [], inl, refl, inr,
  Option, ◌==◌, eq_refl, ◌⊎◌, true, Bool-cases,
}
use cawl.Models.{Status, Environment}

pub find_operation-save_operation :
    (o : Operation) (n : ℕ) (os : List Operation)
    → find_operation n (save_operation o os)
      ≡ (if nat_beq o.number n then some o else find_operation n os)
unfolding find_operation save_operation
find_operation-save_operation o n [] = refl
find_operation-save_operation o n (q ∷ qs) = ground (arith, find_operation-save_operation o n qs)

pub begin_at-cases :
    (held : Option Row) (expected : List Status) (t : Status) (kind : Kind) (s : Store)
    → (begin_at held expected t kind s ≡ (ok none, s))
      ⊎ ((sb : Row) × (held ≡ some sb)
          × (sb.active_operation ≡ none)
          × (may_begin sb expected ≡ true)
          × (begin_at held expected t kind s ≡ begun sb t kind s))
begin_at-cases none expected t kind s = inl refl
begin_at-cases (some sb) expected t kind s = elim (Bool-cases (may_claim sb expected)) [
  | inl free ↦ inr (sb, refl, ground arith, ground arith, rw free)
  | inr busy ↦ inl (rw busy)
]

-- A claimed row: its status is the transitional one, and its operation the new one.
abbrev pub claimed_as : Row → Status → ℕ → Row
claimed_as sb t n = record sb { status = t; active_operation = some n }

find_row-begun :
    (sb : Row) (t : Status) (kind : Kind) (s : Store) (id : Text)
    → find_row id (begun sb t kind s).1.rows
      ≡ (if sb.id == id then some (claimed_as sb t s.next_uuid) else find_row id s.rows)
unfolding begun
find_row-begun sb t kind s id = find_row-save_row (claimed_as sb t s.next_uuid) id s.rows

-- While an operation is in progress on an environment no other can begin on it.
pub begin_operation_excludes :
    (id : Text) (kind kind' : Kind) (expected expected' : List Status) (t t' : Status) (s : Store)
    {i : Environment}
    → (begin_operation id kind expected t s).0 ≡ ok (some i)
    → let s' = (begin_operation id kind expected t s).1 in
      begin_operation id kind' expected' t' s' ≡ (ok none, s')
unfolding begin_operation
begin_operation_excludes id kind kind' expected expected' t t' s h =
    elim (begin_at-cases (find_row id s.rows) expected t kind s) [
      | inl refused ↦ cc
      | inr (sb, found, free, fits, e) ↦
          rw (e, find_row-begun sb t kind s id, find_row-id id s.rows sb found, eq_refl id)
    ]
