-- ===== src/Store/Sound/Reach.antt =====
-- Sequences of the methods of `DjangoStateStore`, under the conditions of `Step`, and the namespace.
use cawl.Prelude.{
  Text, List, ℕ, Bool, Option, false, true, All, ◌≡◌, Option-cases, ◌∷◌, Bool-cases, inl, inr, [],
  arith, some, and_true, lookup, ◌≤◌, ap, refl, ◌∙◌, eq_iff,
}
use cawl.Store.Tables.{
  Store, Row, Kind, Operation, find_row, save_row, find_row-save_row, find_row-id,
}
use cawl.Store.Sound.{IsSound}
use cawl.Models.{Status, Environment, Exposure, dead, same_status}
use cawl.Store.Lifecycle.{begin_operation, complete_operation, may_begin, may_claim, begun}
use cawl.Store.Capabilities.{grant, revoke, set_exposure, remove_exposure, has_grant, has_row}
use cawl.Store.Reserve.{reserve}
use cawl.Store.Lifecycle.Commit.{Due}
use cawl.Store.Upsert.{delete, upsert, fill, write_updated}
use cawl.Store.Sound.Reserving.{reserve-IsSound}
use cawl.Store.Sound.Teardown.{commit-IsSound}
use cawl.Store.Sound.Methods.{set_exposure-IsSound, remove_exposure-IsSound, delete-IsSound}

-- A method that ends, with a result or an exception. An operation begins on live states only, as
-- the callers ask for, and a result is committed for the operation that owns a live row.
pub data Step : Store → Store → Type 0 where
  reserving :
      (inst : Environment) (quota : Option ℕ) (s : Store)
      → inst.status ≡ Status.creating
      → Step s (reserve inst quota s).1
  beginning :
      (id : Text) (kind : Kind) (expected : List Status) (transitional : Status) (s : Store)
      → All (λ st. dead st ≡ false) expected
      → Step s (begin_operation id kind expected transitional s).1
  committing :
      (inst : Environment) (succeeded : Bool) (s : Store) (sb : Row) (op : Operation) (version : ℕ)
      → Due inst s sb op version
      → dead sb.status ≡ false
      → Step s (complete_operation inst succeeded s).1
  exposing : (id : Text) (x : Exposure) (s : Store) → Step s (set_exposure id x s).1
  withdrawing : (id name : Text) (s : Store) → Step s (remove_exposure id name s).1
  updating :
      (inst : Environment) (s : Store) (sb : Row)
      → find_row inst.id s.rows ≡ some sb
      → dead sb.status ≡ false
      → Step s (upsert inst s).1
  sharing : (id principal by : Text) (s : Store) → Step s (grant id principal by s).1
  unsharing : (id principal : Text) (s : Store) → Step s (revoke id principal s).1
  deleting : (id : Text) (s : Store) → Step s (delete id s)

pub data Reach (s : Store) : Store → Type 0 where
  here : Reach s s
  next : {t u : Store} → Reach s t → Step t u → Reach s u

dead_same : (a b : Status) → same_status a b ≡ true → dead b ≡ false → dead a ≡ false
dead_same a b h live = ground (arith, h, live)

may_begin-live :
    (sb : Row) (expected : List Status)
    → All (λ st. dead st ≡ false) expected
    → may_begin sb expected ≡ true
    → dead sb.status ≡ false
may_begin-live sb [] live h = cc
may_begin-live sb (e ∷ es) live h = elim (Bool-cases (same_status sb.status e)) [
  | inl same ↦ dead_same sb.status e same live.0
  | inr different ↦ may_begin-live sb es live.1 (rw different at h)
]

-- A write to the row of a live environment, which changes neither leases nor exposures.
saved-IsSound :
    (id : Text) (s t : Store) (sb r : Row)
    → find_row id s.rows ≡ some sb
    → dead sb.status ≡ false
    → (r.id ≡ sb.id) × (r.generation ≡ sb.generation)
    → t.rows ≡ save_row r s.rows
    → (t.leases ≡ s.leases) × (t.exposures ≡ s.exposures)
    → s.next_uuid ≤ t.next_uuid
    → IsSound s
    → IsSound t
saved-IsSound id s t sb r found live (same_id, generation) rows (leases, exposures) uuids sound =
    record {
      homed = λ j q there lively.
          ap (lookup j) leases
          ∙ ground (
            arith,
            find_row-save_row r j s.rows,
            find_row-id id s.rows sb found,
            eq_iff id j,
            ap (find_row j) rows,
            sound.homed j q,
            sound.homed id sb found live,
          );
      labelled = rw (leases, exposures) sound.labelled;
      below = λ j q there. ground (
        arith,
        find_row-save_row r j s.rows,
        find_row-id id s.rows sb found,
        eq_iff id j,
        ap (find_row j) rows,
        sound.below j q,
        sound.below id sb found,
      );
    }

begin_operation-IsSound :
    (id : Text) (kind : Kind) (expected : List Status) (transitional : Status) (s : Store)
    → All (λ st. dead st ≡ false) expected
    → IsSound s
    → IsSound (begin_operation id kind expected transitional s).1
unfolding begin_operation
begin_operation-IsSound id kind expected transitional s live sound =
    elim (Option-cases (find_row id s.rows)) [
      | inl missing ↦ rw missing sound
      | inr (sb, found) ↦ elim (Bool-cases (may_claim sb expected)) [
        | inr busy ↦ rw (found, busy) sound
        | inl free ↦
            rw (found, free)
              (saved-IsSound id s (begun sb transitional kind s).1 sb
                (record sb { status = transitional; active_operation = some s.next_uuid }) found
                (may_begin-live sb expected live (and_true _ (may_begin sb expected) free).1)
                (refl, refl) refl (refl, refl) (omega arith) sound)
      ]
    ]

upsert-IsSound :
    (inst : Environment) (s : Store) (sb : Row)
    → find_row inst.id s.rows ≡ some sb
    → dead sb.status ≡ false
    → IsSound s
    → IsSound (upsert inst s).1
unfolding upsert fill
upsert-IsSound inst s sb found live sound = elim (Option-cases (lookup inst.template s.templates)) [
  | inl missing ↦ rw missing sound
  | inr (version, known) ↦
      rw (known, found, live)
        (saved-IsSound inst.id s (write_updated inst sb s) sb (fill inst sb) found live (refl, refl)
          refl (refl, refl) (omega arith) sound)
]

grant-IsSound :
    (id principal by : Text) (s : Store) → IsSound s → IsSound (grant id principal by s).1
unfolding grant
grant-IsSound id principal by s h = elim (Bool-cases (has_grant id principal s)) [
  | inl held ↦ rw held h
  | inr new ↦ elim (Bool-cases (has_row (find_row id s.rows))) [
    | inl known ↦
        rw (new, known) (record { homed = h.homed; labelled = h.labelled; below = h.below })
    | inr unknown ↦ rw (new, unknown) h
  ]
]

revoke-IsSound : (id principal : Text) (s : Store) → IsSound s → IsSound (revoke id principal s).1
unfolding revoke
revoke-IsSound id principal s h = elim (Bool-cases (has_grant id principal s)) [
  | inl held ↦ rw held (record { homed = h.homed; labelled = h.labelled; below = h.below })
  | inr unheld ↦ rw unheld h
]

Step-IsSound : {s t : Store} → Step s t → IsSound s → IsSound t
Step-IsSound (reserving inst quota s creating) h = reserve-IsSound inst quota s creating h
Step-IsSound (beginning id kind expected transitional s live) h =
    begin_operation-IsSound id kind expected transitional s live h
Step-IsSound (committing inst succeeded s sb op version due live) h =
    commit-IsSound inst succeeded s sb op version due live h
Step-IsSound (exposing id x s) h = set_exposure-IsSound id x s h
Step-IsSound (withdrawing id name s) h = remove_exposure-IsSound id name s h
Step-IsSound (updating inst s sb found live) h = upsert-IsSound inst s sb found live h
Step-IsSound (sharing id principal by s) h = grant-IsSound id principal by s h
Step-IsSound (unsharing id principal s) h = revoke-IsSound id principal s h
Step-IsSound (deleting id s) h = delete-IsSound id s h

-- Whatever sequence of methods runs on a sound store, with the conditions that `Step` names, the
-- namespace is sound after it.
pub Reach-IsSound : {s t : Store} → Reach s t → IsSound s → IsSound t
Reach-IsSound here h = h
Reach-IsSound (next r st) h = Step-IsSound st (Reach-IsSound r h)
