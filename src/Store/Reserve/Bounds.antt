-- ===== src/Store/Reserve/Bounds.antt =====
-- What a reservation promises: the quota is kept, and older claims on the id are void.
use cawl.Store.Tables.{find_row, save_row, Row, Store, count_active, counts_for, find_row-save_row}
use cawl.Prelude.{
  Bool, List, ◌≡◌, none, some, count, ◌+◌, if◌then◌else◌, arith, ◌∷◌, [], ℕ, Text, Option, ◌==◌,
  true, ◌∙◌, eq_refl, ap, ok, ◌<◌, ◌≤◌, refl, false, inr, inl, Result,
}
use cawl.Models.{Environment, Status}
use cawl.Store.Upsert.{fill, new_row, is_creating, release_leases}
use cawl.Store.Reserve.Outcome.{
  claimed_row, claimed, claimed_rows, prepared, reserve_cases, prepared_rows, Granted,
  find_row-claimed, prepared_next,
}
use cawl.Store.Reserve.{reserve}
use cawl.Store.Lifecycle.{complete_operation}
use cawl.Store.Lifecycle.Commit.{complete_operation_stale}
use cawl.Errors.{Error}

-- Counting the rows that pass a test, when one row is saved over the row of its key.
count-save_row_new :
    (p : Row → Bool) (r : Row) (rs : List Row)
    → find_row r.id rs ≡ none
    → count p (save_row r rs) ≡ count p rs + (if p r then 1 else 0)
unfolding find_row save_row
count-save_row_new p r [] h = ground arith
count-save_row_new p r (q ∷ qs) h = ground (arith, count-save_row_new p r qs)

count-save_row_over :
    (p : Row → Bool) (r old : Row) (rs : List Row)
    → find_row r.id rs ≡ some old
    → count p (save_row r rs) + (if p old then 1 else 0) ≡ count p rs + (if p r then 1 else 0)
unfolding find_row save_row
count-save_row_over p r old [] h = cc
count-save_row_over p r old (q ∷ qs) h = ground (arith, count-save_row_over p r old qs)

-- A row in creation counts for its owner, once saved over a row that did not count or none.
abbrev first_row : Environment → ℕ → Store → Row
first_row inst version s = fill inst (new_row inst version s.next_uuid)

module _ (inst : Environment) (version : ℕ) (s : Store) (owner : Text)
    (creating : inst.status ≡ Status.creating) where
  counts_first : counts_for owner (first_row inst version s) ≡ inst.owner == owner
  unfolding fill new_row
  counts_first = simp creating (ground arith)

  counts_claimed : counts_for owner (claimed_row inst version s) ≡ inst.owner == owner
  unfolding fill new_row
  counts_claimed = simp creating (ground arith)

  count-first_row :
      (held : Option Row)
      → find_row inst.id s.rows ≡ held
      → is_creating inst held ≡ true
      → count (counts_for owner) (save_row (first_row inst version s) s.rows)
        ≡ count (counts_for owner) s.rows + (if inst.owner == owner then 1 else 0)
  unfolding fill new_row
  count-first_row none found fresh =
      count-save_row_new (counts_for owner) (first_row inst version s) s.rows found
      ∙ (rw counts_first)
  count-first_row (some old) found fresh = ground (
    arith,
    count-save_row_over (counts_for owner) (first_row inst version s) old s.rows found,
    counts_first,
  )

  found_first :
      find_row inst.id (save_row (first_row inst version s) s.rows)
      ≡ some (first_row inst version s)
  unfolding fill new_row
  found_first = find_row-save_row (first_row inst version s) inst.id s.rows ∙ (rw (eq_refl inst.id))

  count-claimed_row :
      count
        (counts_for owner)
        (save_row (claimed_row inst version s) (save_row (first_row inst version s) s.rows))
      ≡ count (counts_for owner) (save_row (first_row inst version s) s.rows)
  unfolding fill new_row
  count-claimed_row = ground (
    arith,
    count-save_row_over (counts_for owner) (claimed_row inst version s) (first_row inst version s)
        (save_row (first_row inst version s) s.rows) found_first,
    counts_first,
    counts_claimed,
  )

  count_active-claimed :
      (held : Option Row)
      → find_row inst.id s.rows ≡ held
      → is_creating inst held ≡ true
      → count_active owner (claimed inst version s held)
        ≡ count_active owner s + (if inst.owner == owner then 1 else 0)
  unfolding count_active
  count_active-claimed held found fresh =
      ap (count (counts_for owner)) (claimed_rows inst version s held)
      ∙ count-claimed_row
      ∙ count-first_row held found fresh

prepared-count_active :
    (inst : Environment) (held : Option Row) (s : Store) (owner : Text)
    → count_active owner (prepared inst held s) ≡ count_active owner s
unfolding count_active release_leases
prepared-count_active inst none s owner = refl
prepared-count_active inst (some sb) s owner = refl

Granted-count_active :
    (inst : Environment) (quota : Option ℕ) (s : Store) (held : Option Row) (version : ℕ)
    → inst.status ≡ Status.creating
    → Granted inst quota s held version
    → (owner : Text)
    → count_active owner (reserve inst quota s).1
      ≡ count_active owner s + (if inst.owner == owner then 1 else 0)
Granted-count_active inst quota s held version creating g owner =
    ap (λ (r : Result Error (Bool × Environment) × Store). count_active owner r.1) g.outcome
    ∙ count_active-claimed inst version (prepared inst held s) owner creating held
        (ap (find_row inst.id) (prepared_rows inst s held) ∙ g.row) g.reusable
    ∙ ap (λ (n : ℕ). n + (if inst.owner == owner then 1 else 0))
        (prepared-count_active inst held s owner)

-- A reservation that is granted under a quota takes one of the owner's slots, stays within the
-- quota, and takes no slot of any other owner.
pub reserve_quota :
    (inst i : Environment) (q : ℕ) (s : Store)
    → inst.status ≡ Status.creating
    → (reserve inst (some q) s).0 ≡ ok (true, i)
    → let s' = (reserve inst (some q) s).1 in
      (count_active inst.owner s' ≡ count_active inst.owner s + 1)
      × (count_active inst.owner s' ≤ q)
      × ((owner : Text)
          → (inst.owner == owner) ≡ false
          → count_active owner s' ≡ count_active owner s)
reserve_quota inst i q s creating h = elim (reserve_cases inst (some q) s creating) [
  | inr (refused, rest) ↦ absurd (refused i h)
  | inl (held, version, g) ↦
      let counted = Granted-count_active inst (some q) s held version creating g in
      (
        ground (arith, counted inst.owner, eq_refl inst.owner),
        ground (arith, counted inst.owner, eq_refl inst.owner, g.in_quota),
        λ owner other. ground (arith, counted owner),
      )
]

-- An operation claimed before an id was reserved anew can commit nothing to the new environment.
pub reserve_fences :
    (inst i old : Environment) (quota : Option ℕ) (s : Store) (succeeded : Bool) (n : ℕ)
    → inst.status ≡ Status.creating
    → (reserve inst quota s).0 ≡ ok (true, i)
    → old.id ≡ inst.id
    → old.generation ≡ some n
    → n < s.next_uuid
    → let s' = (reserve inst quota s).1 in
      complete_operation old succeeded s' ≡ (ok (false, old), s')
reserve_fences inst i old quota s succeeded n creating h same aged older =
    elim (reserve_cases inst quota s creating) [
      | inr (refused, rest) ↦ absurd (refused i h)
      | inl (held, version, g) ↦ rw (g.outcome) (
          complete_operation_stale old succeeded (claimed inst version (prepared inst held s) held)
            (claimed_row inst version (prepared inst held s)) n
            (ap (λ k. find_row k (claimed inst version (prepared inst held s) held).rows) same
              ∙ find_row-claimed inst version (prepared inst held s) held inst.id
              ∙ (rw (eq_refl inst.id)))
            aged (unfold fill new_row in ground (arith, prepared_next inst s held)))
    ]
