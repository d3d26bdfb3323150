-- ===== src/Store/Reserve/Outcome.antt =====
-- What a reservation leaves behind.
use cawl.Prelude.{
  lookup, Text, ℕ, ◌≡◌, true, Option, none, some, ◌==◌, if◌then◌else◌, ok, suc, eq_refl, err, arith,
  ◌⊎◌, ◌≢◌, Option-cases, inl, inr, false, Bool-cases, refl, ◌∷◌,
}
use cawl.Models.{Environment, Status, dead}
use cawl.Store.Tables.{Row, Store, find_row, find_row-save_row, Kind, count_active, save_row}
use cawl.Store.Upsert.{
  upsert, write_created, drop_capabilities, is_creating, fill, new_row, release_leases, drop_stale,
}
use cawl.Store.Reserve.{
  claim, add_lease, reserve, lock_owner, over_quota, count_active, release_leases, recovered,
}
use cawl.Store.Lifecycle.{open_operation}
use cawl.Errors.{integrity_error, Error, does_not_exist}

module _ (inst : Environment) (version : ℕ) (s : Store) where
  upsert-write_created :
      (held : Option Row)
      → lookup inst.template s.templates ≡ some version
      → find_row inst.id s.rows ≡ held
      → is_creating inst held ≡ true
      → upsert inst s ≡ (ok tt, write_created inst version held s)
  unfolding upsert
  upsert-write_created none known row fresh = rw (known, row)
  upsert-write_created (some sb) known row fresh = rw (known, row, fresh)

  pub find_row-write_created :
      (held : Option Row) (id : Text)
      → find_row id (write_created inst version held s).rows ≡ (
          if inst.id == id
          then some (fill inst (new_row inst version s.next_uuid))
          else find_row id s.rows)
  unfolding write_created drop_capabilities
  find_row-write_created none id = rw find_row-save_row
  find_row-write_created (some r) id = rw find_row-save_row

  -- The store after a `claim` that found its id unleased, and the environment that it hands back.
  abbrev pub claimed_row : Row
  claimed_row = record (fill inst (new_row inst version s.next_uuid)) {
    active_operation = some (suc s.next_uuid);
  }

  unfoldable pub claimed : Option Row → Store
  unfolding write_created open_operation drop_capabilities
  claimed held =
      add_lease inst.id inst.id
        (open_operation (fill inst (new_row inst version s.next_uuid)) Kind.provision
          (write_created inst version held s)).1

  abbrev pub granted : Environment
  granted = record inst { generation = some s.next_uuid; operation_id = some (suc s.next_uuid) }

  claim_unleased :
      (held : Option Row)
      → lookup inst.template s.templates ≡ some version
      → find_row inst.id s.rows ≡ held
      → is_creating inst held ≡ true
      → lookup inst.id s.leases ≡ none
      → claim inst s ≡ (ok (true, granted), claimed held)
  unfolding claim claimed
  claim_unleased none known row fresh free = rw (
    upsert-write_created none known row fresh,
    find_row-write_created none inst.id,
    eq_refl,
    free,
  )
  claim_unleased (some sb) known row fresh free = rw (
    upsert-write_created (some sb) known row fresh,
    find_row-write_created (some sb) inst.id,
    eq_refl,
    free,
  )

  claim_leased :
      (held : Option Row) (holder : Text)
      → lookup inst.template s.templates ≡ some version
      → find_row inst.id s.rows ≡ held
      → is_creating inst held ≡ true
      → lookup inst.id s.leases ≡ some holder
      → (claim inst s).0 ≡ err (integrity_error inst.id)
  unfolding claim
  claim_leased none holder known row fresh taken = rw (
    upsert-write_created none known row fresh,
    find_row-write_created none inst.id,
    eq_refl,
    taken,
  )
  claim_leased (some sb) holder known row fresh taken = rw (
    upsert-write_created (some sb) known row fresh,
    find_row-write_created (some sb) inst.id,
    eq_refl,
    taken,
  )

  pub find_row-claimed :
      (held : Option Row) (id : Text)
      → find_row id (claimed held).rows
        ≡ (if inst.id == id then some claimed_row else find_row id s.rows)
  unfolding claimed
  find_row-claimed none id = simp find_row-save_row (ground arith)
  find_row-claimed (some sb) id = simp find_row-save_row (ground arith)

  pub claimed_rows :
      (held : Option Row)
      → (claimed held).rows
        ≡ save_row claimed_row (save_row (fill inst (new_row inst version s.next_uuid)) s.rows)
  unfolding claimed
  claimed_rows none = refl
  claimed_rows (some sb) = refl

  pub claimed_leases : (held : Option Row) → (claimed held).leases ≡ (inst.id, inst.id) ∷ s.leases
  unfolding claimed
  claimed_leases none = refl
  claimed_leases (some sb) = refl

  pub claimed_exposures :
      (held : Option Row) → (claimed held).exposures ≡ (drop_stale held inst.id s).exposures
  unfolding claimed
  claimed_exposures none = refl
  claimed_exposures (some sb) = refl

  pub claimed_next : (held : Option Row) → (claimed held).next_uuid ≡ suc (suc s.next_uuid)
  unfolding claimed
  claimed_next none = refl
  claimed_next (some sb) = refl

-- A claim by an environment in creation either stores it whole, or raises.
claim_cases :
    (inst : Environment) (s : Store) (held : Option Row)
    → find_row inst.id s.rows ≡ held
    → is_creating inst held ≡ true
    → ((v : ℕ) × (lookup inst.template s.templates ≡ some v)
        × (lookup inst.id s.leases ≡ none)
        × (claim inst s ≡ (ok (true, granted inst v s), claimed inst v s held)))
      ⊎ ((e : Error) × ((claim inst s).0 ≡ err e))
claim_cases inst s held row fresh = elim (Option-cases (lookup inst.template s.templates)) [
  | inl missing ↦ inr (does_not_exist inst.template, unfold claim in rw missing)
  | inr (v, known) ↦ elim (Option-cases (lookup inst.id s.leases)) [
    | inl free ↦ inl (v, known, free, claim_unleased inst v s held known row fresh free)
    | inr (h, taken) ↦
        inr (integrity_error inst.id, claim_leased inst v s held h known row fresh taken)
  ]
]

-- The store that a reservation claims in: the owner's lock taken, and the leases of a dead holder
-- of the id gone.
abbrev pub prepared : Environment → Option Row → Store → Store
prepared inst none s = lock_owner inst.owner s
prepared inst (some sb) s = release_leases inst.id (lock_owner inst.owner s)

module _ (inst : Environment) (s : Store) where
  pub prepared_rows : (held : Option Row) → (prepared inst held s).rows ≡ s.rows
  unfolding release_leases
  prepared_rows none = refl
  prepared_rows (some sb) = refl

  pub prepared_next : (held : Option Row) → (prepared inst held s).next_uuid ≡ s.next_uuid
  unfolding release_leases
  prepared_next none = refl
  prepared_next (some sb) = refl

-- How a reservation that was granted came about.
pub record Granted (inst : Environment) (quota : Option ℕ) (s : Store) (held : Option Row)
    (version : ℕ) : Type 0 where
  pub known : lookup inst.template s.templates ≡ some version
  pub row : find_row inst.id s.rows ≡ held
  pub reusable : is_creating inst held ≡ true
  pub unleased : lookup inst.id (prepared inst held s).leases ≡ none
  pub in_quota : over_quota quota (count_active inst.owner s) ≡ false
  pub outcome :
      reserve inst quota s
      ≡ (ok (true, granted inst version s), claimed inst version (prepared inst held s) held)

-- A reservation that was not granted wrote nothing but the owner's lock.
abbrev Refused : Environment → Option ℕ → Store → Type 0
Refused inst quota s =
    ((i : Environment) → (reserve inst quota s).0 ≢ ok (true, i))
    × (((reserve inst quota s).1 ≡ s) ⊎ ((reserve inst quota s).1 ≡ lock_owner inst.owner s))

recovered_refused :
    (inst : Environment) (e : Error) (s : Store)
    → ((i : Environment) → (recovered inst (err e) s).0 ≢ ok (true, i))
      × ((recovered inst (err e) s).1 ≡ s)
recovered_refused inst (integrity_error n) s = (λ i h. ground arith, ground arith)
recovered_refused inst _ s = (λ i h. cc, refl)

module _ (inst : Environment) (quota : Option ℕ) (s : Store)
    (in_quota : over_quota quota (count_active inst.owner s) ≡ false) where
  reserve_new :
      find_row inst.id s.rows ≡ none
      → ((held : Option Row) × (version : ℕ) × Granted inst quota s held version)
        ⊎ Refused inst quota s
  unfolding reserve count_active
  reserve_new missing = elim (claim_cases inst (prepared inst none s) none missing refl) [
    | inl (v, known, free, e) ↦ inl (
      none,
      v,
      record {
        known = known;
        row = missing;
        reusable = refl;
        unleased = free;
        in_quota = in_quota;
        outcome = rw (in_quota, missing, e) refl;
      },
    )
    | inr (e, raised) ↦
        let (never, back) = recovered_refused inst e s in
        inr (rw (in_quota, missing, raised) (never, inl back))
  ]

  reserve_dead :
      (sb : Row)
      → find_row inst.id s.rows ≡ some sb
      → dead sb.status ≡ true
      → is_creating inst (some sb) ≡ true
      → ((held : Option Row) × (version : ℕ) × Granted inst quota s held version)
        ⊎ Refused inst quota s
  unfolding reserve count_active
  reserve_dead sb found gone fresh =
      elim (claim_cases inst (prepared inst (some sb) s) (some sb) found fresh) [
        | inl (v, known, free, e) ↦ inl (
          some sb,
          v,
          record {
            known = known;
            row = found;
            reusable = fresh;
            unleased = free;
            in_quota = in_quota;
            outcome = rw (in_quota, found, gone, e) refl;
          },
        )
        | inr (e, raised) ↦
            let (never, back) = recovered_refused inst e s in
            inr (rw (in_quota, found, gone, raised) (never, inl back))
      ]

pub reserve_cases :
    (inst : Environment) (quota : Option ℕ) (s : Store)
    → inst.status ≡ Status.creating
    → ((held : Option Row) × (version : ℕ) × Granted inst quota s held version)
      ⊎ Refused inst quota s
unfolding count_active
reserve_cases inst quota s creating =
    elim (Bool-cases (over_quota quota (count_active inst.owner s))) [
      | inl over ↦ inr (unfold reserve in rw over ((λ i e. cc), inl refl))
      | inr in_quota ↦ elim (Option-cases (find_row inst.id s.rows)) [
        | inl missing ↦ reserve_new inst quota s in_quota missing
        | inr (sb, found) ↦ elim (Bool-cases (dead sb.status)) [
          | inl dead_row ↦
              reserve_dead inst quota s in_quota sb found dead_row (rw (dead_row, creating) refl)
          | inr live ↦ inr (unfold reserve in rw (in_quota, found, live) ((λ i e. cc), inr refl))
        ]
      ]
    ]
