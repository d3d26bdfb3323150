-- ===== src/Store/Lifecycle/Claims.antt =====
-- From the claim of an environment to the commit of its result.
use cawl.Store.Tables.{Row, Kind, Store, find_row, find_row-save_row, to_environment, find_row-id}
use cawl.Models.{Status, Environment, dead}
use cawl.Prelude.{
  lookup, ℕ, ◌≡◌, some, false, arith, eq_refl, refl, Text, ◌∙◌, List, Bool, nat_beq_refl, ok, true,
  none, inl, inr, ap, sym,
}
use cawl.Store.Lifecycle.Commit.{Due, complete_operation-Due, find_row-completed}
use cawl.Store.Lifecycle.{begun, opened, begin_operation, complete_operation, begin_at}
use cawl.Store.Lifecycle.Fence.{claimed_as, find_operation-save_operation, begin_at-cases}
use cawl.Store.Upsert.{fill}

begun-Due :
    (sb : Row) (t : Status) (kind : Kind) (s : Store) (inst : Environment) (version : ℕ)
    → find_row sb.id s.rows ≡ some sb
    → inst.id ≡ sb.id
    → inst.generation ≡ some sb.generation
    → inst.operation_id ≡ some s.next_uuid
    → dead t ≡ false
    → lookup inst.template s.templates ≡ some version
    → Due inst
        (begun sb t kind s).1
        (claimed_as sb t s.next_uuid)
        (opened sb kind s.next_uuid)
        version
unfolding begun
begun-Due sb t kind s inst version found same generation operation lively known = record {
  generation = generation;
  operation = operation;
  row =
      rw (same)
        (find_row-save_row (claimed_as sb t s.next_uuid) sb.id s.rows ∙ (rw (eq_refl sb.id)));
  active = refl;
  recorded =
      find_operation-save_operation (opened sb kind s.next_uuid) s.next_uuid s.operations
      ∙ (rw nat_beq_refl);
  fits = ground (arith, eq_refl sb.id);
  known = known;
  old = rw lively;
}

begun-fences :
    (sb : Row) (t : Status) (kind : Kind) (s : Store) (i : Environment)
    → (begun sb t kind s).0 ≡ ok (some i)
    → (i.id ≡ sb.id) × (i.generation ≡ some sb.generation) × (i.operation_id ≡ some s.next_uuid)
unfolding begun to_environment
begun-fences sb t kind s i h = (ground arith, ground arith, ground arith)

begin_operation_lem :
    (id : Text) (kind : Kind) (expected : List Status) (t : Status) (s : Store)
    → begin_operation id kind expected t s ≡ begin_at (find_row id s.rows) expected t kind s
unfolding begin_operation
begin_operation_lem id kind expected t s = refl

-- The row holds what the result says of the environment.
pub record Says (result : Environment) (q : Row) : Type 0 where
  pub args : q.args ≡ result.args
  pub args_hash : q.args_hash ≡ result.args_hash
  pub backend : q.backend ≡ result.backend
  pub egress_policy : q.egress_policy ≡ result.egress_policy
  pub owner : q.owner ≡ result.owner
  pub status : q.status ≡ result.status
  pub vm_ip : q.vm_ip ≡ result.vm_ip
  pub url : q.url ≡ result.url
  pub image : q.image ≡ result.image
  pub failure : q.failure ≡ result.failure
  pub created_at : q.created_at ≡ result.created_at
  pub expires_at : q.expires_at ≡ result.expires_at

-- The claim and its commit: after `begin_operation` hands out an environment, in a status that is not
-- a dead one, a result for the same claim is accepted, if its template is there; the row then says
-- what the result says, field by field, and the claim is over.
pub claim_commits :
    (id : Text) (kind : Kind) (expected : List Status) (t : Status) (s : Store)
    (i result : Environment) (version : ℕ) (succeeded : Bool)
    → (begin_operation id kind expected t s).0 ≡ ok (some i)
    → dead t ≡ false
    → result.id ≡ i.id
    → result.generation ≡ i.generation
    → result.operation_id ≡ i.operation_id
    → lookup result.template s.templates ≡ some version
    → let (r, s') = complete_operation result succeeded (begin_operation id kind expected t s).1 in
      (r ≡ ok (true, record result { operation_id = none }))
      × ((q : Row) × (find_row id s'.rows ≡ some q) × Says result q × (q.active_operation ≡ none))
unfolding fill
claim_commits id kind expected t s i result version succeeded h lively same g o known =
    elim (begin_at-cases (find_row id s.rows) expected t kind s) [
      | inl refused ↦ cc (begin_operation_lem id kind expected t s)
      | inr (sb, found, free, fits, e) ↦
          let begins = begin_operation_lem id kind expected t s ∙ e in
          let (named, aged, claims) = begun-fences sb t kind s i (ap (λ r. r.0) (sym begins) ∙ h) in
          let keyed = find_row-id id s.rows sb found in
          let due : Due result (begun sb t kind s).1 (claimed_as sb t s.next_uuid)
              (opened sb kind s.next_uuid) version =
            begun-Due sb t kind s result version (ap (λ k. find_row k s.rows) keyed ∙ found)
              (same ∙ named) (g ∙ aged) (o ∙ claims) lively known in
          rw begins (
            ap (λ r. r.0) (complete_operation-Due result succeeded _ _ _ version due),
            (
              record (fill result (claimed_as sb t s.next_uuid)) { active_operation = none },
              find_row-completed result succeeded _ _ _ version id due
                  ∙ (rw (same, named, keyed, eq_refl id)),
              record {
                args = refl;
                args_hash = refl;
                backend = refl;
                egress_policy = refl;
                owner = refl;
                status = refl;
                vm_ip = refl;
                url = refl;
                image = refl;
                failure = refl;
                created_at = refl;
                expires_at = refl;
              },
              refl,
            ),
          )
    ]
