-- ===== src/Control/Policy.antt =====
-- Who may do what: the authorization of every operation on one environment.
use cawl.Control.Access
use cawl.Control.Lifecycle
use cawl.Control.Plane.{Control, Plane, get_or_404, World, unit, TemplateConfig}
use cawl.Prelude.{List, ◌>>=◌, Text, Bool, ℕ, Option, ◌≡◌, none, some, ◌⊎◌, err, false, inl, inr}
use cawl.Auth.{Principal, require_owner, can_view, require_access, is_owner}
use cawl.Models.{Environment, same_status, Status}
use cawl.Store.Tables.{get}
use cawl.Errors.{not_found, permission_denied}

-- The operations on an environment that exists, with their arguments.
pub data Call : Type 0 where
  status : Call
  exec : List Text → Call
  ssh : Text → Call
  share unshare : Text → Call
  expose : ℕ → Option Text → List Text → Call
  unexpose : Text → Call
  stop destroy : Call
  start : TemplateConfig → Call

-- What a caller must be: to use an environment, a viewer; for the rest, an owner.
abbrev pub allowed : Call → Principal → Environment → Bool
allowed Call.status actor inst = can_view actor inst
allowed (Call.exec cmd) actor inst = can_view actor inst
allowed (Call.ssh key) actor inst = can_view actor inst
allowed _ actor inst = is_owner actor inst

abbrev pub done : {X A : Type 0} → Control X A → Control X (Unit {0})
done m = m >>= λ a. unit

module _ {X : Type 0} (plane : Plane X) where
  -- The operation, without its result.
  unfoldable pub perform : Call → Text → Principal → Control X (Unit {0})
  perform Call.status id actor = done (Access.status plane id actor)
  perform (Call.exec cmd) id actor = done (Access.exec plane id actor cmd)
  perform (Call.ssh key) id actor = done (Access.ssh plane id actor key)
  perform (Call.share p) id actor = done (Access.share plane id actor p)
  perform (Call.unshare p) id actor = done (Access.unshare plane id actor p)
  perform (Call.expose port name access) id actor =
      done (Access.expose plane id actor port name access)
  perform (Call.unexpose name) id actor = done (Access.unexpose plane id actor name)
  perform Call.stop id actor = done (Lifecycle.stop plane id actor)
  perform Call.destroy id actor = done (Lifecycle.destroy plane id actor)
  perform (Call.start template) id actor = done (Lifecycle.start plane id actor template)

  -- An actor without the rights that the operation asks for is refused, and neither the database
  -- nor anything outside it has changed.
  pub perform_denied :
      (call : Call) (id : Text) (actor : Principal) (w : World X) (inst : Environment)
      → get id w.store ≡ some inst
      → same_status inst.status Status.destroyed ≡ false
      → allowed call actor inst ≡ false
      → perform call id actor w ≡ (err (permission_denied actor.id), w)
  unfolding perform get_or_404 require_owner require_access can_view is_owner Access.status
      Access.exec Access.ssh Access.share Access.unshare Access.expose Access.unexpose
      Lifecycle.stop Lifecycle.destroy Lifecycle.start
  perform_denied Call.status id actor w inst found there denied = rw (found, there, denied)
  perform_denied (Call.exec cmd) id actor w inst found there denied = rw (found, there, denied)
  perform_denied (Call.ssh key) id actor w inst found there denied = rw (found, there, denied)
  perform_denied (Call.expose port name access) id actor w inst found there denied =
      rw (found, there, denied)
  perform_denied (Call.start template) id actor w inst found there denied =
      rw (found, there, denied)
  perform_denied (Call.share p) id actor w inst found there denied = rw (found, there, denied)
  perform_denied (Call.unshare p) id actor w inst found there denied = rw (found, there, denied)
  perform_denied (Call.unexpose name) id actor w inst found there denied = rw (found, there, denied)
  perform_denied _ id actor w inst found there denied = rw (found, there, denied)

  -- An id that is unknown, or of a destroyed environment, is not found.
  get_or_404-missing :
      (id : Text) (w : World X)
      → (get id w.store ≡ none)
        ⊎ ((inst : Environment) × (get id w.store ≡ some inst) × (inst.status ≡ Status.destroyed))
      → get_or_404 plane id w ≡ (err (not_found id), w)
  unfolding get_or_404
  get_or_404-missing id w h = elim h [ inl e ↦ rw e | inr (inst, found, gone) ↦ rw (found, gone) ]

  -- On an id that is unknown or belongs to a destroyed environment every operation reports that it
  -- is not found, whoever asks, and changes nothing.
  pub perform_missing :
      (call : Call) (id : Text) (actor : Principal) (w : World X)
      → (get id w.store ≡ none)
        ⊎ ((inst : Environment) × (get id w.store ≡ some inst) × (inst.status ≡ Status.destroyed))
      → perform call id actor w ≡ (err (not_found id), w)
  unfolding perform Access.status Access.exec Access.ssh Access.share Access.unshare Access.expose
      Access.unexpose Lifecycle.stop Lifecycle.destroy Lifecycle.start
  perform_missing Call.status id actor w h = rw (get_or_404-missing id w h)
  perform_missing (Call.exec cmd) id actor w h = rw (get_or_404-missing id w h)
  perform_missing (Call.ssh key) id actor w h = rw (get_or_404-missing id w h)
  perform_missing (Call.expose port name access) id actor w h = rw (get_or_404-missing id w h)
  perform_missing (Call.start template) id actor w h = rw (get_or_404-missing id w h)
  perform_missing (Call.share p) id actor w h = rw (get_or_404-missing id w h)
  perform_missing (Call.unshare p) id actor w h = rw (get_or_404-missing id w h)
  perform_missing (Call.unexpose name) id actor w h = rw (get_or_404-missing id w h)
  perform_missing _ id actor w h = rw (get_or_404-missing id w h)
