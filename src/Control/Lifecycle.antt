-- ===== src/Control/Lifecycle.antt =====
-- stop, start, destroy and reap of `ControlPlane`.
use cawl.Models.{Environment, same_status, Status}
use cawl.Control.Plane.{
  Plane, World, Control, TemplateConfig, backend_of, get_or_404, on_outside, on_store, ssh_target,
}
use cawl.Prelude.{
  Text, List, Option, false, if◌then◌else◌, ok, or_raise, pure, try, ℕ, ◌>>=◌, ◌>>◌, lift, ◌∷◌, [],
  none, gets, not, some, true, raise, raise_if,
}
use cawl.Errors.{
  Error, superseded, teardown_failed, destroy_failed, not_running, not_stopped, start_failed,
  stop_failed,
}
use cawl.Control.Jobs.{Job, Work, complete, in_world, set_inst, this, spec_for, has_target}
use cawl.Auth.{Principal, require_admin, require_owner}
use cawl.Store.Upsert.{delete, upsert}
use cawl.Store.Tables.{expired, Kind}
use cawl.Store.Lifecycle.{begin_operation}

abbrev job : {X : Type 0} → World X → Environment → Job X
job w inst = record { world = w; inst = inst; runtime_created = false }

-- A block of work on an object, as an operation; the object and the flag are dropped.
abbrev pub working : {X A : Type 0} → Environment → Work X A → Control X A
working inst m w = let (r, j) = m (job w inst) in (r, j.world)

abbrev pub claimed_or_superseded : {X : Type 0} → Text → Option Environment → Control X Environment
claimed_or_superseded id found = or_raise found (superseded id)

module _ {X : Type 0} (plane : Plane X) where
  -- `stop`: the calls in the `try`, the handler, and what follows.
  unfoldable pub halt : Text → Environment → Control X (Unit {0})
  halt id inst = do
    on_outside (plane.unregister inst.id inst.vm_ip)
    backend ← backend_of plane inst
    on_outside (plane.stop backend id)

  unfoldable pub stop_raised : Text → Error → Work X Environment
  unfolding complete
  stop_raised id e = do
    set_inst (λ i. record i { status = Status.ready; failure = some e })
    complete false
    raise (stop_failed id e)

  unfoldable pub stop_done : Text → Work X Environment
  unfolding complete
  stop_done id = do
    set_inst (λ i. record i { status = Status.stopped; vm_ip = none; ssh = none })
    complete true
    in_world (on_outside (plane.deregister id))
    this

  unfoldable pub stopping : Text → Environment → Control X Environment
  unfolding halt stop_raised stop_done
  stopping id inst =
      working inst (try (in_world (halt id inst)) (λ u. stop_done id) (stop_raised id))

  abbrev stop_from : Text → Environment → Control X Environment
  stop_from id inst =
      if same_status inst.status Status.stopped
      then pure inst
      else if not (same_status inst.status Status.ready)
      then raise (not_running id)
      else do
        found ← on_store (begin_operation id Kind.stop (Status.ready ∷ []) Status.stopping)
        claimed ← claimed_or_superseded id found
        stopping id claimed

  unfoldable pub stop : Text → Principal → Control X Environment
  stop id actor = do inst ← get_or_404 plane id; lift (require_owner actor inst); stop_from id inst

  -- `_resume`: the calls in the `try`
  unfoldable boot : TemplateConfig → Work X (Unit {0})
  unfolding complete
  boot template = do
    inst ← this
    backend ← in_world (backend_of plane inst)
    spec ← in_world (spec_for plane inst template [])
    ip ← in_world (on_outside (plane.start backend spec))
    set_inst (λ i. record i { vm_ip = ip })
    set_inst (λ i. record i { ssh = ssh_target plane i })
    addressed ← this
    in_world (has_target plane addressed)
    set_inst (λ i. record i { status = Status.ready })
    committed ← complete true
    raise_if (not committed) (superseded inst.id)
    final ← this
    in_world (on_outside (plane.sync final))

  -- An exception of the call is passed over.
  abbrev pub quietly : Control X (Unit {0}) → Control X (Unit {0})
  quietly m w = (ok tt, (m w).1)

  unfoldable boot_raised : Error → Work X Environment
  unfolding complete
  boot_raised e = do
    inst ← this
    in_world (quietly (on_outside (plane.unregister inst.id none)))
    set_inst (λ i. record i { status = Status.stopped; failure = some e })
    complete false
    raise (start_failed inst.id e)

  unfoldable pub resume : Environment → TemplateConfig → Control X Environment
  unfolding boot boot_raised
  resume inst template = working inst (try (boot template) (λ u. this) boot_raised)

  abbrev start_from : Text → Environment → TemplateConfig → Control X Environment
  start_from id inst template =
      if same_status inst.status Status.ready
      then pure inst
      else if not (same_status inst.status Status.stopped)
      then raise (not_stopped id)
      else do
        found ← on_store (begin_operation id Kind.start (Status.stopped ∷ []) Status.starting)
        claimed ← claimed_or_superseded id found
        resume claimed template

  unfoldable pub start : Text → Principal → TemplateConfig → Control X Environment
  start id actor template = do
    inst ← get_or_404 plane id
    lift (require_owner actor inst)
    start_from id inst template

  -- `_destroy`
  abbrev pub destroy_raised : Environment → Error → Control X (Unit {0})
  destroy_raised inst e = do
    on_store (
        upsert (record inst { status = Status.destroy_failed; failure = some (teardown_failed e) }))
    raise (destroy_failed inst.id e)

  abbrev pub demolish : Environment → Control X (Unit {0})
  demolish inst = do backend ← backend_of plane inst; on_outside (plane.destroy backend inst.id)

  abbrev pub delete_row : Text → Control X (Unit {0})
  delete_row id w = (ok tt, record w { store = delete id w.store })

  unfoldable pub tear_down : Environment → Control X (Unit {0})
  tear_down inst = do
    on_outside (plane.deregister inst.id)
    on_outside (plane.unregister inst.id inst.vm_ip)
    try (demolish inst) (λ u. delete_row inst.id) (destroy_raised inst)

  unfoldable pub destroy : Text → Principal → Control X (Unit {0})
  destroy id actor = do inst ← get_or_404 plane id; lift (require_owner actor inst); tear_down inst

  -- The loop of `reap`, and the ids that it returns.
  unfoldable pub reap_each : List Environment → Control X (List Text)
  reap_each [] = pure []
  reap_each (inst ∷ rest) = tear_down inst >>= λ u. reap_each rest >>= λ ids. pure (inst.id ∷ ids)

  unfoldable pub reap : Principal → ℕ → Control X (List Text)
  unfolding reap_each
  reap actor now = do
    lift (require_admin actor)
    found ← gets (λ w. expired now w.store)
    reap_each found
