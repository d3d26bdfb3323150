-- ===== src/Control/Creation.antt =====
-- up and refresh_image of `ControlPlane`.
use cawl.Prelude.{
  List, Option, Text, ℕ, Bool, Result, some, ◌∷◌, ◌+◌, [], if◌then◌else◌, none, ok, pure, raise,
  ◌>>=◌, ◌==◌, lift, ltb, ◌>>◌, err, suc, false, raise_if, true, try, gets, not, zero, ◌++◌, codes,
}
use cawl.Control.Plane.{
  Plane, Control, TemplateConfig, InstanceSpec, unit, on_store, require_label_free, on_outside,
  ssh_target, primary_url, require_backend, or_default,
}
use cawl.Auth.{Principal, require_access, require_admin}
use cawl.Models.{Environment, Status, dead, same_status}
use cawl.Errors.{
  Error, no_unique_id, failed_teardown, name_conflict, provisioning_and_teardown_failed,
  bring_up_failed, superseded,
}
use cawl.Control.Jobs.{complete, Work, in_world, spec_for, set_inst, this, has_target, values_with}
use cawl.Naming.Lifetimes.{parse_ttl, compute_expiry}
use cawl.Control.Access.{as_invalid_name}
use cawl.Naming.Labels.{default_exposure_label, new_environment_id, validate_name}
use cawl.Control.Lifecycle.{quietly, working, claimed_or_superseded, resume}
use cawl.Store.Reserve.{reserve}
use cawl.Store.Lifecycle.{begin_operation}
use cawl.Store.Capabilities.{set_exposure, exposures}
use cawl.Store.Tables.{Kind, get, find}
use cawl.Store.Upsert.{upsert}
use cawl.Params.{resolve}
use cawl.Params.Templates.{render}

-- The arguments of `up`.
pub record Request : Type 0 where
  pub args : List (Text × Text)
  pub name : Option Text
  pub ttl : Option Text
  pub reuse : Bool
  pub on_behalf_of : Option Text
  pub quota : Option ℕ
  pub max_ttl : Option ℕ
  pub backend : Option Text
  pub authorized_keys : List Text

-- `if on_behalf_of and on_behalf_of != actor.id`
abbrev owner_for : Principal → Option Text → Result Error Text
owner_for actor none = ok actor.id
owner_for actor (some []) = ok actor.id
owner_for actor (some (c ∷ other)) =
    if (c ∷ other) == actor.id
    then ok actor.id
    else elim (require_admin actor) [ ok u ↦ ok (c ∷ other) | err e ↦ err e ]

-- The expiry that the request and the template ask for, under the caller's cap.
unfoldable pub capped : ℕ → Option ℕ → Option ℕ → Option ℕ
capped now none expires = expires
capped now (some most) none = some (now + most)
capped now (some most) (some t) = if ltb (now + most) t then some (now + most) else some t

abbrev pub or_else : {A : Type 0} → Option A → Option A → Option A
or_else (some a) d = some a
or_else none d = d

abbrev after_parse : ℕ → Option ℕ → Result Error (Option ℕ) → Result Error (Option ℕ)
after_parse now max_ttl (ok ttl) = ok (capped now max_ttl (compute_expiry now ttl))
after_parse now max_ttl (err e) = err e

unfoldable pub expiry_for : ℕ → Option Text → Option Text → Option ℕ → Result Error (Option ℕ)
unfolding capped
expiry_for now ttl default_ttl max_ttl =
    after_parse now max_ttl (parse_ttl (or_else ttl default_ttl))

abbrev or_name : Text → Text → Text
or_name [] name = name
or_name (c ∷ image) name = c ∷ image

abbrev or_name_of : Option Text → Text
or_name_of none = []
or_name_of (some name) = name

module _ {X : Type 0} (plane : Plane X) where
  abbrev claimed_name :
      Bool → Principal → Text → Option Environment → Control X (Text × Option Environment)
  claimed_name reuse actor id none = pure (id, none)
  claimed_name reuse actor id (some held) =
      if dead held.status
      then pure (id, none)
      else if reuse
      then (lift (require_access actor held) >> pure (id, some held))
      else raise (name_conflict id)

  -- `_claim_name`
  unfoldable claim_name : Text → Principal → Bool → Control X (Text × Option Environment)
  claim_name name actor reuse = do
    id ← lift (as_invalid_name (validate_name name))
    require_label_free plane id id
    held ← gets (λ w. get id w.store)
    claimed_name reuse actor id held

  -- `_reuse`
  unfoldable hand_back : Environment → TemplateConfig → Control X Environment
  hand_back inst template =
      if same_status inst.status Status.destroy_failed
      then raise (failed_teardown inst.id)
      else if same_status inst.status Status.stopped
      then (do
        found ← on_store (begin_operation inst.id Kind.start (Status.stopped ∷ []) Status.starting)
        claimed ← claimed_or_superseded inst.id found
        resume plane claimed template)
      else pure inst

  -- What `up` has settled on before it reserves: the environment to be, under an id to come.
  abbrev candidate :
      TemplateConfig
      → List (Text × Text)
      → Text
      → Text
      → Text
      → Text
      → ℕ
      → Option ℕ
      → Text
      → Environment
  candidate template resolved key backend owner image now expires id = record {
    id = id;
    template = template.name;
    owner = owner;
    status = Status.creating;
    backend = backend;
    egress_policy = plane.policy_name;
    args = resolved;
    args_hash = key;
    vm_ip = none;
    url = none;
    ssh = none;
    image = some image;
    failure = none;
    created_at = some now;
    expires_at = expires;
    shared_with = [];
    exposures = [];
    generation = none;
    operation_id = none;
  }

  -- A generated id, and again on a collision, ten times at most.
  unfoldable reserve_generated : ℕ → Text → (Text → Environment) → Option ℕ → Control X Environment
  reserve_generated zero template make limit = raise no_unique_id
  reserve_generated (suc rounds) template make limit = do
    hex ← on_outside plane.token_hex
    answer ← on_store (reserve (make (new_environment_id template hex)) limit)
    λ w. elim answer.0 [
      | true ↦ (ok answer.1, w)
      | false ↦ reserve_generated rounds template make limit w
    ]

  unfoldable reserve_named : Text → (Text → Environment) → Option ℕ → Control X Environment
  reserve_named id make limit = do
    answer ← on_store (reserve (make id) limit)
    raise_if (not answer.0) (name_conflict id)
    pure answer.1

  abbrev reserve_id : Option Text → Text → (Text → Environment) → Option ℕ → Control X Environment
  reserve_id none template make limit = reserve_generated 10 template make limit
  reserve_id (some id) template make limit = reserve_named id make limit

  -- The template's default exposures.
  unfoldable pub expose_defaults : Text → List (Text × ℕ) → Control X (Unit {0})
  expose_defaults id [] = unit
  expose_defaults id ((key, port) ∷ rest) =
      require_label_free plane (default_exposure_label id key) id >>= λ u.
      on_store (
        set_exposure id (record { name = default_exposure_label id key; port = port; access = [] }))
      >>= λ v. expose_defaults id rest

  -- The `try` of `up`
  unfoldable launch : TemplateConfig → Text → InstanceSpec → Work X (Unit {0})
  unfolding complete
  launch template backend spec = do
    ip ← in_world (on_outside (plane.create backend spec))
    (λ j. (ok tt, record j { runtime_created = true; inst = record (j.inst) { vm_ip = ip } }))
    set_inst (λ i. record i { ssh = ssh_target plane i })
    addressed ← this
    in_world (has_target plane addressed)
    in_world (expose_defaults addressed.id template.expose)
    published ← in_world (gets (λ w. exposures addressed.id w.store))
    set_inst (λ i. record i { exposures = published })
    set_inst (λ i. record i { url = primary_url plane i; status = Status.ready })
    committed ← complete true
    raise_if (not committed) (superseded addressed.id)
    final ← this
    in_world (on_outside (plane.sync final))

  -- Teardown of a box that the failed `up` had created.
  abbrev clean_up_raised : Error → Error → Work X (Unit {0})
  clean_up_raised e c = do
    set_inst (λ i. record i {
      status = Status.destroy_failed;
      failure = some (provisioning_and_teardown_failed e c);
    })
    inst ← this
    in_world (on_store (upsert inst))

  unfoldable clean_up : Text → Error → Bool → Work X (Unit {0})
  clean_up backend e false j = (ok tt, j)
  clean_up backend e true j =
      (in_world (quietly plane (on_outside (plane.unregister j.inst.id none)))
          >> try (in_world (on_outside (plane.destroy backend j.inst.id))) (λ u. pure tt)
              (clean_up_raised e))
        j

  unfoldable launch_raised : Text → Error → Work X Environment
  unfolding complete clean_up
  launch_raised backend e = do
    set_inst (λ i. record i { status = Status.error; failure = some e })
    complete false
    (λ j. clean_up backend e j.runtime_created j)
    inst ← this
    raise (bring_up_failed inst.id e)

  unfoldable pub bring_up : Environment → TemplateConfig → Text → List Text → Control X Environment
  unfolding launch launch_raised
  bring_up inst template backend keys = do
    spec ← spec_for plane inst template keys
    working inst (try (launch template backend spec) (λ u. this) (launch_raised backend))

  abbrev not_error : Option Environment → Option Environment
  not_error none = none
  not_error (some inst) = if same_status inst.status Status.error then none else some inst

  -- The id that a name pins, and an environment to hand back where there is one.
  abbrev pinned :
      Option Text
      → Bool
      → Principal
      → TemplateConfig
      → Text
      → Text
      → Control X (Option Text × Option Environment)
  pinned (some name) reuse actor template key owner = do
    claimed ← claim_name name actor reuse
    pure (some claimed.0, claimed.1)
  pinned none true actor template key owner = do
    existing ← gets (λ w. find template.name key owner w.store)
    pure (none, not_error existing)
  pinned none false actor template key owner = pure (none, none)

  unfoldable create_new :
      TemplateConfig
      → Principal
      → Request
      → ℕ
      → Text
      → List (Text × Text)
      → Option Text
      → Control X Environment
  unfolding expiry_for reserve_generated reserve_named
  create_new template actor req now owner resolved id = do
    expires ← lift (expiry_for now req.ttl template.ttl req.max_ttl)
    backend ← require_backend plane (or_default plane (or_name_of req.backend))
    let image = plane.image_name backend (or_name template.image template.name)
    let key = plane.digest template.name resolved
    inst ←
        reserve_id id template.name
          (candidate template resolved key backend owner image now expires)
          (or_else req.quota plane.default_quota)
    bring_up inst template backend req.authorized_keys

  abbrev handed_back_or_new :
      TemplateConfig
      → Principal
      → Request
      → ℕ
      → Text
      → List (Text × Text)
      → Option Text × Option Environment
      → Control X Environment
  handed_back_or_new template actor req now owner resolved (id, some inst) = hand_back inst template
  handed_back_or_new template actor req now owner resolved (id, none) =
      create_new template actor req now owner resolved id

  unfoldable pub up : TemplateConfig → Principal → Request → ℕ → Control X Environment
  unfolding claim_name hand_back create_new
  up template actor req now = do
    owner ← lift (owner_for actor req.on_behalf_of)
    resolved ← lift (resolve plane.regex template.params req.args)
    choice ← pinned req.name req.reuse actor template (plane.digest template.name resolved) owner
    handed_back_or_new template actor req now owner resolved choice

  -- `refresh_image`
  unfoldable pub refresh_image :
      TemplateConfig → Principal → List (Text × Text) → Option Text → Control X Text
  refresh_image template actor args wanted = do
    lift (require_admin actor)
    backend ← require_backend plane (or_default plane (or_name_of wanted))
    resolved ← lift (resolve plane.regex template.params args)
    let builder = template.name ++ codes "-builder"
    build ← lift (render template.build_hook (values_with plane builder template.name resolved))
    on_outside (
        plane.build_image backend (record {
          id = builder;
          template = template.name;
          image = plane.image_name backend (or_name template.image template.name);
          provision = [];
          build = build;
          authorized_keys = [];
          ssh_ca_pubkey = [];
          ssh_user = codes "dev";
          network_boot = [];
          egress_network = [];
          egress_boot = [];
          egress_ready = none;
        }))
