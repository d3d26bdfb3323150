-- ===== src/Incus/Registration.antt =====
-- Under an egress policy a box runs nothing for the daemon before its address is registered.
use cawl.Incus.Boxes.{create, start, boot, provision}
use cawl.Incus.{
  IncusApiRuntime, Failure, Line, Body, exchange, Calling, Call, request, slept, registered,
  command, op,
}
use cawl.FakeRuntime.{InstanceInfo}
use cawl.Prelude.{
  Bool, List, Result, Text, inl, Option, any, codes, continue, ok, some, true, ◌∷◌, err, false, inr,
  none, pure, ◌≡◌, arith, ◌⊎◌, [], refl, suc, ◌+◌, ◌>>=◌, ◌>>◌, >>=-Keeps, ℕ,
}
use cawl.Control.Plane.{InstanceSpec}
use cawl.Incus.Keeping.{info-Kept, poll-Kept, boot-Kept, op-Kept, provision-Kept}
use cawl.Incus.Boxes.{put_state, settled_at, wait_for_ip, new_instance, starting, poll, settled}
use cawl.Incus.Commands.{rest, info, time, min60}

-- A request that runs a command in a box.
abbrev pub is_script : Call → Bool
is_script (request method path (some (command cmd))) = true
is_script _ = false

abbrev pub is_registration : Call → Bool
is_registration (registered ip) = true
is_registration _ = false

-- Among these calls, the last one first, each script comes after a registration.
abbrev pub Ordered : List Call → Type 0
Ordered [] = Unit {0}
Ordered (c ∷ older) = ((is_script c ≡ false) ⊎ (any is_registration older ≡ true)) × Ordered older

-- And there was one.
abbrev Registered : List Call → Type 0
Registered calls = (any is_registration calls ≡ true) × Ordered calls

module _ {X : Type 0} (incus : IncusApiRuntime X) where
  abbrev KeepsOrder : Line X → Line X → Type 0
  KeepsOrder l m = Ordered l.calls → Ordered m.calls

  abbrev KeepsRegistered : Line X → Line X → Type 0
  KeepsRegistered l m = Registered l.calls → Registered m.calls

  quiet-Ordered :
      (method path : Text) (body : Option Body) (l : Line X)
      → is_script (request method path body) ≡ false
      → KeepsOrder l (exchange incus method path body l).1
  unfolding exchange
  quiet-Ordered method path body l quiet o = (inl quiet, o)

  op-Ordered :
      (method path : Text) (body : Option Body)
      → is_script (request method path body) ≡ false
      → (l : Line X) → KeepsOrder l (op incus method path body l).1
  op-Ordered method path body quiet =
      op-Kept incus KeepsOrder (λ l o. o) (λ k l m p q o. q (p o))
        (λ p l. quiet-Ordered (codes "GET") p none l refl) method path body
        (λ l. quiet-Ordered method path body l quiet)

  any_more :
      (c : Call) (calls : List Call)
      → any is_registration calls ≡ true
      → any is_registration (c ∷ calls) ≡ true
  any_more c calls h = ground arith

  sends-Registered :
      (method path : Text) (body : Option Body) (l : Line X)
      → KeepsRegistered l (exchange incus method path body l).1
  unfolding exchange
  sends-Registered method path body l (h, o) =
      (any_more (request method path body) l.calls h, (inr h, o))

  rest-Registered : (l : Line X) → KeepsRegistered l (rest incus l)
  rest-Registered l (h, o) = (any_more slept l.calls h, (inl refl, o))

  rest-Ordered : (l : Line X) → KeepsOrder l (rest incus l)
  rest-Ordered l o = (inl refl, o)

  -- Registered where the call returns, and in order where it raises.
  abbrev Guarded : {A : Type 0} → Result Failure A → Line X → Type 0
  Guarded (ok a) l = Registered l.calls
  Guarded (err e) l = Ordered l.calls

  continue-Guarded :
      {A B : Type 0} (r : Result Failure A) (f : A → Calling incus B) (l : Line X)
      → Ordered l.calls
      → ((a : A) → Guarded (f a l).0 (f a l).1)
      → Guarded (continue r f l).0 (continue r f l).1
  continue-Guarded (ok a) f l o h = h a
  continue-Guarded (err e) f l o h = o

  continue-Ordered :
      {A B : Type 0} (r : Result Failure A) (f : A → Calling incus B) (l : Line X)
      → Guarded r l
      → ((a : A) → KeepsRegistered l (f a l).1)
      → Ordered (continue r f l).1.calls
  continue-Ordered (ok a) f l g h = (h a g).1
  continue-Ordered (err e) f l g h = g

  told-Guarded :
      (i : InstanceInfo) (r : Result Failure (Unit {0})) (l : Line X)
      → Registered l.calls
      → Guarded (continue r (λ u. pure i) l).0 (continue r (λ u. pure i) l).1
  told-Guarded i (ok a) l h = h
  told-Guarded i (err e) l h = h.1

  settled_at-Guarded :
      (hosts : List Text) (ip : Option Text) (i : InstanceInfo) (l : Line X)
      → Ordered l.calls
      → Guarded (settled_at incus hosts ip i l).0 (settled_at incus hosts ip i l).1
  settled_at-Guarded hosts none i l o = o
  settled_at-Guarded hosts (some []) i l o = o
  settled_at-Guarded hosts (some (c ∷ ip)) i l o =
      told-Guarded i (incus.register hosts (c ∷ ip) l.outside).0 _ (refl, (inl refl, o))

  wait_for_ip-Guarded :
      (spec : InstanceSpec) (hosts : List Text) (l : Line X)
      → spec.egress_ready ≡ some hosts
      → Ordered l.calls
      → Guarded (wait_for_ip incus spec l).0 (wait_for_ip incus spec l).1
  unfolding wait_for_ip
  wait_for_ip-Guarded spec hosts l ready o = rw ready (
      continue-Guarded (info incus spec.id l).0 _ (info incus spec.id l).1 informed (λ i.
        continue-Guarded
          (poll incus (suc (min60 incus.timeout)) (deadline + min60 incus.timeout) spec.id i
            (info incus spec.id l).1).0
          (settled incus (some hosts))
          (poll incus (suc (min60 incus.timeout)) (deadline + min60 incus.timeout) spec.id i
            (info incus spec.id l).1).1
          (polled i) (λ j. settled_at-Guarded hosts j.ip j _ (polled i))))
    where
      informed : Ordered (info incus spec.id l).1.calls
      informed =
          info-Kept incus KeepsOrder (λ l o. o) (λ k l m p q o. q (p o))
            (λ p l. quiet-Ordered (codes "GET") p none l refl) spec.id l o

      deadline : ℕ
      deadline = time incus (info incus spec.id l).1

      polled :
          (i : InstanceInfo)
          → Ordered
              (poll incus
                (suc (min60 incus.timeout))
                (deadline + min60 incus.timeout)
                spec.id
                i
                (info incus spec.id l).1).1.calls
      polled i =
          poll-Kept incus KeepsOrder (λ l o. o) (λ k l m p q o. q (p o))
            (λ p l. quiet-Ordered (codes "GET") p none l refl) rest-Ordered
            (suc (min60 incus.timeout)) (deadline + min60 incus.timeout) spec.id i
            (info incus spec.id l).1 informed

  after-Ordered :
      {A B : Type 0} (r : Result Failure A) (f : A → Calling incus B) (l : Line X)
      → Ordered l.calls
      → ((a : A) → Ordered (f a l).1.calls)
      → Ordered (continue r f l).1.calls
  after-Ordered (ok a) f l o h = h a
  after-Ordered (err e) f l o h = o

  boot-Registered : (spec : InstanceSpec) (l : Line X) → KeepsRegistered l (boot incus spec l).1
  boot-Registered spec =
      boot-Kept incus KeepsRegistered (λ l o. o) (λ k l m p q o. q (p o)) sends-Registered
        rest-Registered spec

  provision-Registered :
      (spec : InstanceSpec) (l : Line X) → KeepsRegistered l (provision incus spec l).1
  provision-Registered spec =
      provision-Kept incus KeepsRegistered (λ l o. o) (λ k l m p q o. q (p o)) sends-Registered
        rest-Registered spec

  -- What follows `wait_for_ip` in both operations.
  waited-Ordered :
      (spec : InstanceSpec) (hosts : List Text) (prepare : Calling incus (Unit {0})) (l : Line X)
      → spec.egress_ready ≡ some hosts
      → Ordered l.calls
      → ((m : Line X) → KeepsRegistered m (prepare m).1)
      → Ordered ((wait_for_ip incus spec >>= λ i. prepare >> pure i) l).1.calls
  waited-Ordered spec hosts prepare l ready o keeps =
      continue-Ordered (wait_for_ip incus spec l).0 _ _ (wait_for_ip-Guarded spec hosts l ready o)
        (λ i. >>=-Keeps KeepsRegistered (λ k l m p q o. q (p o)) prepare _ keeps (λ u m h. h) _)

  module _ (spec : InstanceSpec) (hosts : List Text) (l : Line X)
      (ready : spec.egress_ready ≡ some hosts) (o : Ordered l.calls) where
    started-Ordered :
        (prepare : Calling incus (Unit {0})) (k : Line X)
        → Ordered k.calls
        → ((m : Line X) → KeepsRegistered m (prepare m).1)
        → Ordered
            ((put_state incus spec.id (starting incus)
                >> (wait_for_ip incus spec >>= λ i. prepare >> pure i))
              k).1.calls
    started-Ordered prepare k p keeps =
        after-Ordered (put_state incus spec.id (starting incus) k).0 _ _ put
          (λ m. waited-Ordered spec hosts prepare _ ready put keeps)
      where
        put : Ordered (put_state incus spec.id (starting incus) k).1.calls
        put = op-Ordered (codes "PUT") _ (some (starting incus)) refl k p

    -- A start under an egress policy runs no script in the box before it has registered an address.
    pub start-Ordered : Ordered (start incus spec l).1.calls
    unfolding start
    start-Ordered = started-Ordered (boot incus spec) l o (boot-Registered spec)

    -- Nor does a create.
    pub create-Ordered : Ordered (create incus spec l).1.calls
    unfolding create
    create-Ordered =
        after-Ordered
          (op incus (codes "POST") (codes "/1.0/instances") (some (new_instance incus spec)) l).0 _
          _ made (λ m. started-Ordered (provision incus spec) _ made (provision-Registered spec))
      where
        made :
            Ordered
              (op incus
                (codes "POST")
                (codes "/1.0/instances")
                (some (new_instance incus spec))
                l).1.calls
        made =
            op-Ordered (codes "POST") (codes "/1.0/instances") (some (new_instance incus spec)) refl
              l o
