-- ===== src/Incus/Waiting.antt =====
-- The two loops of incus_api.py end, and give what they wait for where it comes in time.
use cawl.Incus.{
  IncusApiRuntime, Failure, Line, Body, exchange, with_project, Metadata, Calling, Call,
}
use cawl.Incus.Keeping.{info-Kept, attempt-Kept}
use cawl.FakeRuntime.{InstanceInfo}
use native.Mathlib.Nat.{le_trans, le_refl}
use cawl.Prelude.{
  ◌+◌, Text, ℕ, ◌≤◌, List, Option, codes, ◌≡◌, none, ok, true, ◌<◌, arith, err, suc, Bool-cases,
  Result, inl, subst, inr, lt→ltb, ◌⊎◌, zero, refl, continue, false, ltb, ltb→le, caught, pure, ap,
  some, ◌∷◌, [],
}
use cawl.Control.Plane.{InstanceSpec}
use cawl.Incus.Commands.{
  attempt, exec, has_ip, info, is_transient, rest, retry, time, again, min60, logs,
}
use cawl.Incus.Boxes.{poll, wait_for_ip, settled, settled_at, told}

-- What the code relies on of `time.monotonic` and `time.sleep(1)`: a sleep lets a second pass, and
-- requests do not turn the clock back.
pub record KeepsTime {X : Type 0} (incus : IncusApiRuntime X) : Type 0 where
  pub sleeps : (x : X) → incus.now x + 1 ≤ incus.now (incus.sleep x)
  pub sends :
      (method path : Text) (body : Option Body) (x : X)
      → incus.now x ≤ incus.now (incus.send method path body x).1

module _ {X : Type 0} (incus : IncusApiRuntime X) where
  -- Incus reports an address at one of the rounds that begin before the deadline.
  pub data Arrives (deadline : ℕ) (id : Text) : InstanceInfo → Line X → Type 0 where
    arrived : (i : InstanceInfo) (l : Line X) → has_ip i ≡ true → Arrives deadline id i l
    later :
        (i j : InstanceInfo) (l l' : Line X)
        → time incus l < deadline
        → info incus id (rest incus l) ≡ (ok j, l')
        → Arrives deadline id j l'
        → Arrives deadline id i l

  -- Incus takes the command at one of the rounds, and refuses it before for the agent only.
  pub data Accepts (deadline : ℕ) (id : Text) (cmd : List Text) : Line X → Type 0 where
    accepted :
        (m : Metadata) (l l' : Line X)
        → attempt incus id cmd l ≡ (ok m, l')
        → Accepts deadline id cmd l
    refused :
        (e : Failure) (l l' : Line X)
        → attempt incus id cmd l ≡ (err e, l')
        → is_transient e ≡ true
        → time incus l' < deadline
        → Accepts deadline id cmd (rest incus l')
        → Accepts deadline id cmd l

  -- What the callback of the policy answered decides whether the box is returned.
  abbrev pub Answered :
      InstanceInfo → Result Failure (Unit {0}) → Result Failure InstanceInfo → Type 0
  Answered j (ok u) r = r ≡ ok j
  Answered j (err e) r = r ≡ err e

  -- The end of the wait, from the state in which the box had its address: without a policy the box is
  -- returned; with one, the policy's hosts have been registered at the address of the box first.
  abbrev pub Ends :
      Option (List Text) → InstanceInfo → Line X → Result Failure InstanceInfo × Line X → Type 0
  Ends none j m (r, k) = (r ≡ ok j) × (k ≡ m)
  Ends (some hosts) j m (r, k) =
      (ip : Text) × (j.ip ≡ some ip)
      × (k.calls ≡ Call.registered ip ∷ m.calls)
      × (k.outside ≡ (incus.register hosts ip m.outside).1)
      × Answered j (incus.register hosts ip m.outside).0 r

  Answered-continue :
      (j : InstanceInfo) (r : Result Failure (Unit {0})) (k : Line X)
      → Answered j r (continue r (λ u. pure j) k).0
  Answered-continue j (ok u) k = refl
  Answered-continue j (err e) k = refl

  calls-continue :
      (j : InstanceInfo) (r : Result Failure (Unit {0})) (k : Line X)
      → (continue r (λ u. pure {E = Failure} j) k).1 ≡ k
  calls-continue j (ok u) k = refl
  calls-continue j (err e) k = refl

  settled_at-Ends :
      (hosts : List Text) (o : Option Text) (j : InstanceInfo) (m : Line X)
      → j.ip ≡ o
      → has_ip j ≡ true
      → Ends (some hosts) j m (settled_at incus hosts o j m)
  settled_at-Ends hosts none j m held h = cc (rw held at h)
  settled_at-Ends hosts (some []) j m held h = cc (rw held at h)
  settled_at-Ends hosts (some (c ∷ ip)) j m held h =
      let r = (incus.register hosts (c ∷ ip) m.outside).0 in
      let k = (told incus hosts (c ∷ ip) m).1 in
      (
        c ∷ ip,
        held,
        ap (λ (n : Line X). n.calls) (calls-continue j r k),
        ap (λ (n : Line X). n.outside) (calls-continue j r k),
        Answered-continue j r k,
      )

  settled-Ends :
      (ready : Option (List Text)) (j : InstanceInfo) (m : Line X)
      → has_ip j ≡ true
      → Ends ready j m (settled incus ready j m)
  settled-Ends none j m h = (refl, refl)
  settled-Ends (some hosts) j m h = settled_at-Ends hosts j.ip j m refl h

module _ {X : Type 0} (incus : IncusApiRuntime X) (clock : KeepsTime incus) where
  abbrev Later : Line X → Line X → Type 0
  Later l m = time incus l ≤ time incus m

  exchange-Later :
      (method path : Text) (body : Option Body) (l : Line X)
      → Later l (exchange incus method path body l).1
  unfolding exchange
  exchange-Later method path body l = clock.sends method (with_project incus path) body l.outside

  info-Later : (id : Text) (l : Line X) → Later l (info incus id l).1
  info-Later id =
      info-Kept incus Later (λ l. le_refl _) (λ k l m. le_trans)
        (λ path. exchange-Later (codes "GET") path none) id

  rest-Later : (l : Line X) → Later l (rest incus l)
  rest-Later l = omega (arith, clock.sleeps l.outside)

  pub attempt-Later :
      (id : Text) (cmd : List Text) (l : Line X) → Later l (attempt incus id cmd l).1
  attempt-Later id cmd =
      attempt-Kept incus Later (λ l. le_refl _) (λ k l m. le_trans) exchange-Later rest-Later id cmd

  spent :
      (id : Text) (cmd : List Text) (r : Result Failure Metadata) (l l' : Line X)
      → attempt incus id cmd l ≡ (r, l')
      → Later l l'
  spent id cmd r l l' h = subst (λ p. Later l p.1) h (attempt-Later id cmd l)

  -- A round that ends in `l'` leaves less than the fuel of the rest.
  next_round :
      (id : Text) (r : Result Failure InstanceInfo) (l l' : Line X) (fuel deadline : ℕ)
      → info incus id (rest incus l) ≡ (r, l')
      → deadline ≤ time incus l + suc fuel
      → deadline ≤ time incus l' + fuel
  next_round id r l l' fuel deadline reported enough = omega (
    arith,
    clock.sleeps l.outside,
    subst (λ p. Later (rest incus l) p.1) reported (info-Later id (rest incus l)),
  )

  -- An address that Incus reports in time is what the loop returns.
  poll-Arrives :
      (fuel deadline : ℕ) (id : Text) (i : InstanceInfo) (l : Line X)
      → deadline ≤ time incus l + fuel
      → Arrives incus deadline id i l
      → (j : InstanceInfo) × (l' : Line X) × (has_ip j ≡ true)
        × (poll incus fuel deadline id i l ≡ (ok j, l'))
  unfolding poll
  poll-Arrives zero deadline id i l enough (arrived _ _ h) = (i, l, h, refl)
  poll-Arrives zero deadline id i l enough (later _ j _ l' early reported more) =
      absurd (omega arith)
  poll-Arrives (suc fuel) deadline id i l enough (arrived _ _ h) = (i, l, h, rw h)
  poll-Arrives (suc fuel) deadline id i l enough (later _ j _ l' early reported more) =
      elim (Bool-cases (has_ip i)) [
        | inl h ↦ (i, l, h, rw h)
        | inr h ↦
            rw (h, lt→ltb _ _ early, reported)
              (poll-Arrives fuel deadline id j l'
                (next_round id (ok j) l l' fuel deadline reported enough) more)
      ]

  -- How the loop of `_wait_for_ip` may stop.
  abbrev pub Stops : ℕ → Result Failure InstanceInfo → Line X → Type 0
  Stops deadline (ok j) l = (has_ip j ≡ true) ⊎ (deadline ≤ time incus l)
  Stops deadline (err e) l = Unit {0}

  poll_on_ends :
      (fuel deadline : ℕ) (id : Text) (r : Result Failure InstanceInfo) (l : Line X)
      → ((i : InstanceInfo)
          → Stops deadline (poll incus fuel deadline id i l).0 (poll incus fuel deadline id i l).1)
      → Stops deadline
          (continue r (poll incus fuel deadline id) l).0
          (continue r (poll incus fuel deadline id) l).1
  poll_on_ends fuel deadline id (ok i) l ends = ends i
  poll_on_ends fuel deadline id (err e) l ends = tt

  -- With a round of fuel for every second left, the loop stops at an address or at the deadline.
  pub poll_ends :
      (fuel deadline : ℕ) (id : Text) (i : InstanceInfo) (l : Line X)
      → deadline ≤ time incus l + fuel
      → Stops deadline (poll incus fuel deadline id i l).0 (poll incus fuel deadline id i l).1
  unfolding poll
  poll_ends zero deadline id i l enough = inr (omega arith)
  poll_ends (suc fuel) deadline id i l enough = elim (Bool-cases (has_ip i)) [
    | inl h ↦ rw h (inl h)
    | inr h ↦ elim (Bool-cases (ltb (time incus l) deadline)) [
      | inr over ↦ rw (h, over) (inr (ltb→le _ _ over))
      | inl early ↦
          rw (h, early)
            (poll_on_ends fuel deadline id (info incus id (rest incus l)).0
              (info incus id (rest incus l)).1
              (λ k.
                poll_ends fuel deadline id k (info incus id (rest incus l)).1
                  (next_round id (info incus id (rest incus l)).0 l _ fuel deadline refl enough)))
    ]
  ]

  retry-Accepts :
      (fuel deadline : ℕ) (id : Text) (cmd : List Text) (l : Line X)
      → deadline ≤ time incus l + fuel
      → Accepts incus deadline id cmd l
      → (m : Metadata) × (l' : Line X) × (retry incus fuel deadline id cmd l ≡ (ok m, l'))
  unfolding retry
  retry-Accepts zero deadline id cmd l enough (accepted m _ l' h) = (m, l', h)
  retry-Accepts zero deadline id cmd l enough (refused e _ l' h t early more) =
      absurd (omega (arith, spent id cmd (err e) l l' h))
  retry-Accepts (suc fuel) deadline id cmd l enough (accepted m _ l' h) = (m, l', rw h)
  retry-Accepts (suc fuel) deadline id cmd l enough (refused e _ l' h t early more) =
      rw (h, t, lt→ltb _ _ early)
        (retry-Accepts fuel deadline id cmd (rest incus l')
          (omega (arith, spent id cmd (err e) l l' h, clock.sleeps l'.outside)) more)

  -- How the loop of `exec` may raise.
  abbrev pub Raises : ℕ → Result Failure Metadata → Line X → Type 0
  Raises deadline (ok m) l = Unit {0}
  Raises deadline (err e) l = (is_transient e ≡ false) ⊎ (deadline ≤ time incus l)

  late-Raises :
      (deadline : ℕ) (r : Result Failure Metadata) (l : Line X)
      → deadline ≤ time incus l
      → Raises deadline r l
  late-Raises deadline (ok m) l h = tt
  late-Raises deadline (err e) l h = inr h

  caught_ends :
      (deadline : ℕ) (next_try : Calling incus Metadata) (r : Result Failure Metadata) (l : Line X)
      → Raises deadline (next_try (rest incus l)).0 (next_try (rest incus l)).1
      → Raises deadline
          (caught r pure (again incus next_try deadline) l).0
          (caught r pure (again incus next_try deadline) l).1
  caught_ends deadline next_try (ok m) l ends = tt
  caught_ends deadline next_try (err e) l ends = elim (Bool-cases (is_transient e)) [
    | inr h ↦ rw (h, h) (inl refl)
    | inl h ↦ elim (Bool-cases (ltb (time incus l) deadline)) [
      | inl early ↦ rw (h, early) ends
      | inr over ↦ rw (h, over) (inr (ltb→le _ _ over))
    ]
  ]

  -- It gives up at once where the error is another, and else no earlier than the deadline.
  pub retry_ends :
      (fuel deadline : ℕ) (id : Text) (cmd : List Text) (l : Line X)
      → deadline ≤ time incus l + fuel
      → Raises deadline
          (retry incus fuel deadline id cmd l).0
          (retry incus fuel deadline id cmd l).1
  unfolding retry
  retry_ends zero deadline id cmd l enough =
      late-Raises deadline (attempt incus id cmd l).0 (attempt incus id cmd l).1
        (omega (arith, attempt-Later id cmd l))
  retry_ends (suc fuel) deadline id cmd l enough =
      caught_ends deadline (retry incus fuel deadline id cmd) (attempt incus id cmd l).0
        (attempt incus id cmd l).1
        (retry_ends fuel deadline id cmd (rest incus (attempt incus id cmd l).1)
          (omega (arith, attempt-Later id cmd l, clock.sleeps (attempt incus id cmd l).1.outside)))

  -- Where Incus reports an address in time, waiting ends with a box that has one: without a policy
  -- the box is returned, and with one its hosts are registered at that address, and the box is
  -- returned where the callback returns.
  pub wait_for_ip-Arrives :
      (spec : InstanceSpec) (i : InstanceInfo) (l k : Line X)
      → info incus spec.id l ≡ (ok i, k)
      → Arrives incus (time incus k + min60 incus.timeout) spec.id i k
      → (j : InstanceInfo) × (m : Line X) × (has_ip j ≡ true)
        × Ends incus spec.egress_ready j m (wait_for_ip incus spec l)
  unfolding wait_for_ip
  wait_for_ip-Arrives spec i l k first arrives =
      let deadline = time incus k + min60 incus.timeout in
      let (j, m, there, polled) =
        poll-Arrives (suc (min60 incus.timeout)) deadline spec.id i k (omega arith) arrives in
      (j, m, there, rw (first, polled) (settled-Ends incus spec.egress_ready j m there))

  -- A command that Incus takes before the deadline, after refusals for the agent of the box only,
  -- is run, and its logs are fetched.
  pub exec-Accepts :
      (id : Text) (cmd : List Text) (l : Line X)
      → Accepts incus (time incus l + min60 incus.timeout) id cmd l
      → (m : Metadata) × (k : Line X) × (exec incus id cmd l ≡ logs incus m k)
  unfolding exec
  exec-Accepts id cmd l accepts =
      let (m, k, tried) =
        retry-Accepts (suc (min60 incus.timeout)) (time incus l + min60 incus.timeout) id cmd l
          (omega arith) accepts in
      (m, k, rw tried)
