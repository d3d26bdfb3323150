-- ===== src/Incus/Keeping.antt =====
-- The operations of incus_api.py keep what each of the calls that they make keeps.
use cawl.Incus.{
  IncusApiRuntime, Line, Calling, ask, Body, exchange, parse, op, Document, waited, succeeded, sync,
  api, other, Failure, Metadata, command,
}
use cawl.FakeRuntime.{InstanceInfo}
use cawl.Prelude.{
  Bool, Keeps, Text, if◌then◌else◌, Option, >>=-Keeps, try-Keeps, lift, leb, ◌||◌, ◌==◌, codes,
  true, false, ℕ, suc, zero, List, none, Bool-cases, inl, inr, not, ltb, ◌&&◌, some, ◌∷◌, [], ◌+◌,
  pure, ◌>>◌, ◌++◌,
}
use cawl.Control.Plane.{InstanceSpec}
use cawl.Sshd.{trust_script}
use cawl.Incus.Commands.{
  info, rest, again, attempt, exec, fetch_log, handled, logs, retry, sh, sh_unless_empty, stepped,
  failed_with, has_ip, instance_path, is_transient, result, run, min60, time,
}
use cawl.Incus.Boxes.{
  boot, docked, poll, provision, seeded, joined, ready_loop, seed_keys, trusting, connected, hooked,
}

module _ {X : Type 0} (incus : IncusApiRuntime X) (R : Line X → Line X → Type 0)
    (same : (l : Line X) → R l l) (next : (k l m : Line X) → R k l → R l m → R k m) where
  abbrev pub Kept : {A : Type 0} → Calling incus A → Type 0
  Kept = Keeps R next

  if-Kept :
      {A : Type 0} (b : Bool) (m n : Calling incus A) → Kept m → Kept n → Kept (if b then m else n)
  if-Kept true m n p q = p
  if-Kept false m n p q = q

  pub >>-Kept :
      {A B : Type 0} (m : Calling incus A) (n : Calling incus B) → Kept m → Kept n → Kept (m >> n)
  >>-Kept m n p q = >>=-Keeps R next m (λ _. n) p (λ _. q)

  pub ask-Kept :
      (method path : Text) (body : Option Body)
      → Kept (exchange incus method path body)
      → Kept (ask incus method path body)
  unfolding ask
  ask-Kept method path body sent =
      >>=-Keeps R next (exchange incus method path body) _ sent λ answer.
        >>=-Keeps R next (lift (parse incus answer.1)) _ same
          λ doc. if-Kept (leb 400 answer.0 || (doc.kind == codes "error")) _ _ same same

  module _ (gets-Kept : (path : Text) → Kept (exchange incus (codes "GET") path none)) where
    pub op-Kept :
        (method path : Text) (body : Option Body)
        → Kept (exchange incus method path body)
        → Kept (op incus method path body)
    unfolding op
    op-Kept method path body sent =
        >>=-Keeps R next (ask incus method path body) _ (ask-Kept method path body sent)
          λ doc. if-Kept (doc.kind == codes "async") _ _ (waited-Kept doc) same
      where
        waited-Kept : (doc : Document) → Kept (waited incus doc)
        waited-Kept doc =
            >>=-Keeps R next (ask incus (codes "GET") _ none) _
              (ask-Kept (codes "GET") _ none (gets-Kept _))
              λ reply. if-Kept (succeeded reply.metadata.status_code) _ _ same same

    sync-Kept : (path : Text) → Kept (sync incus (codes "GET") path none)
    unfolding sync
    sync-Kept path =
        >>=-Keeps R next (ask incus (codes "GET") path none) _
          (ask-Kept (codes "GET") path none (gets-Kept path)) λ doc. same

    pub info-Kept : (id : Text) → Kept (info incus id)
    unfolding info
    info-Kept id =
        try-Keeps R next (sync incus (codes "GET") (instance_path id (codes "/state")) none) _ _
          (sync-Kept (instance_path id (codes "/state"))) (λ m. same) handled-Kept
      where
        handled-Kept : (e : Failure) → Kept (handled incus e)
        handled-Kept (api message status) = same
        handled-Kept (other message) = same

    module _ (rest-Kept : (l : Line X) → R l (rest incus l)) where
      pub poll-Kept :
          (fuel deadline : ℕ) (id : Text) (i : InstanceInfo) → Kept (poll incus fuel deadline id i)
      unfolding poll
      poll-Kept zero deadline id i l = same l
      poll-Kept (suc fuel) deadline id i l =
          elim (Bool-cases (not (has_ip i) && ltb (time incus l) deadline)) [
            | inl more ↦ rw more (
                next l (rest incus l) _ (rest-Kept l) (
                  >>=-Keeps R next (info incus id) _ (info-Kept id) (poll-Kept fuel deadline id)
                    (rest incus l)))
            | inr done ↦ rw done (same l)
          ]

  module _
      (sends-Kept : (method path : Text) (body : Option Body)
        → Kept (exchange incus method path body))
      (rest-Kept : (l : Line X) → R l (rest incus l)) where
    all-Kept : (method path : Text) (body : Option Body) → Kept (op incus method path body)
    all-Kept method path body =
        op-Kept (λ p. sends-Kept (codes "GET") p none) method path body
          (sends-Kept method path body)

    pub attempt-Kept : (id : Text) (cmd : List Text) → Kept (attempt incus id cmd)
    unfolding attempt
    attempt-Kept id cmd =
        all-Kept (codes "POST") (instance_path id (codes "/exec")) (some (command cmd))

    again-Kept :
        (next_try : Calling incus Metadata) (deadline : ℕ)
        → Kept next_try
        → (e : Failure) → Kept (again incus next_try deadline e)
    again-Kept next_try deadline h e l =
        elim (Bool-cases (is_transient e && ltb (time incus l) deadline)) [
          | inl more ↦ rw more (next l (rest incus l) _ (rest-Kept l) (h (rest incus l)))
          | inr done ↦ rw done (same l)
        ]

    retry-Kept :
        (fuel deadline : ℕ) (id : Text) (cmd : List Text) → Kept (retry incus fuel deadline id cmd)
    unfolding retry
    retry-Kept zero deadline id cmd = attempt-Kept id cmd
    retry-Kept (suc fuel) deadline id cmd =
        try-Keeps R next (attempt incus id cmd) pure
          (again incus (retry incus fuel deadline id cmd) deadline) (attempt-Kept id cmd)
          (λ m. same)
          (again-Kept (retry incus fuel deadline id cmd) deadline (retry-Kept fuel deadline id cmd))

    fetch_log-Kept : (path : Option Text) → Kept (fetch_log incus path)
    unfolding fetch_log
    fetch_log-Kept none = same
    fetch_log-Kept (some []) = same
    fetch_log-Kept (some (c ∷ path)) =
        >>=-Keeps R next (exchange incus (codes "GET") (c ∷ path) none) _ (sends-Kept _ _ _)
          λ answer.
            if-Kept (ltb answer.0 400) _ _
              (>>=-Keeps R next (exchange incus (codes "DELETE") (c ∷ path) none) _
                (sends-Kept _ _ _) (λ r. same))
              same

    logs-Kept : (m : Metadata) → Kept (logs incus m)
    unfolding logs
    logs-Kept m = >>=-Keeps R next (fetch_log incus m.output) _ (fetch_log-Kept m.output) λ out.
        >>=-Keeps R next (fetch_log incus m.errors) (λ errors. pure (result incus m out errors))
          (fetch_log-Kept m.errors) λ errors. same

    pub exec-Kept : (id : Text) (cmd : List Text) → Kept (exec incus id cmd)
    unfolding exec
    exec-Kept id cmd l = run-Kept (time incus l + min60 incus.timeout) l
      where
        run-Kept : (deadline : ℕ) → Kept (run incus id cmd deadline)
        run-Kept deadline =
            >>=-Keeps R next (retry incus (suc (min60 incus.timeout)) deadline id cmd) (logs incus)
              (retry-Kept (suc (min60 incus.timeout)) deadline id cmd) logs-Kept

    stepped-Kept : (stderr : Text) (code : Option Text) → Kept (stepped incus stderr code)
    stepped-Kept stderr none = same
    stepped-Kept stderr (some code) = same

    sh-Kept : (id script : Text) → Kept (sh incus id script)
    unfolding sh
    sh-Kept id script =
        >>=-Keeps R next (exec incus id _) _ (exec-Kept id _)
          λ r. stepped-Kept r.stderr (failed_with r.exit_code)

    sh_unless_empty-Kept :
        (id : Text) (f : Text → Text) (script : Text) → Kept (sh_unless_empty incus id f script)
    sh_unless_empty-Kept id f [] = same
    sh_unless_empty-Kept id f (c ∷ script) = sh-Kept id (f (c ∷ script))

    seeded-Kept : (id : Text) (keys : List Text) → Kept (seeded incus id keys)
    seeded-Kept id [] = same
    seeded-Kept id (k ∷ keys) = sh-Kept id (seed_keys (k ∷ keys))

    docked-Kept : (spec : InstanceSpec) → Kept (docked incus spec)
    docked-Kept spec =
        >>-Kept (sh incus spec.id ready_loop) (hooked incus spec) (sh-Kept spec.id ready_loop)
          (sh_unless_empty-Kept spec.id (λ s. codes "set -e\n" ++ s) spec.provision)

    pub boot-Kept : (spec : InstanceSpec) → Kept (boot incus spec)
    unfolding boot
    boot-Kept spec =
        >>-Kept (joined incus spec) (connected incus spec >> docked incus spec)
          (sh_unless_empty-Kept spec.id (λ s. s) spec.network_boot)
          (>>-Kept (connected incus spec) (docked incus spec)
            (sh_unless_empty-Kept spec.id (λ s. s) spec.egress_boot) (docked-Kept spec))

    pub provision-Kept : (spec : InstanceSpec) → Kept (provision incus spec)
    unfolding provision
    provision-Kept spec =
        >>-Kept (seeded incus spec.id spec.authorized_keys) (trusting incus spec >> boot incus spec)
          (seeded-Kept spec.id spec.authorized_keys)
          (>>-Kept (trusting incus spec) (boot incus spec)
            (sh_unless_empty-Kept spec.id (λ ca. trust_script ca spec.id spec.ssh_user)
              spec.ssh_ca_pubkey)
            (boot-Kept spec))
