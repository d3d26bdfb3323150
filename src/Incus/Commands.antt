-- ===== src/Incus/Commands.antt =====
-- Commands in a box, of incus_api.py: the loop that waits for the agent of the box, the logs of a
-- command, and what Incus reports of a box.
-- `ExecResult`, with none for the code's -1, where Incus gives no return code.
use cawl.Incus.{
  Failure, IncusApiRuntime, Calling, Line, Metadata, exchange, op, sync, Call, api, command, other,
}
use cawl.FakeRuntime.{InstanceInfo}
use cawl.Prelude.{
  Option, Text, ℕ, Bool, List, codes, if◌then◌else◌, none, some, ◌&&◌, ◌++◌, false, ltb, pure, suc,
  ◌>>=◌, ◌>>◌, [], gets, raise, try, ◌||◌, ◌∷◌, ◌+◌, true, zero,
}
use cawl.Incus.Addresses.{first_ipv4}
use cawl.Naming.Labels.{starts_with}
use cawl.Ingress.{show}

pub record ExecResult : Type 0 where
  pub exit_code : Option ℕ
  pub stdout : Text
  pub stderr : Text

-- `part in text`
abbrev pub includes : Text → Text → Bool
includes part [] = starts_with part []
includes part (c ∷ s) = starts_with part (c ∷ s) || includes part s

abbrev pub is_transient : Failure → Bool
is_transient (other message) = false
is_transient (api message status) =
    includes (codes "VM agent isn't currently running") message
    || includes (codes "Instance is not running") message

abbrev pub instance_path : Text → Text → Text
instance_path id rest = codes "/1.0/instances/" ++ (id ++ rest)

abbrev pub min60 : ℕ → ℕ
min60 n = if ltb 60 n then 60 else n

-- `bool(info.ip)`
abbrev pub has_ip : InstanceInfo → Bool
has_ip i = elim i.ip [ none ↦ false | some [] ↦ false | some (c ∷ s) ↦ true ]

abbrev unknown : InstanceInfo
unknown = record { ip = none; status = codes "unknown" }

-- The code of a command that failed; none is -1.
abbrev pub failed_with : Option ℕ → Option Text
failed_with none = some (codes "-1")
failed_with (some zero) = none
failed_with (some (suc n)) = some (show (suc n))

module _ {X : Type 0} (incus : IncusApiRuntime X) where
  -- `time.sleep(1)`
  abbrev pub rest : Line X → Line X
  rest l = record l { outside = incus.sleep l.outside; calls = Call.slept ∷ l.calls }

  abbrev pub time : Line X → ℕ
  time l = incus.now l.outside

  -- The record is removed once it is read.
  abbrev logged : Text → ℕ → Text → Calling incus Text
  logged path status payload =
      if ltb status 400 then exchange incus (codes "DELETE") path none >> pure payload else pure []

  -- `_fetch_log`
  unfoldable pub fetch_log : Option Text → Calling incus Text
  unfolding exchange
  fetch_log none = pure []
  fetch_log (some []) = pure []
  fetch_log (some (c ∷ path)) = do
    answer ← exchange incus (codes "GET") (c ∷ path) none
    logged (c ∷ path) answer.0 answer.1

  abbrev pub handled : Failure → Calling incus InstanceInfo
  handled (api message status) = pure unknown
  handled (other message) = raise (other message)

  unfoldable pub info : Text → Calling incus InstanceInfo
  unfolding sync first_ipv4
  info id =
      try (sync incus (codes "GET") (instance_path id (codes "/state")) none)
        (λ m. pure (record {
          ip = first_ipv4 m.network;
          status = elim m.status [ [] ↦ codes "unknown" | c ∷ s ↦ c ∷ s ];
        }))
        handled

  -- One request for a command.
  unfoldable pub attempt : Text → List Text → Calling incus Metadata
  unfolding op
  attempt id cmd = op incus (codes "POST") (instance_path id (codes "/exec")) (some (command cmd))

  abbrev pub again : Calling incus Metadata → ℕ → Failure → Calling incus Metadata
  again next_try deadline e l =
      if is_transient e && ltb (time l) deadline then next_try (rest l) else raise e l

  -- The loop of `exec`: again while the agent is not up and the deadline has not come.
  unfoldable pub retry : ℕ → ℕ → Text → List Text → Calling incus Metadata
  unfolding attempt
  retry zero deadline id cmd = attempt id cmd
  retry (suc fuel) deadline id cmd =
      let next_try = retry fuel deadline id cmd in
      try (attempt id cmd) pure (again next_try deadline)

  abbrev pub result : Metadata → Text → Text → ExecResult
  result m out errors = record { exit_code = m.exit_code; stdout = out; stderr = errors }

  unfoldable pub logs : Metadata → Calling incus ExecResult
  unfolding fetch_log
  logs m = do out ← fetch_log m.output; errors ← fetch_log m.errors; pure (result m out errors)

  abbrev pub run : Text → List Text → ℕ → Calling incus ExecResult
  run id cmd deadline = do m ← retry (suc (min60 incus.timeout)) deadline id cmd; logs m

  unfoldable pub exec : Text → List Text → Calling incus ExecResult
  unfolding retry logs
  exec id cmd = do deadline ← gets (λ l. time l + min60 incus.timeout); run id cmd deadline

  abbrev pub stepped : Text → Option Text → Calling incus (Unit {0})
  stepped stderr none = pure tt
  stepped stderr (some code) =
      raise (api (codes "provision step failed (" ++ (code ++ (codes "): " ++ stderr))) none)

  -- `_sh`
  unfoldable pub sh : Text → Text → Calling incus (Unit {0})
  unfolding exec
  sh id script = do
    r ← exec id (codes "sh" ∷ codes "-lc" ∷ script ∷ [])
    stepped r.stderr (failed_with r.exit_code)

  -- `if script: self._sh(id, f(script))`
  abbrev pub sh_unless_empty : Text → (Text → Text) → Text → Calling incus (Unit {0})
  sh_unless_empty id f [] = pure tt
  sh_unless_empty id f (c ∷ script) = sh id (f (c ∷ script))
