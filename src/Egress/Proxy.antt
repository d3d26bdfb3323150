-- ===== src/Egress/Proxy.antt =====
-- egress_proxy.py: the policies that the proxy reads, and what it decides on a connection.
use cawl.Prelude.{
  lookup, Text, ℕ, Bool, Option, ◌∷◌, ◌==◌, List, Result, [], false, nat_beq, codes, some, ◌≡◌,
  ◌&&◌, err, if◌then◌else◌, none, ok, contains, ◌+◌, true, length, ltb, Action, Bool-cases,
  Result-cases, inl, inr, ◌>>=◌, Option-cases, lift, ◌>>◌, gets, ap, sym, ◌∙◌,
}
use cawl.Egress.Policies.{Document, Policies, is_ip, read, Entry}
use cawl.Errors.{Error, value_error, no_text}
use cawl.Egress.Hosts.{normalize_host, split_on}

-- `CONNECT` is the only method and 443 the only port.
abbrev is_connect : Text → Text → Bool
is_connect method version = method == codes "CONNECT" && version == codes "HTTP/1.1"

abbrev pub crlf : Text
crlf = b'\r' ∷ b'\n' ∷ []

-- `SourcePolicyStore`: the policies in force, and the time stamp of the file they come from.
pub record Source : Type 0 where
  pub stamp : Option ℕ
  pub policies : Policies

module _ (ip_address : Text → Option Text) (ip_network : Text → Option (Text × Bool))
    (network_of : Text → Text) where
  abbrev host : Text → Result Error Text
  host raw = normalize_host (is_ip ip_address ip_network network_of) raw

  abbrev authority_of : Text → List Text → Result Error Text
  authority_of value (name ∷ port ∷ []) =
      if port == codes "443" then host name else err (value_error value)
  authority_of value _ = err (value_error value)

  -- The name of a destination; the port is 443.
  unfoldable pub authority : Text → Result Error Text
  authority value = authority_of value (split_on b':' value)

  -- An exception is logged and what is in force stays, save the AttributeError of an item that is
  -- no text, which no clause catches.
  abbrev adopt : ℕ → Result Error Policies → Action Source Error (Unit {0})
  adopt stamp (ok held) s = (ok tt, record { stamp = some stamp; policies = held })
  adopt stamp (err no_text) s = (err no_text, s)
  adopt stamp (err _) s = (ok tt, s)

  abbrev same_stamp : ℕ → Option ℕ → Bool
  same_stamp n none = false
  same_stamp n (some m) = nat_beq n m

  -- `_reload`, for a file with its time stamp.
  unfoldable pub reload : Option (ℕ × Document) → Action Source Error (Unit {0})
  reload none s = (ok tt, s)
  reload (some (stamp, doc)) s =
      if same_stamp stamp s.stamp
      then (ok tt, s)
      else adopt stamp (read ip_address ip_network network_of (some doc)) s

  abbrev hosts_of : Option Entry → Option (List Text)
  hosts_of none = none
  hosts_of (some e) = some e.hosts

  abbrev hosts_at : Option Text → Source → Option (List Text)
  hosts_at none s = none
  hosts_at (some ip) s = hosts_of (lookup ip s.policies)

  unfoldable pub hosts_for : Text → Source → Option (List Text)
  hosts_for source s = hosts_at (ip_address source) s

  -- `_headers`: lines up to an empty one, 32 KiB in all at most; the stream may end before.
  unfoldable pub headers : ℕ → List Text → Result Error (Unit {0})
  headers size [] = err (value_error (codes "incomplete"))
  headers size (line ∷ lines) =
      let rest = headers (size + length line) lines in
      if ltb 32768 (size + length line)
      then err (value_error (codes "headers"))
      else if line == crlf
      then ok tt
      else rest

  abbrev permitted : Text → Option (List Text) → Result Error Text
  permitted name none = err (value_error (codes "source"))
  permitted name (some allowed) = if contains allowed name then ok name else err (value_error name)

  abbrev after_headers : Text → Result Error (Unit {0}) → Result Error Text
  after_headers name (ok u) = ok name
  after_headers name (err e) = err e

  abbrev after_authority : Result Error Text → List Text → Result Error Text
  after_authority (ok name) lines = after_headers name (headers 0 lines)
  after_authority (err e) lines = err e

  abbrev request : List Text → List Text → Result Error Text
  request (method ∷ target ∷ version ∷ []) lines =
      if is_connect method version
      then after_authority (authority target) lines
      else err (value_error method)
  request _ lines = err (value_error (codes "request"))

  -- The name that a request asks for, by its first line and the lines after it.
  unfoldable pub requested : Text → List Text → Result Error Text
  unfolding authority headers
  requested line lines = request (split_on b' ' line) lines

  -- `handle` up to the connection: the name to connect to, or the reason for the refusal.
  unfoldable pub decide : Option (ℕ × Document) → Text → Text → List Text → Action Source Error Text
  unfolding reload hosts_for requested
  decide file source line lines = do
    name ← lift (requested line lines)
    reload file
    allowed ← gets (hosts_for source)
    lift (permitted name allowed)

  -- The proxy connects only to a name that the policy in force lists for the address of the caller,
  -- which is then registered.
  pub decide_permits :
      (file : Option (ℕ × Document)) (source line name : Text) (lines : List Text) (s : Source)
      → (decide file source line lines s).0 ≡ ok name
      → (allowed : List Text) × (hosts_for source (decide file source line lines s).1
          ≡ some allowed)
        × (contains allowed name ≡ true)
        × (requested line lines ≡ ok name)
  unfolding decide
  decide_permits file source line name lines s h = elim (Result-cases (requested line lines)) [
    | inr (e, refused) ↦ cc
    | inl (n, asked) ↦ elim (Result-cases (reload file s).0) [
      | inr (e, raised) ↦ cc
      | inl (u, read_in) ↦ elim (Option-cases (hosts_for source (reload file s).1)) [
        | inl unregistered ↦ cc
        | inr (allowed, known) ↦ elim (Bool-cases (contains allowed n)) [
          | inr unlisted ↦ cc
          | inl listed ↦
              let same : n ≡ name = cc in
              (
                allowed,
                rw (asked, read_in) known,
                ap (contains allowed) (sym same) ∙ listed,
                asked ∙ ap (λ x. ok x) same,
              )
        ]
      ]
    ]
  ]
