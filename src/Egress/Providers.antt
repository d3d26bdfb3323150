-- ===== src/Egress/Providers.antt =====
-- The egress providers of egress.py, and `build_egress` of server/environments/services.py. The
-- store of a proxy is the file of Egress/Policies.
use cawl.Prelude.{
  Text, List, Option, Bool, Result, Action, codes, ◌++◌, ◌∷◌, [], some, ok, err, any, nat_beq, not,
  ◌||◌, ◌&&◌, ◌==◌, if◌then◌else◌, pure, map, ℕ, ◌≡◌, true, false,
}
use cawl.Errors.{Error, value_error, improperly_configured}
use cawl.Egress.Hosts.{normalize_hosts, distinct}
use cawl.Egress.Policies.{Document, register, unregister, is_ip}
use cawl.Params.Templates.{quote}
use cawl.Params.Patterns.{is_space}
use cawl.Params.{empty_text}
use cawl.Naming.Labels.{drop_while_end}
use cawl.Sshd.{lines}

pub record EgressPolicy : Type 0 where
  pub name : Text
  pub allowed_hosts : List Text

-- `NoEgress`, `NetworkEgress` with its network, `ProxyEgress` with its network, URL, policy and the
-- path of its store, and a class that the operator installed, by its path.
pub data EgressProvider : Type 0 where
  no_egress : EgressProvider
  network_egress : Text → EgressProvider
  proxy_egress : Text → Text → EgressPolicy → Text → EgressProvider
  installed : Text → EgressProvider

-- What `urlparse` finds in the URL of a proxy; a part that is missing is empty.
pub record ProxyUrl : Type 0 where
  pub scheme : Text
  pub hostname : Text
  pub username : Text
  pub password : Text
  pub path : Text
  pub query : Text
  pub fragment : Text

pub record Settings : Type 0 where
  pub egress : Text
  pub network : Text
  pub proxy_url : Text
  pub policy_name : Text
  pub allowed_hosts : List Text
  pub policy_store : Text

unfoldable pub is_blank_name : Text → Bool
is_blank_name name = empty_text name || any is_space name

-- The address that a box reaches the network by, without which it has none of the proxy's kind.
unfoldable pub attachment : EgressProvider → Text → Text
attachment (network_egress network) id = network
attachment (proxy_egress network url policy store) id = network
attachment _ id = []

abbrev export_line : Text → Text → Text
export_line name url = codes "export " ++ (name ++ (codes "=" ++ quote url))

abbrev proxy_script : Text → Text
proxy_script url = lines (
    codes "set -e"
    ∷ codes "cat >/etc/profile.d/cawl-egress-proxy.sh <<'EOF'"
    ∷ export_line (codes "https_proxy") url
    ∷ export_line (codes "HTTPS_PROXY") url
    ∷ codes "export NO_PROXY=localhost,127.0.0.1,::1"
    ∷ codes "export no_proxy=$NO_PROXY"
    ∷ codes "EOF"
    ∷ codes "chmod 644 /etc/profile.d/cawl-egress-proxy.sh"
    ∷ []
    ∷ [])

unfoldable pub boot_script : EgressProvider → Text → Text
boot_script (proxy_egress network url policy store) id = proxy_script url
boot_script _ id = []

abbrev is_slash : ℕ → Bool
is_slash c = nat_beq c b'/'

-- `scheme == "http"`, a host, and nothing else but a `/`
unfoldable pub is_plain_proxy : ProxyUrl → Bool
is_plain_proxy u =
    (u.scheme == codes "http")
    && not (empty_text u.hostname)
    && empty_text u.username
    && empty_text u.password
    && (empty_text u.path || (u.path == codes "/"))
    && empty_text u.query
    && empty_text u.fragment

module _ (ip_address : Text → Option Text) (ip_network : Text → Option (Text × Bool))
    (network_of : Text → Text) (urlparse : Text → ProxyUrl) (can_load : Text → Bool) where
  abbrev named : Text → Result Error (List Text) → Result Error EgressPolicy
  named name (err e) = err e
  named name (ok hosts) = ok (record { name = name; allowed_hosts = distinct hosts })

  -- `EgressPolicy.__post_init__`
  unfoldable pub policy : Text → List Text → Result Error EgressPolicy
  unfolding is_blank_name
  policy name hosts =
      if is_blank_name name
      then err (value_error (codes "egress policy name is required"))
      else named name (normalize_hosts (is_ip ip_address ip_network network_of) (map some hosts))

  abbrev bad_network : Error
  bad_network = value_error (codes "egress network must be a non-empty runtime network name")

  -- `NetworkEgress.__init__`
  unfoldable pub new_network : Text → Result Error EgressProvider
  unfolding is_blank_name
  new_network network =
      if is_blank_name network then err bad_network else ok (network_egress network)

  -- `ProxyEgress.__init__`, with a policy and a path that are given
  unfoldable pub new_proxy : Text → Text → EgressPolicy → Text → Result Error EgressProvider
  unfolding is_blank_name is_plain_proxy drop_while_end
  new_proxy network url p store =
      if is_blank_name network
      then err bad_network
      else if is_plain_proxy (urlparse url)
      then ok (proxy_egress network (drop_while_end is_slash url) p store)
      else err
          (value_error (codes "egress proxy URL must be an unauthenticated http://host[:port] URL"))

  -- `ProxyEgress.register`, and the base class that does nothing
  unfoldable pub register_with :
      EgressProvider → Text → Text → List Text → Action (Option Document) Error (Unit {0})
  unfolding register
  register_with (proxy_egress network url p store) id source hosts =
      register ip_address ip_network network_of id source hosts
  register_with _ id source hosts = pure tt

  unfoldable pub unregister_with :
      EgressProvider → Text → Option Text → Action (Option Document) Error (Unit {0})
  unfolding unregister
  unregister_with (proxy_egress network url p store) id source =
      unregister ip_address ip_network network_of id source
  unregister_with _ id source = pure tt

  abbrev configured : Result Error EgressProvider → Result Error EgressProvider
  configured (ok p) = ok p
  configured (err (value_error message)) = err (improperly_configured message)
  configured (err e) = err e

  abbrev proxy_with : Settings → Result Error EgressPolicy → Result Error EgressProvider
  proxy_with s (err e) = err e
  proxy_with s (ok p) = new_proxy s.network s.proxy_url p s.policy_store

  abbrev bad : Text → Result Error EgressProvider
  bad message = err (improperly_configured message)

  unfoldable pub build_egress : Settings → Result Error EgressProvider
  unfolding new_network new_proxy policy
  build_egress s =
      if any (λ c. nat_beq c b'.') s.egress
      then if can_load s.egress then ok (installed s.egress) else bad (codes "CAWL_EGRESS")
      else if empty_text s.egress || (s.egress == codes "none")
      then ok no_egress
      else if s.egress == codes "network"
      then if empty_text s.network
        then bad (codes "CAWL_EGRESS=network needs CAWL_EGRESS_NETWORK")
        else configured (new_network s.network)
      else if s.egress == codes "proxy"
      then if empty_text s.network || empty_text s.proxy_url
        then bad (codes "CAWL_EGRESS=proxy needs CAWL_EGRESS_NETWORK and CAWL_EGRESS_PROXY_URL")
        else configured (proxy_with s (policy s.policy_name s.allowed_hosts))
      else bad (codes "unknown CAWL_EGRESS")

  -- A policy under a name with these hosts in their normal form, each once.
  pub record Lists (title : Text) (hosts : List Text) (p : EgressPolicy) : Type 0 where
    pub filled : is_blank_name title ≡ false
    pub name : p.name ≡ title
    pub normal : List Text
    pub normalized :
        normalize_hosts (is_ip ip_address ip_network network_of) (map some hosts) ≡ ok normal
    pub allowed : p.allowed_hosts ≡ distinct normal

  -- What a deployment may get: no restriction only where it asks for none, and a network that
  -- the settings name, and the plain proxy with the policy and the store of the settings, where it asks
  -- for one.
  abbrev pub Protects : Settings → EgressProvider → Type 0
  Protects s no_egress = empty_text s.egress || (s.egress == codes "none") ≡ true
  Protects s (network_egress network) =
      (s.egress == codes "network" ≡ true) × (is_blank_name network ≡ false) × (network ≡ s.network)
  Protects s (proxy_egress network url p store) =
      (s.egress == codes "proxy" ≡ true)
      × (is_blank_name network ≡ false)
      × (network ≡ s.network)
      × (is_plain_proxy (urlparse s.proxy_url) ≡ true)
      × (url ≡ drop_while_end is_slash s.proxy_url)
      × Lists s.policy_name s.allowed_hosts p
      × (store ≡ s.policy_store)
  Protects s (installed path) = (path ≡ s.egress) × (can_load path ≡ true)

  abbrev ProtectsIf : Settings → Result Error EgressProvider → Type 0
  ProtectsIf s (ok p) = Protects s p
  ProtectsIf s (err e) = Unit {0}
