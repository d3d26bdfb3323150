-- ===== src/Egress/Tests.antt =====
-- The theorems about the egress policy at concrete inputs. Addresses are digits and dots.
use cawl.Egress.Providers.{Settings, EgressProvider, ProxyUrl, proxy_egress}
use cawl.Egress.Policies.{
  Entry, Policies, Document, entries, object, text, array, register, unregister, read, Holds,
  register_lem, unregister_lem,
}
use cawl.Egress.Proxy.{
  authority, Source, decide, requested, headers, hosts_for, reload, crlf, decide_permits,
}
use cawl.Prelude.{
  lookup, Text, Bool, Option, codes, some, [], false, if◌then◌else◌, true, ◌∷◌, ◌≡◌, ◌==◌, all,
  none, ◌||◌, List, nat_beq, contains, ok, refl,
}
use cawl.Egress.Hosts.{normalize_host, split_on, is_host_label, normalize_hosts, distinct}
use cawl.Naming.Labels.{strip, drop_while, drop_while_end}
use cawl.Params.Patterns.{is_digit}

abbrev parse_address : Text → Option Text
parse_address t = if all (λ c. is_digit c || nat_beq c b'.') t then some t else none

abbrev parse_network : Text → Option (Text × Bool)
parse_network t = some (t, true)

abbrev key_of : Text → Text
key_of ip = ip

abbrev no_address_at_all : Text → Bool
no_address_at_all t = false

abbrev one_host : Entry
one_host = record { environment = codes "acme"; hosts = codes "example.com" ∷ [] }

-- A file with one entry.
abbrev one_file : Option Document
one_file = some (
    entries (
      (codes "10.0.0.9", object (text (codes "acme")) (array (some (codes "example.com") ∷ [])))
      ∷ []))

abbrev one_entry : Policies
one_entry = (codes "10.0.0.9", one_host) ∷ []

register_lem_example :
    let (r, file') =
      register parse_address parse_network key_of
        (codes "docs")
        (codes "10.0.0.8")
        (codes "example.com" ∷ [])
        one_file in
    (r ≡ ok tt)
    × ((kept : Policies) × Holds parse_address parse_network key_of file' kept
        × (lookup (codes "10.0.0.8") kept
            ≡ some (record {
              environment = codes "docs";
              hosts = distinct (codes "example.com" ∷ []);
            }))
        × ((j : Text) (e : Entry)
            → lookup j kept ≡ some e
            → e.environment ≡ codes "docs"
            → j ≡ codes "10.0.0.8")
        × ((j : Text) (e : Entry)
            → lookup j one_entry ≡ some e
            → (e.environment == codes "docs") ≡ false
            → (codes "10.0.0.8" == j) ≡ false
            → lookup j kept ≡ some e))
unfolding read normalize_hosts normalize_host split_on is_host_label strip drop_while drop_while_end
    lookup ◌==◌ distinct
register_lem_example =
    register_lem parse_address parse_network key_of (codes "docs") (codes "10.0.0.8")
      (codes "10.0.0.8") (codes "example.com" ∷ []) (codes "example.com" ∷ []) one_file one_entry
      refl refl refl

unregister_lem_example :
    let (r, everywhere) =
      unregister parse_address parse_network key_of (codes "acme") none one_file in
    let (r', there) =
      unregister parse_address parse_network key_of
        (codes "acme")
        (some (codes "10.0.0.9"))
        one_file in
    (r ≡ ok tt)
    × (r' ≡ ok tt)
    × ((kept : Policies) × Holds parse_address parse_network key_of everywhere kept
        × ((j : Text) (e : Entry)
            → lookup j kept ≡ some e
            → (e.environment == codes "acme") ≡ false)
        × ((j : Text) (e : Entry)
            → lookup j one_entry ≡ some e
            → (e.environment == codes "acme") ≡ false
            → lookup j kept ≡ some e))
    × ((kept : Policies) × Holds parse_address parse_network key_of there kept
        × (lookup (codes "10.0.0.9") kept ≡ none)
        × ((j : Text) (e : Entry)
            → lookup j one_entry ≡ some e
            → (j == codes "10.0.0.9") ≡ false
            → lookup j kept ≡ some e))
unfolding read normalize_hosts normalize_host split_on is_host_label strip drop_while drop_while_end
    lookup ◌==◌ distinct
unregister_lem_example =
    unregister_lem parse_address parse_network key_of (codes "acme") (codes "10.0.0.9")
      (codes "10.0.0.9") one_file one_entry refl refl

abbrev in_force : Source
in_force = record { stamp = some 1; policies = (codes "10.0.0.9", one_host) ∷ [] }

decide_permits_example :
    (allowed : List Text) × (hosts_for parse_address parse_network key_of
        (codes "10.0.0.9")
        (decide parse_address parse_network key_of none
          (codes "10.0.0.9")
          (codes "CONNECT example.com:443 HTTP/1.1")
          (crlf ∷ [])
          in_force).1
      ≡ some allowed)
    × (contains allowed (codes "example.com") ≡ true)
    × (requested parse_address parse_network key_of
          (codes "CONNECT example.com:443 HTTP/1.1")
          (crlf ∷ [])
        ≡ ok (codes "example.com"))
unfolding decide requested headers authority hosts_for reload normalize_host split_on is_host_label
    strip drop_while drop_while_end lookup ◌==◌
decide_permits_example =
    decide_permits parse_address parse_network key_of none (codes "10.0.0.9")
      (codes "CONNECT example.com:443 HTTP/1.1") (codes "example.com") (crlf ∷ []) in_force refl

abbrev plain_proxy : ProxyUrl
plain_proxy = record {
  scheme = codes "http";
  hostname = codes "proxy";
  username = [];
  password = [];
  path = [];
  query = [];
  fragment = [];
}

abbrev through_proxy : Settings
through_proxy = record {
  egress = codes "proxy";
  network = codes "isolated";
  proxy_url = codes "http://proxy:3128";
  policy_name = codes "agents";
  allowed_hosts = [];
  policy_store = codes "/var/lib/cawl/egress.json";
}

abbrev proxied : EgressProvider
proxied =
    proxy_egress (codes "isolated") (codes "http://proxy:3128")
      (record { name = codes "agents"; allowed_hosts = [] }) (codes "/var/lib/cawl/egress.json")
