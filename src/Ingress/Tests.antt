-- ===== src/Ingress/Tests.antt =====
-- The theorems about routes at concrete inputs.
use cawl.Models.{Environment, Exposure}
use cawl.Ingress.FailClosed.{IsClosed, Backed, sync-IsClosed}
use cawl.Ingress.{TraefikIngress, sync, file_of}
use cawl.Prelude.{codes, [], some, ◌∷◌, ◌==◌, lookup, refl}
use cawl.Store.Tests.{acme}

abbrev traefik : TraefikIngress
traefik = record {
  base_domain = codes "cawl.test";
  forward_auth_url = codes "http://daemon/auth/forward";
  daemon_url = codes "http://daemon";
  auth_host = codes "auth.cawl.test";
  cert_resolver = codes "le";
}

abbrev docs : Exposure
docs = record { name = codes "docs"; port = 80; access = [] }

abbrev acme_docs : Environment
acme_docs = record acme { vm_ip = some (codes "10.0.0.9"); exposures = docs ∷ [] }

sync-IsClosed_example :
    let dir' = sync traefik acme_docs [] in
    IsClosed traefik dir' × Backed traefik (lookup (file_of traefik acme_docs.id) dir') dir'
unfolding ◌==◌
sync-IsClosed_example = sync-IsClosed traefik refl acme_docs [] (refl, tt) refl tt
