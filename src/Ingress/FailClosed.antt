-- ===== src/Ingress/FailClosed.antt =====
-- That no route leads past forward-auth.
use cawl.Prelude.{
  List, Text, contains, All, ◌≡◌, true, ◌⊎◌, ◌∷◌, [], inl, inr, All-put, ◌++◌, All-select, codes,
  lookup, some, eq_refl, refl, Option, append_assoc, ℕ, put, ◌∙◌, ap, lookup-put_other, none, ◌||◌,
  eq_comm, sym, ne-append, lookup-put_self, subst, pop, lookup-pop, All-put_entry, ◌==◌, false,
}
use cawl.Ingress.{
  Router, render_each, add_routes, TraefikIngress, cawl_auth, Routes, cawl_daemon, Directory,
  deregister, ensure_shared, render, sync, shared_routes, key_of, handoff_router, app_router,
  auth_routers, published, file_of, sync_at, no_routes,
}
use cawl.Models.{Exposure, Environment}
use cawl.Params.{empty_text}

-- A router asks forward-auth, or leads to the daemon and not to a box.
pub record IsGuarded (r : Router) : Type 0 where
  pub guard : (contains r.middlewares cawl_auth ≡ true) ⊎ (r.service ≡ cawl_daemon)

abbrev pub AllGuarded : List (Text × Router) → Type 0
AllGuarded rs = All (λ (p : Text × Router). IsGuarded p.1) rs

add_routes-AllGuarded :
    (ingress : TraefikIngress) (id ip : Text) (e : Exposure) (routes : Routes)
    → AllGuarded routes.routers
    → AllGuarded (add_routes ingress id ip e routes).routers
unfolding add_routes
add_routes-AllGuarded ingress id ip e routes a =
    let named : contains (cawl_auth ∷ []) cawl_auth ≡ true = rw (eq_refl cawl_auth) in
    All-put IsGuarded (key_of id e ++ codes "-cawl") (handoff_router ingress e) _
      (record { guard = inr refl })
      (All-put IsGuarded (key_of id e) (app_router ingress id e) _ (record { guard = inl named }) a)

render_each-AllGuarded :
    (ingress : TraefikIngress) (id ip : Text) (es : List Exposure) (routes : Routes)
    → AllGuarded routes.routers
    → AllGuarded (render_each ingress id ip es routes).routers
unfolding render_each
render_each-AllGuarded ingress id ip [] routes a = a
render_each-AllGuarded ingress id ip (e ∷ es) routes a =
    render_each-AllGuarded ingress id ip es (add_routes ingress id ip e routes)
      (add_routes-AllGuarded ingress id ip e routes a)

-- A service under the name of the daemon's leads to the daemon.
abbrev pub NamesDaemon : TraefikIngress → Text × Text → Type 0
NamesDaemon ingress (name, url) = (name == cawl_daemon ≡ false) ⊎ (url ≡ ingress.daemon_url)

-- Forward-auth is nowhere but at the daemon's address for it.
abbrev pub AsksDaemon : TraefikIngress → Option Text → Type 0
AsksDaemon ingress none = Unit {0}
AsksDaemon ingress (some url) = url ≡ ingress.forward_auth_url

-- A file with guarded routers that gives the names of forward-auth and of the daemon no other meaning.
pub record FileClosed (ingress : TraefikIngress) (r : Routes) : Type 0 where
  pub routed : AllGuarded r.routers
  pub daemon : All (NamesDaemon ingress) r.services
  pub asks : AsksDaemon ingress r.forward_auth

-- What Traefik reads: names are shared by all the files.
abbrev pub IsClosed : TraefikIngress → Directory → Type 0
IsClosed ingress dir = All (λ (p : Text × Routes). FileClosed ingress p.1) dir

abbrev shared_file : Text
shared_file = codes "_cawl.yml"

-- Where there is a file of routes to a box, there is the file that says what forward-auth and the
-- daemon are.
abbrev pub Backed : TraefikIngress → Option Routes → Directory → Type 0
Backed ingress none dir = Unit {0}
Backed ingress (some routes) dir =
    (held : Routes) × (lookup shared_file dir ≡ some held)
    × (held.forward_auth ≡ some ingress.forward_auth_url)
    × (lookup cawl_daemon held.services ≡ some ingress.daemon_url)

-- No exposure has the name of the daemon's service for its key.
abbrev pub AllNamed : Text → List Exposure → Type 0
AllNamed id es = All (λ e. key_of id e == cawl_daemon ≡ false) es

module _ (ingress : TraefikIngress) where
  render_each-services :
      (id ip : Text) (es : List Exposure) (routes : Routes)
      → AllNamed id es
      → All (NamesDaemon ingress) routes.services
      → All (NamesDaemon ingress) (render_each ingress id ip es routes).services
  unfolding render_each add_routes
  render_each-services id ip [] routes named a = a
  render_each-services id ip (e ∷ es) routes named a =
      render_each-services id ip es (add_routes ingress id ip e routes) named.1
        (All-put_entry (NamesDaemon ingress) (key_of id e) _ routes.services (inl named.0) a)

  render_each-forward_auth :
      (id ip : Text) (es : List Exposure) (routes : Routes)
      → (render_each ingress id ip es routes).forward_auth ≡ routes.forward_auth
  unfolding render_each add_routes
  render_each-forward_auth id ip [] routes = refl
  render_each-forward_auth id ip (e ∷ es) routes =
      render_each-forward_auth id ip es (add_routes ingress id ip e routes)

  render-FileClosed :
      (id ip : Text) (es : List Exposure)
      → AllNamed id es
      → FileClosed ingress (render ingress id ip es)
  unfolding render
  render-FileClosed id ip es named = record {
    routed = render_each-AllGuarded ingress id ip es (no_routes ingress) tt;
    daemon = render_each-services id ip es (no_routes ingress) named tt;
    asks =
        subst (AsksDaemon ingress) (sym (render_each-forward_auth id ip es (no_routes ingress))) tt;
  }

  auth_routers-AllGuarded : (host : Text) → AllGuarded (auth_routers ingress host)
  auth_routers-AllGuarded [] = tt
  auth_routers-AllGuarded (c ∷ host) = (record { guard = inr refl }, tt)

  shared_routes-FileClosed : FileClosed ingress (shared_routes ingress)
  shared_routes-FileClosed = record {
    routed = auth_routers-AllGuarded ingress.auth_host;
    daemon = (inr refl, tt);
    asks = refl;
  }

  deregister-IsClosed :
      (id : Text) (dir : Directory)
      → IsClosed ingress dir
      → IsClosed ingress (deregister ingress id dir)
  unfolding deregister
  deregister-IsClosed id dir a = All-select _ dir (λ p h kept. h) a

  deregister-Backed :
      (id : Text) (dir : Directory)
      → Backed ingress
          (lookup (file_of ingress id) (deregister ingress id dir))
          (deregister ingress id dir)
  unfolding deregister
  deregister-Backed id dir =
      subst (λ o. Backed ingress o (pop (file_of ingress id) dir))
        (sym (lookup-pop (file_of ingress id) dir)) tt

  module _
      (configured : empty_text ingress.forward_auth_url || empty_text ingress.daemon_url
        ≡ false) where
    ensure_shared_lem :
        (dir : Directory) → ensure_shared ingress dir ≡ put shared_file (shared_routes ingress) dir
    unfolding ensure_shared
    ensure_shared_lem dir = rw configured refl

    published-IsClosed :
        (inst : Environment) (ip : Text) (es : List Exposure) (dir : Directory)
        → AllNamed inst.id es
        → IsClosed ingress dir
        → IsClosed ingress (published ingress inst ip es dir)
    published-IsClosed inst ip [] dir named a = deregister-IsClosed inst.id dir a
    published-IsClosed inst ip (e ∷ es) dir named a =
        All-put (FileClosed ingress) (file_of ingress inst.id) (render ingress inst.id ip (e ∷ es))
          (ensure_shared ingress dir) (render-FileClosed inst.id ip (e ∷ es) named)
          (subst (IsClosed ingress) (sym (ensure_shared_lem dir)) (
            All-put (FileClosed ingress) shared_file (shared_routes ingress) dir
              shared_routes-FileClosed a))

    published-Backed :
        (inst : Environment) (ip : Text) (es : List Exposure) (dir : Directory)
        → file_of ingress inst.id == shared_file ≡ false
        → let dir' = published ingress inst ip es dir in
          Backed ingress (lookup (file_of ingress inst.id) dir') dir'
    published-Backed inst ip [] dir apart = deregister-Backed inst.id dir
    published-Backed inst ip (e ∷ es) dir apart =
        subst
          (λ o. Backed ingress o (put (file_of ingress inst.id) routes (ensure_shared ingress dir)))
          (sym (lookup-put_self (file_of ingress inst.id) routes (ensure_shared ingress dir)))
          (
            shared_routes ingress,
            lookup-put_other (file_of ingress inst.id) shared_file routes
                  (ensure_shared ingress dir) apart
                ∙ ap (lookup shared_file) (ensure_shared_lem dir)
                ∙ lookup-put_self shared_file (shared_routes ingress) dir,
            refl,
            unfold lookup in rw (eq_refl cawl_daemon) refl,
          )
      where
        routes : Routes
        routes = render ingress inst.id ip (e ∷ es)

    sync_at-closes :
        (inst : Environment) (ip : Option Text) (dir : Directory)
        → AllNamed inst.id inst.exposures
        → file_of ingress inst.id == shared_file ≡ false
        → IsClosed ingress dir
        → IsClosed ingress (sync_at ingress inst ip dir)
          × Backed ingress
              (lookup (file_of ingress inst.id) (sync_at ingress inst ip dir))
              (sync_at ingress inst ip dir)
    sync_at-closes inst none dir named apart a =
        (deregister-IsClosed inst.id dir a, deregister-Backed inst.id dir)
    sync_at-closes inst (some []) dir named apart a =
        (deregister-IsClosed inst.id dir a, deregister-Backed inst.id dir)
    sync_at-closes inst (some (c ∷ ip)) dir named apart a = (
      published-IsClosed inst (c ∷ ip) inst.exposures dir named a,
      published-Backed inst (c ∷ ip) inst.exposures dir apart,
    )

    -- Publishing or withdrawing the routes of an environment leaves no way past forward-auth: in every
    -- file every router has its middleware, or leads to the daemon's service; no file gives either
    -- name another meaning than the daemon; and where the environment has a file, the shared one says
    -- what both are. The two URLs are set, no exposure has `cawl-daemon` for its key, and the file of
    -- the environment is not the shared one.
    pub sync-IsClosed :
        (inst : Environment) (dir : Directory)
        → AllNamed inst.id inst.exposures
        → file_of ingress inst.id == shared_file ≡ false
        → IsClosed ingress dir
        → let dir' = sync ingress inst dir in
          IsClosed ingress dir' × Backed ingress (lookup (file_of ingress inst.id) dir') dir'
    unfolding sync
    sync-IsClosed inst dir named apart a = sync_at-closes inst inst.vm_ip dir named apart a

shadow :
    (k : Text) (c : ℕ) (t : Text) (r a : Router) (rs : List (Text × Router))
    → lookup k (put (k ++ (c ∷ t)) r (put k a rs)) ≡ some a
shadow k c t r a rs =
    lookup-put_other (k ++ (c ∷ t)) k r (put k a rs) (eq_comm (k ++ (c ∷ t)) k ∙ ne-append k c t)
    ∙ lookup-put_self k a rs

-- Where one exposure is named after another with `-cawl` behind it, its own route replaces the
-- route of the login handoff on the other's host.
pub handoff_shadowed :
    (ingress : TraefikIngress) (id ip : Text) (e e' : Exposure)
    → e'.name ≡ e.name ++ codes "-cawl"
    → lookup (key_of id e ++ codes "-cawl") (render ingress id ip (e ∷ e' ∷ [])).routers
      ≡ some (app_router ingress id e')
unfolding render render_each add_routes
handoff_shadowed ingress id ip e e' named =
    let same : key_of id e ++ codes "-cawl" ≡ key_of id e' =
      append_assoc id (b'-' ∷ e.name) (codes "-cawl") ∙ ap (λ n. id ++ (b'-' ∷ n)) (sym named) in
    ap (λ k. lookup k (render ingress id ip (e ∷ e' ∷ [])).routers) same
    ∙ shadow (key_of id e') _ _ _ _ _
