-- ===== src/Lib.antt =====
-- The control plane of cawl: on-demand environments (virtual machines or containers) made from
-- templates, shared with people and agents, exposed at hostnames, and torn down when they expire.
--
-- The parts, and the files that model them:
--
--   server/environments/store.py, `DjangoStateStore`: the durable state. Store/Tables holds the rows
--   of server/environments/models.py and the queries, Store/Upsert the methods upsert and delete,
--   Store/Lifecycle begin_operation and complete_operation, Store/Reserve reserve, and
--   Store/Capabilities the grants and exposures, and Store/Listing the listings. The invariant is in
--   Store/Sound.
--
--   server/cawl_core/control.py, `ControlPlane`: the operations that the server and the reaper call.
--   Control/Plane holds the deployment and shared steps, Control/Access status, ls, exec, ssh, share,
--   unshare, expose and unexpose, Control/Jobs the work on a box, Control/Lifecycle stop, start,
--   destroy and reap, Control/Creation up and refresh_image. What is proved of them is in
--   Control/Policy, Control/Stopping, Control/Teardown and Control/Expiry.
--
--   server/environments/webauth.py, cli_auth.py, auth.py and api.py: Web/Tokens is who a request is
--   from, Web/Viewers forward-auth and, in Handoff, the sign-in of visitors by emailed links,
--   Web/Login the sign-in of the command line, Web/Templates the registry of templates, with the
--   configs that services.py reads from it, and Web/Endpoints the operations on environments. Their
--   tables of models.py stand beside them.
--
--   server/cawl_core/runtime/fake.py is FakeRuntime, the runtime in memory, and incus_api.py is
--   Incus: its requests, the commands in a box (Incus/Commands), and the boxes (Incus/Boxes).
--   Incus/Waiting is about its loops and Incus/Registration about the order of its calls. The scripts
--   of runtime/sshd.py are Sshd.
--
--   cli/src/cawl is Client: client.py with the requests, credentials.py (Client/Credentials), login.py
--   (Client/SignIn), sshkeys.py (Client/SshKeys) and of cli.py the printing, the errors and the login
--   (Client/Commands), with the commands that reach a box (Client/Commands/Shell). Client/Routes is the
--   table of routes of api.py, and Client/Paths what becomes of a path on the way to it.
--
--   server/environments/services.py is Services: the backends, the access provider and the ingress
--   that the settings ask for.
--
--   server/cawl_core/ssh_ca.py is Certificates: what a certificate is asked of `ssh-keygen` for.
--
--   server/cawl_core/ingress.py is Ingress, a directory of Traefik's files as documents, and config.py
--   is Config, from what the YAML loader returns (Config/Yaml) to a validated template.
--
--   server/cawl_core/auth.py is Auth; cawl_core/models.py is Models; cawl_core/errors.py is Errors,
--   with one constructor for each message; cawl_core/access.py is Access; cawl_core/params.py is
--   Params; cawl_core/naming.py is Naming.
--
--   server/cawl_core/egress.py and egress_proxy.py: Egress/Hosts is the normal form of a host name,
--   Egress/Policies the file that `JsonPolicyStore` keeps, Egress/Providers the providers over it, and
--   Egress/Proxy what the proxy decides.
--
-- An operation of the control plane reads the environment from the store, checks the caller against
-- the policy, claims the environment (`begin_operation`), calls the providers, and commits what they
-- did (`complete_operation`), which the store accepts from the claim's owner only.
--
-- What a template accepts is settled at upload (Config), filled in at `up` (Params), and rendered
-- into the script of a box (Control/Jobs). A browser reaches an exposure through a route of Ingress,
-- which asks forward-auth (Web/Viewers), which decides on the rows of the store.
--
-- How the code is read. A method is a function of the state that returns its result, or the
-- exception, beside the state it leaves: an exception undoes writes inside a transaction only
-- (`atomic`). Each transaction locks the rows it decides on, so it is one step; calls of providers
-- lie between steps. A store is its tables as lists, a row once, in the order of the queries. Texts
-- are lists of ASCII codes. Times are natural numbers of seconds, and the database's clock is a
-- field of the store. UUIDs are numbers from a counter, hence new; generation and operation ids are
-- options, where the code has the empty string for none. The object that a method of the control
-- plane changes as it goes is a state of its own (Control/Jobs), so handlers see how far the work
-- came.
--
-- What stands for code outside: the record `Plane` of Control/Plane, with the runtime, egress,
-- access and ingress providers, the certificate authority and the random suffix as actions on an
-- arbitrary outside world, which may raise at any call. `re.match` on a template's own pattern and
-- the digest of arguments are functions of it. The parsers of `ipaddress` are parameters of Egress,
-- and the policy file is what `json.loads` makes of it. The settings, signing, URL parsing, URL
-- encoding and hashing that the web calls are the record `Site` of Web/Viewers, and what `secrets`
-- returns is an argument. `yaml.safe_load`, `str` of a list or a mapping, and what `ssh-keygen`
-- answers are parameters. Mail that is sent is added to an outbox. The table of templates of
-- Web/Templates, and the view of it that the store of Store/Tables reads for its versions, are
-- separate values.
--
-- Of Incus, one HTTPS exchange, `json.loads`, the clock and the callback that registers an address
-- are fields of `IncusApiRuntime`; a document has the fields that Incus documents of its answers, and
-- the calls that leave the daemon are kept in order beside the world.
--
-- Readers of what the code writes: Params/Quoting reads an argument as the shell does, and
-- Client/SshKeys/Options the settings of `ssh`, each as far as its comment says. Of the rows that a
-- query sorts by time, one without a time comes last.
--
-- Fuel: the loops of incus_api.py take a round for every second up to their deadline, which is enough
-- where a sleep of a second lets a second pass. The scan for placeholders takes the length of the
-- text, of which every step uses up one code at least. The ten rounds for a generated id are those of
-- the code.
--
-- Not modelled: the routing of HTTP requests and the rendering of responses, the settings and the
-- admin pages, the commands of the command line that print what one request returns, and the
-- deployment tool; the connections of the egress proxy, and the assembly of the control plane in
-- services.py. They move data between libraries and the parts above, or run outside programs.
pub mod Prelude
pub mod Errors
pub mod Models
pub mod Auth
pub mod Store
pub mod Params
pub mod Naming
pub mod Control
pub mod Egress
pub mod Config
pub mod Ingress
pub mod Web
pub mod Services
pub mod FakeRuntime
pub mod Access
pub mod Certificates
pub mod Sshd
pub mod Incus
pub mod Client
