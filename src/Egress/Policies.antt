-- ===== src/Egress/Policies.antt =====
-- `JsonPolicyStore` of egress.py: which environment has which address, and the hosts it may reach.
-- Every method holds the lock of the file, so it is one step on the file's contents.
use cawl.Prelude.{
  lookup, lookup-select, true, List, Text, ◌==◌, Bool, Option, select, ◌∷◌, ◌≡◌, false, not, some,
  [], arith, ◌∙◌, eq_iff, Bool-cases, inl, sym, inr, Action, Result, map, none, err, ok, ◌>>=◌,
  gets, lift, codes, lookup-put_self, pop, put, lookup-pop, lookup-put_other, refl,
}
use cawl.Store.Reserve.{is_some}
use cawl.Errors.{Error, value_error}
use cawl.Egress.Hosts.{normalize_hosts, distinct}

-- What `json.loads` makes of the file, as far as the code looks at it: the value of a key, an entry,
-- and the document. The keys of an object are distinct.
pub data Field : Type 0 where
  missing other : Field
  text : Text → Field
  array : List (Option Text) → Field

pub data Item : Type 0 where
  scalar : Item
  object : Field → Field → Item

pub data Document : Type 0 where
  malformed not_object : Document
  entries : List (Text × Item) → Document

pub record Entry : Type 0 where
  pub environment : Text
  pub hosts : List Text

-- By address. The key of the file is the address as a network of its own.
abbrev pub Policies : Type 0
Policies = List (Text × Entry)

abbrev owned_by : Text → Text × Entry → Bool
owned_by id (ip, e) = e.environment == id

-- The entries without those of an environment.
abbrev pub without : Text → Policies → Policies
without id held = select (λ p. not (owned_by id p)) held

-- What `register` makes of the entries, for an address and hosts that are valid.
unfoldable pub assign : Text → Text → List Text → Policies → Policies
assign id ip hosts held = put ip (record { environment = id; hosts = hosts }) (without id held)

lookup-without :
    (id j : Text) (e : Entry) (held : Policies)
    → lookup j (without id held) ≡ some e
    → (e.environment == id) ≡ false
unfolding lookup
lookup-without id j e [] h = cc
lookup-without id j e ((i, w) ∷ held) h = ground (arith, lookup-without id j e held)

-- Registering an address gives it to the environment with the hosts of the call, leaves the
-- environment no other address, and keeps what other environments have at other addresses.
assign_replaces :
    (id ip : Text) (hosts : List Text) (held : Policies)
    → (lookup ip (assign id ip hosts held) ≡ some (record { environment = id; hosts = hosts }))
      × ((j : Text) (e : Entry)
          → lookup j (assign id ip hosts held) ≡ some e
          → e.environment ≡ id
          → j ≡ ip)
      × ((j : Text) (e : Entry)
          → lookup j held ≡ some e
          → (e.environment == id) ≡ false
          → (ip == j) ≡ false
          → lookup j (assign id ip hosts held) ≡ some e)
unfolding assign
assign_replaces id ip hosts held = (
  lookup-put_self ip _ (without id held),
  λ j e found own. elim (Bool-cases (ip == j)) [
    | inl same ↦ sym ((eq_iff ip j).0 same)
    | inr apart ↦ absurd (
        let kept = sym (lookup-put_other ip j _ (without id held) apart) ∙ found in
        let foreign = lookup-without id j e held kept in
        let mine : e.environment == id ≡ true = (eq_iff e.environment id).1 own in cc)
  ],
  λ j e found others elsewhere.
      lookup-put_other ip j _ (without id held) elsewhere
      ∙ lookup-select (λ p. not (owned_by id p)) j held found (rw others),
)

-- Taking an environment's entries out, or the entry of an address, leaves no such entry, and the
-- entries of the others, at other addresses, as they were.
withdrawn :
    (id ip : Text) (held : Policies)
    → ((j : Text) (e : Entry) → lookup j (without id held) ≡ some e → (e.environment == id) ≡ false)
      × (lookup ip (pop ip held) ≡ none)
      × ((j : Text) (e : Entry)
          → lookup j held ≡ some e
          → (e.environment == id) ≡ false
          → lookup j (without id held) ≡ some e)
      × ((j : Text) (e : Entry)
          → lookup j held ≡ some e
          → (j == ip) ≡ false
          → lookup j (pop ip held) ≡ some e)
withdrawn id ip held = (
  λ j e. lookup-without id j e held,
  lookup-pop ip held,
  λ j e found others. lookup-select (λ p. not (owned_by id p)) j held found (rw others),
  λ j e found elsewhere. lookup-select (λ p. not (p.0 == ip)) j held found (rw elsewhere),
)

-- `ip_address` and `ip_network` are those of `ipaddress`: the usual form of the address, none where
-- it refuses, and for a network also whether it holds one address only. `network_of` is the key for
-- an address.
module _ (ip_address : Text → Option Text) (ip_network : Text → Option (Text × Bool))
    (network_of : Text → Text) where
  abbrev pub is_ip : Text → Bool
  is_ip value = is_some (ip_address value)

  abbrev entry_with : Text → Result Error (List Text) → Result Error Entry
  entry_with id (err e) = err e
  entry_with id (ok hosts) = ok (record { environment = id; hosts = distinct hosts })

  abbrev entry_of : Item → Result Error Entry
  entry_of (object (text (c ∷ id)) (array hosts)) =
      entry_with (c ∷ id) (normalize_hosts is_ip hosts)
  entry_of _ = err (value_error (codes "policy entry"))

  abbrev at_network : Text → Option (Text × Bool) → Item → Result Error (Text × Entry)
  at_network cidr (some (ip, true)) item = elim (entry_of item) [
    | ok e ↦ ok (ip, e)
    | err x ↦ err x
  ]
  at_network cidr _ item = err (value_error cidr)

  abbrev then_put : Result Error (Text × Entry) → Policies → Result Error Policies
  then_put (ok (ip, e)) read = ok (put ip e read)
  then_put (err x) read = err x

  unfoldable read_entries : List (Text × Item) → Policies → Result Error Policies
  unfolding put
  read_entries [] read = ok read
  read_entries ((cidr, item) ∷ items) read =
      elim (then_put (at_network cidr (ip_network cidr) item) read) [
        | ok read' ↦ read_entries items read'
        | err x ↦ err x
      ]

  -- `_read`; no file is an empty one.
  unfoldable pub read : Option Document → Result Error Policies
  unfolding read_entries
  read none = ok []
  read (some (entries items)) = read_entries items []
  read (some malformed) = err (value_error (codes "json"))
  read (some not_object) = err (value_error (codes "policy store"))

  abbrev item_of : Text × Entry → Text × Item
  item_of (ip, e) = (network_of ip, object (text e.environment) (array (map some e.hosts)))

  -- `_write`: the file is replaced whole.
  abbrev write : Policies → Action (Option Document) Error (Unit {0})
  write held file = (ok tt, some (entries (map item_of held)))

  abbrev address : Text → Result Error Text
  address source = elim (ip_address source) [ none ↦ err (value_error source) | some ip ↦ ok ip ]

  unfoldable pub register : Text → Text → List Text → Action (Option Document) Error (Unit {0})
  unfolding read assign
  register id source allowed = do
    ip ← lift (address source)
    file ← gets (λ f. f)
    held ← lift (read file)
    hosts ← lift (normalize_hosts is_ip (map some allowed))
    write (assign id ip (distinct hosts) held)

  unfoldable pub unregister : Text → Option Text → Action (Option Document) Error (Unit {0})
  unfolding read
  unregister id none = do file ← gets (λ f. f); held ← lift (read file); write (without id held)
  unregister id (some source) = do
    file ← gets (λ f. f)
    held ← lift (read file)
    ip ← lift (address source)
    write (pop ip held)

  -- The file holds these entries.
  abbrev pub Holds : Option Document → Policies → Type 0
  Holds file held = file ≡ some (entries (map item_of held))

  address-known : (source ip : Text) → ip_address source ≡ some ip → address source ≡ ok ip
  address-known source ip known = rw (known, address) refl

  -- Where the file can be read, and the address and the hosts are legal, registering an environment at
  -- the address writes a file that gives it the address, with the hosts of the call in their normal
  -- form, and no other address, and that keeps what other environments have at other addresses.
  pub register_lem :
      (id source ip : Text) (allowed hosts : List Text) (file : Option Document) (held : Policies)
      → read file ≡ ok held
      → ip_address source ≡ some ip
      → normalize_hosts is_ip (map some allowed) ≡ ok hosts
      → let (r, file') = register id source allowed file in
        (r ≡ ok tt)
        × ((kept : Policies) × Holds file' kept
            × (lookup ip kept ≡ some (record { environment = id; hosts = distinct hosts }))
            × ((j : Text) (e : Entry) → lookup j kept ≡ some e → e.environment ≡ id → j ≡ ip)
            × ((j : Text) (e : Entry)
                → lookup j held ≡ some e
                → (e.environment == id) ≡ false
                → (ip == j) ≡ false
                → lookup j kept ≡ some e))
  unfolding register
  register_lem id source ip allowed hosts file held readable known normal =
      let (given, single, others) = assign_replaces id ip (distinct hosts) held in
      (
        rw (address-known source ip known, readable, normal) refl,
        (
          assign id ip (distinct hosts) held,
          rw (address-known source ip known, readable, normal) refl,
          given,
          single,
          others,
        ),
      )

  -- Where the file can be read, unregistering an environment writes a file without its entries, and
  -- unregistering it at a legal address a file without an entry at that address; the entries of the other
  -- environments, or at the other addresses, are kept.
  pub unregister_lem :
      (id source ip : Text) (file : Option Document) (held : Policies)
      → read file ≡ ok held
      → ip_address source ≡ some ip
      → let (r, everywhere) = unregister id none file in
        let (r', there) = unregister id (some source) file in
        (r ≡ ok tt)
        × (r' ≡ ok tt)
        × ((kept : Policies) × Holds everywhere kept
            × ((j : Text) (e : Entry) → lookup j kept ≡ some e → (e.environment == id) ≡ false)
            × ((j : Text) (e : Entry)
                → lookup j held ≡ some e
                → (e.environment == id) ≡ false
                → lookup j kept ≡ some e))
        × ((kept : Policies) × Holds there kept
            × (lookup ip kept ≡ none)
            × ((j : Text) (e : Entry)
                → lookup j held ≡ some e
                → (j == ip) ≡ false
                → lookup j kept ≡ some e))
  unfolding unregister
  unregister_lem id source ip file held readable known =
      let (foreign, gone, others, elsewhere) = withdrawn id ip held in
      (
        rw readable refl,
        rw (readable, address-known source ip known) refl,
        (without id held, rw readable refl, foreign, others),
        (pop ip held, rw (readable, address-known source ip known) refl, gone, elsewhere),
      )
