-- ===== src/Config/Valid.antt =====
-- What a template that was accepted promises.
use cawl.Prelude.{
  Result, Text, Bool, ℕ, Option, ◌≡◌, ok, some, true, Bool-cases, err, false, inl, refl, arith,
  none, codes, inr, Result-cases, subst, List, All, Option-cases, any, put, sym, All-put, [], ◌∙◌,
  all, ap, ◌∷◌, ◌<◌,
}
use cawl.Errors.{Error}
use cawl.Config.Yaml.{
  no_entries, Node, Entries, get_key, Scalar, is_key, or_mapping, str_scalar, as_mapping,
  has_unknown,
}
use cawl.Config.{
  bind_result, valid_port, with_default, param_from, items_or_none, checked_param, param_with,
  parse_entries, parse_expose, parse_param, parse_params, exposed, port_of, entry, builtins,
  parse_hooks, parse_template_config, ttl_from, check_placeholders, legible, parse_named, Parsed,
  is_known, hooks_from, hook_names, str_unless_null, str_if_truthy, expose_from, parsed,
}
use cawl.Params.{Param, check}
use cawl.Naming.Labels.{validate_expose_key}
use cawl.Naming.Lifetimes.{parse_ttl}
use cawl.Params.Templates.{placeholders}

bind_result-ok :
    {A B : Type 0} (r : Result Error A) (f : A → Result Error B) (b : B)
    → bind_result r f ≡ ok b
    → (a : A) × (r ≡ ok a) × (f a ≡ ok b)
bind_result-ok (err e) f b h = cc
bind_result-ok (ok a) f b h = (a, refl, h)

-- A port that an exposure can have.
abbrev HasPort : Text × ℕ → Type 0
HasPort e = (0 < e.1) × (e.1 < 65536)

pub ok-injective : {A : Type 0} {a b : A} → ◌≡◌ {A = Result Error A} (ok a) (ok b) → a ≡ b
ok-injective h = cc

module _ (regex : Text → Text → Bool) (repr : Node → Text) where
  abbrev HasDefault : Param → Option Text → Type 0
  HasDefault p none = Unit {0}
  HasDefault p (some d) = (p.required ≡ false) × ((v : Text) × (check regex p d ≡ ok v))

  -- A parameter that is required or that accepts its default, if it has one.
  abbrev IsSound : Param → Type 0
  IsSound p = HasDefault p p.default

  with_default_lem :
      (p q : Param) (d : Option Text)
      → with_default regex repr p d ≡ ok q
      → (p ≡ q) × HasDefault p d
  unfolding with_default
  with_default_lem p q none h = (ok-injective h, tt)
  with_default_lem p q (some d) h = elim (Bool-cases p.required) [
    | inl required ↦ absurd (ground (arith, required))
    | inr optional ↦ elim (Result-cases (check regex p d)) [
      | inr (e, refused) ↦ absurd (ground (arith, optional, refused))
      | inl (v, good) ↦ (ground (arith, optional, good), (optional, (v, good)))
    ]
  ]

  param_from_lem :
      (name : Text) (spec : Option Entries) (q : Param)
      → param_from regex repr name spec ≡ ok q
      → IsSound q
  param_from_lem name none q h = cc
  param_from_lem name (some spec) q h =
      let (choices, listed, made) =
        bind_result-ok (items_or_none regex repr (get_key (codes "choices") spec))
          (λ choices. checked_param regex repr (param_with regex repr name spec choices)) q h in
      let (same, sound) =
        with_default_lem (param_with regex repr name spec choices) q
          (param_with regex repr name spec choices).default made in
      subst IsSound same sound

  parse_param-IsSound :
      (key : Scalar) (spec : Node) (q : Param) → parse_param regex repr key spec ≡ ok q → IsSound q
  unfolding parse_param
  parse_param-IsSound key spec q h = elim (Bool-cases (any (λ name. is_key name key) builtins)) [
    | inl taken ↦ absurd (ground (arith, taken))
    | inr free ↦ param_from_lem (str_scalar key) (or_mapping (some spec)) q (sym (rw free) ∙ h)
  ]

  parse_entries-IsSound :
      (es : Entries) (before params : List (Text × Param))
      → parse_entries regex repr es before ≡ ok params
      → All (λ (e : Text × Param). IsSound e.1) before
      → All (λ (e : Text × Param). IsSound e.1) params
  unfolding parse_entries
  parse_entries-IsSound no_entries before params h a =
      subst (λ (m : List (Text × Param)). All (λ (e : Text × Param). IsSound e.1) m)
        (ok-injective h) a
  parse_entries-IsSound (entry k spec es) before params h a =
      let (p, one, rest) =
        bind_result-ok (parse_param regex repr k spec)
          (λ p. parse_entries regex repr es (put p.name p before)) params h in
      parse_entries-IsSound es (put p.name p before) params rest
        (All-put IsSound p.name p before (parse_param-IsSound k spec p one) a)

  parse_params-IsSound :
      (raw : Option Node) (params : List (Text × Param))
      → parse_params regex repr raw ≡ ok params
      → All (λ (e : Text × Param). IsSound e.1) params
  unfolding parse_params
  parse_params-IsSound raw params h = elim (Option-cases (or_mapping raw)) [
    | inl none_ ↦ absurd (ground (arith, none_))
    | inr (es, found) ↦ parse_entries-IsSound es [] params (sym (rw found) ∙ h) tt
  ]

exposed-HasPort :
    (key : Result Error Text) (port : Node) (before m : List (Text × ℕ))
    → exposed key port before ≡ ok m
    → All HasPort before
    → All HasPort m
exposed-HasPort (err e) port before m h a = cc
exposed-HasPort (ok key) port before m h a = elim (Bool-cases (valid_port (port_of port))) [
  | inr bad ↦ absurd (ground (arith, bad))
  | inl good ↦
      subst (λ (d : List (Text × ℕ)). All HasPort d) (ok-injective (sym (rw good) ∙ h))
        (All-put (λ n. (0 < n) × (n < 65536)) key (port_of port) before
          (ground (arith, good), ground (arith, good)) a)
]

parse_expose-HasPort :
    (es : Entries) (before expose : List (Text × ℕ))
    → parse_expose es before ≡ ok expose
    → All HasPort before
    → All HasPort expose
unfolding parse_expose
parse_expose-HasPort no_entries before expose h a =
    subst (λ (m : List (Text × ℕ)). All HasPort m) (ok-injective h) a
parse_expose-HasPort (entry k port es) before expose h a =
    let (m, one, rest) =
      bind_result-ok (exposed (validate_expose_key (str_scalar k)) port before) (parse_expose es)
        expose h in
    parse_expose-HasPort es m expose rest
      (exposed-HasPort (validate_expose_key (str_scalar k)) port before m one a)

module _ (regex : Text → Text → Bool) (repr : Node → Text) where
  -- What an accepted template promises.
  abbrev pub IsAccepted : Parsed → Type 0
  IsAccepted p =
      All (λ (e : Text × Param). IsSound regex repr e.1) p.params
      × (all (is_known p.params) (placeholders p.build) ≡ true)
      × (all (is_known p.params) (placeholders p.provision) ≡ true)
      × All HasPort p.expose
      × ((t : Option ℕ) × (parse_ttl p.ttl ≡ ok t))

  hooks_from_lem :
      (params : List (Text × Param)) (o : Option Entries) (build provision : Text)
      → hooks_from regex repr params o ≡ ok (build, provision)
      → (all (is_known params) (placeholders build) ≡ true)
        × (all (is_known params) (placeholders provision) ≡ true)
  unfolding hooks_from
  hooks_from_lem params none build provision h = cc
  hooks_from_lem params (some es) build provision h =
      elim (Bool-cases (has_unknown (hook_names regex repr) es)) [
        | inl unknown ↦ absurd (ground (arith, unknown))
        | inr fine ↦
            let build' = str_if_truthy regex repr (get_key (codes "build") es) in
            let provision' = str_if_truthy regex repr (get_key (codes "provision") es) in
            elim (Bool-cases (all (is_known params) (placeholders build'))) [
              | inr bad ↦ absurd (ground (arith, fine, bad))
              | inl one ↦ elim (Bool-cases (all (is_known params) (placeholders provision'))) [
                | inr bad ↦ absurd (ground (arith, fine, one, bad))
                | inl two ↦ (ground (arith, fine, one, two), ground (arith, fine, one, two))
              ]
            ]
      ]

  parse_hooks_lem :
      (params : List (Text × Param)) (raw : Option Node) (build provision : Text)
      → parse_hooks regex repr params raw ≡ ok (build, provision)
      → (all (is_known params) (placeholders build) ≡ true)
        × (all (is_known params) (placeholders provision) ≡ true)
  unfolding parse_hooks check_placeholders
  parse_hooks_lem params raw build provision h =
      hooks_from_lem params (or_mapping raw) build provision h

  ttl_from-legible :
      (raw : Option Entries) (ttl : Option Text)
      → ttl_from regex repr raw ≡ ok ttl
      → (t : Option ℕ) × (parse_ttl ttl ≡ ok t)
  unfolding ttl_from legible
  ttl_from-legible none ttl h = cc
  ttl_from-legible (some es) ttl h = elim (Bool-cases (has_unknown (codes "ttl" ∷ []) es)) [
    | inl unknown ↦ absurd (ground (arith, unknown))
    | inr fine ↦
        let ttl' = str_unless_null regex repr (get_key (codes "ttl") es) in
        elim (Result-cases (parse_ttl ttl')) [
          | inr (e, bad) ↦ absurd (ground (arith, fine, bad))
          | inl (t, good) ↦
              let same : ttl' ≡ ttl = ground (arith, fine, good) in
              (t, ap parse_ttl (sym same) ∙ good)
        ]
  ]

  expose_from-HasPort :
      (raw : Option Entries) (expose : List (Text × ℕ))
      → expose_from regex repr raw ≡ ok expose
      → All HasPort expose
  unfolding expose_from
  expose_from-HasPort none expose h = cc
  expose_from-HasPort (some es) expose h = parse_expose-HasPort es [] expose h tt

  -- A template that is accepted has parameters whose defaults they accept, and none that is both
  -- required and given; its hooks name declared parameters and built-ins alone; its ports lie between
  -- 1 and 65535; and its lifetime is legible.
  pub parse_template_config-IsValid :
      (data_ : Node) (p : Parsed) → parse_template_config regex repr data_ ≡ ok p → IsAccepted p
  unfolding parse_template_config parse_named
  parse_template_config-IsValid data_ p h = elim (Option-cases (as_mapping data_)) [
    | inl none_ ↦ absurd (ground (arith, none_))
    | inr (es, found) ↦ elim (Option-cases (get_key (codes "name") es)) [
      | inl unnamed ↦ absurd (ground (arith, found, unnamed))
      | inr (name, named) ↦
          elim (Result-cases (parse_params regex repr (get_key (codes "params") es))) [
            | inr (e, bad) ↦ absurd (ground (arith, found, named, bad))
            | inl (params, one) ↦
                elim (Result-cases (parse_hooks regex repr params (get_key (codes "hooks") es))) [
                  | inr (e, bad) ↦ absurd (ground (arith, found, named, one, bad))
                  | inl ((build, provision), two) ↦
                      let raw_expose = or_mapping (get_key (codes "expose") es) in
                      elim (Result-cases (expose_from regex repr raw_expose)) [
                        | inr (e, bad) ↦ absurd (ground (arith, found, named, one, two, bad))
                        | inl (expose, three) ↦
                            let raw_ttl = or_mapping (get_key (codes "defaults") es) in
                            elim (Result-cases (ttl_from regex repr raw_ttl)) [
                              | inr (e, bad) ↦
                                  absurd (ground (arith, found, named, one, two, three, bad))
                              | inl (ttl, four) ↦
                                  let same : parsed regex repr name (get_key (codes "image") es)
                                        params (build, provision) expose ttl
                                      ≡ p =
                                    ok-injective
                                      (sym (rw (found, named, one, two, three, four)) ∙ h) in
                                  subst IsAccepted same (
                                    parse_params-IsSound regex repr (get_key (codes "params") es)
                                        params one,
                                    (parse_hooks_lem params (get_key (codes "hooks") es) build
                                        provision two).0,
                                    (parse_hooks_lem params (get_key (codes "hooks") es) build
                                        provision two).1,
                                    expose_from-HasPort raw_expose expose three,
                                    ttl_from-legible raw_ttl ttl four,
                                  )
                            ]
                      ]
                ]
          ]
    ]
  ]
