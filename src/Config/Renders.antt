-- ===== src/Config/Renders.antt =====
-- Hooks that render: an accepted template against the arguments that it resolves.
use cawl.Prelude.{
  [], and_true, Bool-cases, true, all, ok, sym, ◌∙◌, refl, inl, inr, Option, Text, Bool, List,
  Result, false, ◌||◌, some, ◌≡◌, ok, true, all, none, ◌∷◌, err, lookup, sym, and_true, Bool-cases,
  refl, ◌==◌, inl, inr, ◌∙◌, Option-cases, arith, ◌++◌, codes, lookup-select, not, ltb, length,
  Result-cases,
}
use cawl.Params.{
  resolve_params, Param, resolve_one, with_value, check, resolve, max_args, check_names,
}
use cawl.Errors.{Error}
use cawl.Config.{is_found, is_known, Parsed, parse_template_config}
use cawl.Config.Valid.{ok-injective, parse_template_config-IsValid}
use cawl.Params.Templates.{render, with_exports}
use cawl.Params.Templates.{
  substitute, names_of, placeholders, Piece, blank_text, literal, quote, pieces, placeholder,
}
use cawl.Control.Plane.{Plane}
use cawl.Control.Jobs.{or_arg, values_with, is_builtin}
use cawl.Config.Yaml.{Node}

abbrev is_given : Option Text → Bool
is_given none = false
is_given (some t) = true

-- A parameter that has a value whatever is supplied, or must be supplied.
abbrev has_value : Text × Param → Bool
has_value (name, p) = p.required || is_given p.default

with_value_lem :
    (regex : Text → Text → Bool) (name : Text) (v : Result Error Text)
    (rest : Result Error (List (Text × Text))) (vs : List (Text × Text))
    → with_value regex name v rest ≡ ok vs
    → (w : Text) × (ws : List (Text × Text)) × (rest ≡ ok ws) × (vs ≡ (name, w) ∷ ws)
with_value_lem regex name (err e) rest vs h = cc
with_value_lem regex name (ok v) (err e) vs h = cc
with_value_lem regex name (ok v) (ok ws) vs h = (v, ws, refl, sym (ok-injective h))

resolve_one_lem :
    (regex : Text → Text → Bool) (name : Text) (p : Param) (v d : Option Text) (required : Bool)
    (rest : Result Error (List (Text × Text))) (vs : List (Text × Text))
    → resolve_one regex name p v d required rest ≡ ok vs
    → (required || is_given d) ≡ true
    → (w : Text) × (ws : List (Text × Text)) × (rest ≡ ok ws) × (vs ≡ (name, w) ∷ ws)
resolve_one_lem regex name p (some v) d required rest vs h t =
    with_value_lem regex name (check regex p v) rest vs h
resolve_one_lem regex name p none (some d) required rest vs h t =
    with_value_lem regex name (check regex p d) rest vs h
resolve_one_lem regex name p none none true rest vs h t = cc
resolve_one_lem regex name p none none false rest vs h t = cc

resolve_params-found :
    (regex : Text → Text → Bool) (params : List (Text × Param)) (supplied vs : List (Text × Text))
    (name : Text)
    → resolve_params regex params supplied ≡ ok vs
    → all has_value params ≡ true
    → is_found (lookup name params) ≡ true
    → is_given (lookup name vs) ≡ true
unfolding resolve_params lookup
resolve_params-found regex [] supplied vs name h a found = cc
resolve_params-found regex ((n, p) ∷ ps) supplied vs name h a found =
    let (one, others) = and_true (has_value (n, p)) (all has_value ps) a in
    let (w, ws, rest, same) =
      resolve_one_lem regex n p (lookup n supplied) p.default p.required
        (resolve_params regex ps supplied) vs h one in
    elim (Bool-cases (n == name)) [
      | inl this ↦ rw (same, this) refl
      | inr other ↦
          rw (same, other)
            (resolve_params-found regex ps supplied ws name rest others (sym (rw other) ∙ found))
    ]

resolve-ok :
    (regex : Text → Text → Bool) (params : List (Text × Param)) (supplied args : List (Text × Text))
    → resolve regex params supplied ≡ ok args
    → resolve_params regex params supplied ≡ ok args
unfolding resolve
resolve-ok regex params supplied args h = elim (Bool-cases (ltb (max_args) (length supplied))) [
  | inl many ↦ absurd (ground (arith, many))
  | inr few ↦ elim (Result-cases (check_names regex params supplied)) [
    | inr (e, bad) ↦ absurd (ground (arith, few, bad))
    | inl (u, good) ↦ sym (rw (few, good)) ∙ h
  ]
]

substitute-placeholder :
    (f : Text → Text) (values : List (Text × Text)) (n : Text) (ps : List Piece) (v t : Text)
    → lookup n values ≡ some v
    → substitute f values ps ≡ ok t
    → substitute f values (placeholder n ∷ ps) ≡ ok (f v ++ t)
unfolding substitute
substitute-placeholder f values n ps v t there rest = ground (arith, there, rest)

render-text :
    (script t : Text) (values : List (Text × Text))
    → blank_text script ≡ false
    → substitute quote values (pieces script) ≡ ok t
    → render script values ≡ with_exports values (ok t)
unfolding render
render-text script t values text body = rw (text, body) refl

substitute-total :
    (f : Text → Text) (values : List (Text × Text)) (ps : List Piece)
    → all (λ n. is_given (lookup n values)) (names_of ps) ≡ true
    → (t : Text) × (substitute f values ps ≡ ok t)
unfolding substitute names_of
substitute-total f values [] h = ([], refl)
substitute-total f values (literal c ∷ ps) h =
    let (t, rest) = substitute-total f values ps h in (c ∷ t, rw rest refl)
substitute-total f values (placeholder n ∷ ps) h =
    let (one, others) =
      and_true (is_given (lookup n values)) (all (λ n. is_given (lookup n values)) (names_of ps))
        h in
    let (t, rest) = substitute-total f values ps others in
    elim (Option-cases (lookup n values)) [
      | inl missing ↦ absurd (ground (arith, missing))
      | inr (v, there) ↦ (f v ++ t, substitute-placeholder f values n ps v t there rest)
    ]

render-total :
    (script : Text) (values : List (Text × Text))
    → all (λ n. is_given (lookup n values)) (placeholders script) ≡ true
    → (t : Text) × (render script values ≡ ok t)
unfolding render placeholders
render-total script values h = elim (Bool-cases (blank_text script)) [
  | inl blank ↦ ([], rw blank refl)
  | inr text ↦
      let (t, body) = substitute-total quote values (pieces script) h in
      (_, render-text script t values text body)
]

all-imp :
    (p q : Text → Bool) (names : List Text)
    → ((name : Text) → p name ≡ true → q name ≡ true)
    → all p names ≡ true
    → all q names ≡ true
all-imp p q [] h a = refl
all-imp p q (n ∷ ns) h a =
    let (one, others) = and_true (p n) (all p ns) a in rw (h n one, all-imp p q ns h others) refl

module _ {X : Type 0} (plane : Plane X) where
  or_arg-name :
      (name own : Text) (args : List (Text × Text))
      → (w : Text) × (or_arg plane name args own ≡ (name, w))
  or_arg-name name own args = elim (Option-cases (lookup name args)) [
    | inl none_ ↦ (own, rw (or_arg, none_) refl)
    | inr (v, some_) ↦ (v, rw (or_arg, some_) refl)
  ]

  values_with-found :
      (id template : Text) (args : List (Text × Text)) (params : List (Text × Param))
      → ((n : Text) → is_found (lookup n params) ≡ true → is_given (lookup n args) ≡ true)
      → (name : Text) → is_known params name ≡ true
      → is_given (lookup name (values_with plane id template args)) ≡ true
  unfolding lookup
  values_with-found id template args params h name known =
      let (v, first) = or_arg-name (codes "id") id args in
      let (w, second) = or_arg-name (codes "template") template args in
      elim (Bool-cases (codes "id" == name)) [
        | inl here ↦ rw (first, here) refl
        | inr apart ↦ elim (Bool-cases (codes "template" == name)) [
          | inl here ↦ rw (first, second, apart, here) refl
          | inr away ↦
              let declared : is_found (lookup name params) ≡ true =
                ground (arith, known, apart, away) in
              let given = h name declared in
              elim (Option-cases (lookup name args)) [
                | inl missing ↦ absurd (ground (arith, missing, given))
                | inr (u, there) ↦
                    rw
                      (
                        first,
                        second,
                        apart,
                        away,
                        lookup-select (λ a. not (is_builtin plane a)) name args there
                            (ground (arith, apart, away)),
                      )
                      refl
              ]
        ]
      ]

  -- Where every declared parameter is required or has a default, the provision hook of an accepted
  -- template renders, for whatever arguments resolve.
  pub render-accepted :
      (regex : Text → Text → Bool) (repr : Node → Text) (data_ : Node) (p : Parsed)
      (supplied args : List (Text × Text)) (id name : Text)
      → parse_template_config regex repr data_ ≡ ok p
      → all has_value p.params ≡ true
      → resolve regex p.params supplied ≡ ok args
      → (t : Text) × (render p.provision (values_with plane id name args) ≡ ok t)
  render-accepted regex repr data_ p supplied args id name accepted valued resolved =
      render-total p.provision (values_with plane id name args) (
        all-imp (is_known p.params) (λ n. is_given (lookup n (values_with plane id name args)))
          (placeholders p.provision)
          (values_with-found id name args p.params (λ n found.
            resolve_params-found regex p.params supplied args n
              (resolve-ok regex p.params supplied args resolved) valued found))
          (parse_template_config-IsValid regex repr data_ p accepted).2)
