-- ===== src/Config.antt =====
-- server/cawl_core/config.py: a template, parsed from its YAML and validated.
pub mod Yaml
pub mod Valid
pub mod Renders
mod Tests
use cawl.Prelude.{
  List, Option, Result, Text, ℕ, Bool, codes, some, [], err, false, if◌then◌else◌, lookup, ltb,
  none, ok, ◌∷◌, ◌&&◌, all, true, ◌||◌, any, contains, put,
}
use cawl.Config.Yaml.{
  null, scalar, no_entries, no_nodes, Node, Entries, Nodes, as_mapping, characters, get_key, number,
  or_mapping, str_scalar, string, Scalar, boolean, has_unknown, is_null, keys, truthy, truthy_at,
  entry, node, sequence, is_key, mapping,
}
use cawl.Params.Templates.{placeholders}
use cawl.Naming.Labels.{validate_expose_key}
use cawl.Errors.{Error, config_error, no_mapping, no_items, no_text}
use cawl.Params.{Param, check}
use cawl.Naming.Lifetimes.{parse_ttl}
use cawl.Control.Plane.{TemplateConfig}

-- `TemplateConfig`, before its name and its image are read as texts: no line checks that they are.
pub record Parsed : Type 0 where
  pub name : Node
  pub image : Option Node
  pub params : List (Text × Param)
  pub build : Text
  pub provision : Text
  pub expose : List (Text × ℕ)
  pub ttl : Option Text

-- What the control plane reads: a name or an image that is no text fails where it is used as one.
abbrev as_string : Node → Result Error Text
as_string (scalar (string s)) = ok s
as_string _ = err no_text

abbrev image_text : Option Node → Result Error Text
image_text none = ok []
image_text (some (scalar null)) = ok []
image_text (some x) = as_string x

abbrev with_texts : Parsed → Result Error Text → Result Error Text → Result Error TemplateConfig
with_texts p (err e) image = err e
with_texts p (ok name) (err e) = err e
with_texts p (ok name) (ok image) = ok (record {
  name = name;
  image = image;
  params = p.params;
  build_hook = p.build;
  provision_hook = p.provision;
  expose = p.expose;
  ttl = p.ttl;
})

abbrev pub template_config : Parsed → Result Error TemplateConfig
template_config p = with_texts p (as_string p.name) (image_text p.image)

-- `BUILTINS`
abbrev pub builtins : List Text
builtins = codes "id" ∷ codes "template" ∷ []

-- `_check_placeholders`
abbrev pub is_found : Option Param → Bool
is_found none = false
is_found (some p) = true

abbrev pub is_known : List (Text × Param) → Text → Bool
is_known params name = is_found (lookup name params) || contains builtins name

unfoldable pub check_placeholders : Text → List (Text × Param) → Text → Result Error (Unit {0})
unfolding placeholders
check_placeholders text params where_ =
    if all (is_known params) (placeholders text) then ok tt else err (config_error where_)

-- A port: an integer, and so a Boolean too.
abbrev pub port_of : Node → ℕ
port_of (scalar (number n)) = n
port_of (scalar (boolean true)) = 1
port_of _ = 0

abbrev pub valid_port : ℕ → Bool
valid_port n = ltb 0 n && ltb n 65536

abbrev pub exposed : Result Error Text → Node → List (Text × ℕ) → Result Error (List (Text × ℕ))
exposed (err e) port expose = err (config_error (codes "expose"))
exposed (ok key) port expose =
    if valid_port (port_of port)
    then ok (put key (port_of port) expose)
    else err (config_error (codes "expose"))

abbrev pub bind_result : {A B : Type 0} → Result Error A → (A → Result Error B) → Result Error B
bind_result (err e) f = err e
bind_result (ok a) f = f a

-- The loop over `expose`.
unfoldable pub parse_expose : Entries → List (Text × ℕ) → Result Error (List (Text × ℕ))
unfolding validate_expose_key
parse_expose no_entries expose = ok expose
parse_expose (entry k port es) expose =
    bind_result (exposed (validate_expose_key (str_scalar k)) port expose) (parse_expose es)

module _ (regex : Text → Text → Bool) (repr : Node → Text) where
  -- `str`; of a sequence or a mapping it is `repr`.
  abbrev pub str : Node → Text
  str (scalar s) = str_scalar s
  str x = repr x

  unfoldable pub strs : Nodes → List Text
  strs no_nodes = []
  strs (node x xs) = str x ∷ strs xs

  -- `[str(c) for c in (x or [])]`
  unfoldable pub items : Node → Result Error (List Text)
  unfolding strs characters keys
  items (sequence xs) = ok (strs xs)
  items (mapping es) = ok (keys es)
  items (scalar (string s)) = ok (characters s)
  items (scalar s) = err no_items

  unfoldable pub items_or_none : Option Node → Result Error (List Text)
  items_or_none none = ok []
  items_or_none (some x) = if truthy x then items x else ok []

  -- `str(d.get(key, ""))`, and `str(d.get(key, "") or "")`
  abbrev pub str_or_empty : Option Node → Text
  str_or_empty none = []
  str_or_empty (some x) = str x

  abbrev pub str_if_truthy : Option Node → Text
  str_if_truthy none = []
  str_if_truthy (some x) = if truthy x then str x else []

  abbrev pub str_unless_null : Option Node → Option Text
  str_unless_null o = if is_null o then none else some (str_or_empty o)

  -- A value that is both required and given, or that the parameter would refuse, is no default.
  unfoldable pub with_default : Param → Option Text → Result Error Param
  unfolding check
  with_default p none = ok p
  with_default p (some d) =
      if p.required
      then err (config_error p.name)
      else elim (check regex p d) [ err e ↦ err (config_error p.name) | ok v ↦ ok p ]

  abbrev pub param_with : Text → Entries → List Text → Param
  param_with name spec choices = record {
    name = name;
    default = str_unless_null (get_key (codes "default") spec);
    required = truthy_at (get_key (codes "required") spec);
    choices = choices;
    pattern = str_or_empty (get_key (codes "pattern") spec);
  }

  abbrev pub checked_param : Param → Result Error Param
  checked_param p = with_default p p.default

  abbrev pub param_from : Text → Option Entries → Result Error Param
  param_from name none = err (config_error name)
  param_from name (some spec) =
      bind_result (items_or_none (get_key (codes "choices") spec))
        (λ choices. checked_param (param_with name spec choices))

  unfoldable pub parse_param : Scalar → Node → Result Error Param
  unfolding get_key
  parse_param key spec =
      if any (λ name. is_key name key) builtins
      then err (config_error (str_scalar key))
      else param_from (str_scalar key) (or_mapping (some spec))

  -- The loop of `_parse_params`; an entry of the same name replaces the one before.
  unfoldable pub parse_entries : Entries → List (Text × Param) → Result Error (List (Text × Param))
  unfolding parse_param
  parse_entries no_entries params = ok params
  parse_entries (entry k spec es) params =
      bind_result (parse_param k spec) (λ p. parse_entries es (put p.name p params))

  -- What is neither false nor a mapping has no `items`.
  abbrev pub params_from : Option Entries → Result Error (List (Text × Param))
  params_from none = err no_mapping
  params_from (some es) = parse_entries es []

  unfoldable pub parse_params : Option Node → Result Error (List (Text × Param))
  unfolding parse_entries
  parse_params raw = params_from (or_mapping raw)

  abbrev pub hook_names : List Text
  hook_names = codes "build" ∷ codes "provision" ∷ []

  -- `hooks`: the two scripts, whose placeholders are declared.
  unfoldable pub hooks_from : List (Text × Param) → Option Entries → Result Error (Text × Text)
  unfolding check_placeholders get_key has_unknown
  hooks_from params none = err (config_error (codes "hooks"))
  hooks_from params (some es) =
      let build = str_if_truthy (get_key (codes "build") es) in
      let provision = str_if_truthy (get_key (codes "provision") es) in
      if has_unknown hook_names es
      then err (config_error (codes "hooks"))
      else bind_result (check_placeholders build params (codes "hooks.build")) (λ u.
        bind_result (check_placeholders provision params (codes "hooks.provision"))
          (λ v. ok (build, provision)))

  unfoldable pub parse_hooks : List (Text × Param) → Option Node → Result Error (Text × Text)
  unfolding hooks_from
  parse_hooks params raw = hooks_from params (or_mapping raw)

  unfoldable pub expose_from : Option Entries → Result Error (List (Text × ℕ))
  unfolding parse_expose
  expose_from none = err (config_error (codes "expose"))
  expose_from (some es) = parse_expose es []

  -- `defaults.ttl`, which `parse_ttl` reads without an error.
  unfoldable pub legible : Option Text → Result Error (Option Text)
  unfolding parse_ttl
  legible ttl = elim (parse_ttl ttl) [
    | err e ↦ err (config_error (codes "defaults.ttl"))
    | ok t ↦ ok ttl
  ]

  unfoldable pub ttl_from : Option Entries → Result Error (Option Text)
  unfolding get_key has_unknown
  ttl_from none = err (config_error (codes "defaults"))
  ttl_from (some es) =
      if has_unknown (codes "ttl" ∷ []) es
      then err (config_error (codes "defaults"))
      else legible (str_unless_null (get_key (codes "ttl") es))

  abbrev pub parsed :
      Node
      → Option Node
      → List (Text × Param)
      → Text × Text
      → List (Text × ℕ)
      → Option Text
      → Parsed
  parsed name image params (build, provision) expose ttl = record {
    name = name;
    image = image;
    params = params;
    build = build;
    provision = provision;
    expose = expose;
    ttl = ttl;
  }

  unfoldable pub parse_named : Option Node → Entries → Result Error Parsed
  unfolding get_key parse_params parse_hooks
  parse_named none data_ = err (config_error (codes "name"))
  parse_named (some name) data_ =
      bind_result (parse_params (get_key (codes "params") data_)) (λ params.
        bind_result (parse_hooks params (get_key (codes "hooks") data_)) (λ hooks.
          bind_result (expose_from (or_mapping (get_key (codes "expose") data_))) (λ expose.
            bind_result (ttl_from (or_mapping (get_key (codes "defaults") data_)))
              (λ ttl. ok (parsed name (get_key (codes "image") data_) params hooks expose ttl)))))

  abbrev pub parse_mapping : Option Entries → Result Error Parsed
  parse_mapping none = err (config_error (codes "template.yaml"))
  parse_mapping (some data_) = parse_named (get_key (codes "name") data_) data_

  unfoldable pub parse_template_config : Node → Result Error Parsed
  parse_template_config data_ = parse_mapping (as_mapping data_)
