-- ===== src/Config/Tests.antt =====
-- A small template, and the theorems about templates at concrete inputs.
use cawl.Config.Yaml.{scalar, Entries, Node, string, number, get_key, has_unknown, str_scalar}
use cawl.Config.Valid.{IsAccepted, parse_template_config-IsValid}
use cawl.Params.{Param, resolve, check_names, resolve_params, check}
use cawl.Config.{
  Parsed, parse_template_config, parse_named, mapping, entry, parse_params, parse_entries,
  no_entries, parse_param, items_or_none, with_default, parse_hooks, hooks_from, check_placeholders,
  expose_from, parse_expose, ttl_from, legible,
}
use cawl.Prelude.{
  Text, Bool, [], codes, some, true, false, none, ◌∷◌, lookup, put, ◌==◌, ◌≡◌, ok, refl,
}
use cawl.Params.Patterns.{name_matches, value_matches, span, run_then_end, at_end}
use cawl.Naming.Labels.{validate_expose_key, normalize, strip, drop_while, drop_while_end}
use cawl.Params.Templates.{placeholders, pieces, names_of, scan, match_placeholder}
use cawl.Naming.Lifetimes.{parse_ttl}
use cawl.Params.Templates.{render}
use cawl.Control.Jobs.{values_with}
use cawl.Control.Tests.{vms}
use cawl.Config.Renders.{render-accepted}

abbrev no_regex : Text → Text → Bool
no_regex pattern value = true

abbrev no_repr : Node → Text
no_repr x = []

abbrev branch_spec : Node
branch_spec = mapping (entry (string (codes "default")) (scalar (string (codes "main"))) no_entries)

abbrev hook_nodes : Entries
hook_nodes =
    entry (string (codes "provision")) (scalar (string (codes "git checkout {{branch}}")))
      no_entries

abbrev web_template : Node
web_template = mapping (
    entry (string (codes "name")) (scalar (string (codes "web"))) (
      entry (string (codes "params"))
        (mapping (entry (string (codes "branch")) branch_spec no_entries))
        (entry (string (codes "hooks")) (mapping hook_nodes) (
          entry (string (codes "expose"))
            (mapping (entry (string (codes "web")) (scalar (number 80)) no_entries)) no_entries))))

abbrev branch : Param
branch = record {
  name = codes "branch";
  default = some (codes "main");
  required = false;
  choices = [];
  pattern = [];
}

abbrev web_parsed : Parsed
web_parsed = record {
  name = scalar (string (codes "web"));
  image = none;
  params = (codes "branch", branch) ∷ [];
  build = [];
  provision = codes "git checkout {{branch}}";
  expose = (codes "web", 80) ∷ [];
  ttl = none;
}

web_template_run : parse_template_config no_regex no_repr web_template ≡ ok web_parsed
unfolding parse_template_config parse_named parse_params parse_entries parse_param items_or_none
    with_default check parse_hooks hooks_from check_placeholders expose_from parse_expose ttl_from
    legible get_key has_unknown str_scalar validate_expose_key normalize strip drop_while
    drop_while_end placeholders pieces names_of scan match_placeholder span value_matches
    run_then_end at_end parse_ttl put lookup ◌==◌
web_template_run = refl

parse_template_config-IsValid_example : IsAccepted no_regex no_repr web_parsed
parse_template_config-IsValid_example =
    parse_template_config-IsValid no_regex no_repr web_template web_parsed web_template_run

render-accepted_example :
    (t : Text) × (render
        (codes "git checkout {{branch}}")
        (values_with vms (codes "web-1") (codes "web") ((codes "branch", codes "dev") ∷ []))
      ≡ ok t)
unfolding resolve check_names resolve_params check name_matches value_matches run_then_end at_end
    span lookup ◌==◌
render-accepted_example =
    render-accepted vms no_regex no_repr web_template web_parsed
      ((codes "branch", codes "dev") ∷ []) ((codes "branch", codes "dev") ∷ []) (codes "web-1")
      (codes "web") web_template_run refl refl
