-- ===== src/Web/Templates.antt =====
-- The registry of templates: api.py's operations on it, with `Template` and `TemplateVersion` of
-- models.py and the configs that services.py reads from it.
pub mod Versions
pub mod Handles
pub mod History
use cawl.Prelude.{
  Bool, List, Option, Text, Action, Result, [], none, true, ℕ, ◌∷◌, ◌++◌, false, if◌then◌else◌, map,
  some, suc, ◌||◌, ◌==◌, err, not, ok, ◌&&◌, nat_beq, atomic, contains, raise, select, codes, lift,
  ◌>>◌, ◌>>=◌, modify,
}
use cawl.Auth.{Principal, require_admin, is_admin}
use cawl.Params.Templates.{sort_values}
use cawl.Params.{Param}
use cawl.Errors.{Error, integrity_error, not_found, permission_denied, name_conflict, config_error}
use cawl.Config.Yaml.{scalar, null, Node}
use cawl.Config.{Parsed, parse_template_config, str}

pub record Template : Type 0 where
  pub name : Text
  -- blank for a global template
  pub owner : Text
  pub raw_yaml : Text
  pub params : Text
  pub version : ℕ
  pub active : Bool
  pub created_at : ℕ
  pub updated_at : ℕ

pub record TemplateVersion : Type 0 where
  pub template : Text
  pub version : ℕ
  pub raw_yaml : Text
  pub params : Text
  pub created_at : ℕ
  pub created_by : Text

pub record Registry : Type 0 where
  pub templates : List Template
  pub versions : List TemplateVersion
  pub locks : List Text

pub data Scope : Type 0 where
  personal global_ : Scope

unfoldable pub find_template : Text → List Template → Option Template
find_template name [] = none
find_template name (t ∷ ts) = if t.name == name then some t else find_template name ts

unfoldable pub find_version : Text → ℕ → List TemplateVersion → Option TemplateVersion
find_version name v [] = none
find_version name v (r ∷ rs) =
    if (r.template == name) && nat_beq r.version v then some r else find_version name v rs

-- `tmpl.save()`
unfoldable pub save : Template → List Template → List Template
save tmpl [] = []
save tmpl (t ∷ ts) = if t.name == tmpl.name then tmpl ∷ ts else t ∷ save tmpl ts

-- `visible_templates`, and one of them by its name.
abbrev pub is_visible : Principal → Template → Bool
is_visible principal t = is_admin principal || t.owner == [] || t.owner == principal.id

abbrev pub has_activity : Option Bool → Template → Bool
has_activity none t = true
has_activity (some active) t = if active then t.active else not t.active

abbrev visible_one : Option Template → Text → Principal → Option Bool → Result Error Template
visible_one none name principal active = err (not_found name)
visible_one (some t) name principal active =
    if is_visible principal t && has_activity active t then ok t else err (not_found name)

unfoldable pub accessible_template :
    Text → Principal → Option Bool → Registry → Result Error Template
unfolding find_template
accessible_template name principal active reg =
    visible_one (find_template name reg.templates) name principal active

-- `require_template_owner`
abbrev pub require_template_owner : Template → Principal → Result Error (Unit {0})
require_template_owner t principal =
    if not (is_admin principal) && not (t.owner == principal.id)
    then err (permission_denied principal.id)
    else ok tt

-- `",".join(sorted(params))`
unfoldable pub join_keys : List (Text × Text) → Text
join_keys [] = []
join_keys ((k, v) ∷ []) = k
join_keys ((k, v) ∷ e ∷ es) = k ++ (b',' ∷ join_keys (e ∷ es))

unfoldable pub param_names : List (Text × Param) → Text
unfolding sort_values join_keys
param_names params = join_keys (sort_values (map (λ (e : Text × Param). (e.0, [])) params))

abbrev pub owner_for : Bool → Principal → Text
owner_for true principal = []
owner_for false principal = principal.id

abbrev pub is_global : Option Scope → Principal → Bool
is_global none principal = is_admin principal
is_global (some personal) principal = false
is_global (some global_) principal = true

unfoldable pub may_publish : Bool → Principal → Result Error (Unit {0})
unfolding require_admin
may_publish true principal = require_admin principal
may_publish false principal = ok tt

abbrev pub version_row : Template → Text → Text → Text → ℕ → TemplateVersion
version_row t yaml params by now = record {
  template = t.name;
  version = t.version;
  raw_yaml = yaml;
  params = params;
  created_at = now;
  created_by = by;
}

-- `TemplateVersion.objects.create`: a version of a template has one row.
abbrev insert_version :
    Option TemplateVersion → TemplateVersion → Template → Action Registry Error Template
insert_version (some r) row t reg = (err (integrity_error t.name), reg)
insert_version none row t reg = (ok t, record reg { versions = reg.versions ++ (row ∷ []) })

unfoldable pub add_version : Text → Text → Text → ℕ → Template → Action Registry Error Template
unfolding find_version
add_version yaml params by now t reg =
    insert_version (find_version t.name t.version reg.versions) (version_row t yaml params by now) t
      reg

abbrev pub new_template : Text → Text → Text → Text → ℕ → Template
new_template name owner yaml params now = record {
  name = name;
  owner = owner;
  raw_yaml = yaml;
  params = params;
  version = 1;
  active = true;
  created_at = now;
  updated_at = now;
}

abbrev pub updated : Template → Text → Text → ℕ → Template
updated t yaml params now = record t {
  version = suc t.version;
  raw_yaml = yaml;
  params = params;
  active = true;
  updated_at = now;
}

-- `TemplateNameLock.objects.get_or_create(name=…)`
abbrev pub lock_name : Text → Registry → Registry
lock_name name reg = record reg {
  locks = if contains reg.locks name then reg.locks else name ∷ reg.locks;
}

unfoldable pub create_new : Text → Text → Text → Text → Text → ℕ → Action Registry Error Template
unfolding add_version
create_new name owner yaml params by now reg =
    let t = new_template name owner yaml params now in
    add_version yaml params by now t (record reg { templates = reg.templates ++ (t ∷ []) })

unfoldable pub create_next : Template → Text → Text → Text → ℕ → Action Registry Error Template
unfolding add_version save
create_next old yaml params by now reg =
    let t = updated old yaml params now in
    add_version yaml params by now t (record reg { templates = save t reg.templates })

unfoldable pub publish_over :
    Option Template → Text → Text → Text → Text → Text → ℕ → Action Registry Error Template
unfolding create_new create_next
publish_over none name owner yaml params by now = create_new name owner yaml params by now
publish_over (some t) name owner yaml params by now =
    if t.owner == owner then create_next t yaml params by now else raise (name_conflict name)

-- `except IntegrityError: raise NameConflict`
abbrev conflict_of : Text → Error → Error
conflict_of name (integrity_error e) = name_conflict name
conflict_of name e = e

abbrev pub as_conflict : Text → Result Error Template × Registry → Result Error Template × Registry
as_conflict name (err e, reg) = (err (conflict_of name e), reg)
as_conflict name (ok t, reg) = (ok t, reg)

-- The transaction of `create_template`.
unfoldable pub publish : Text → Text → Text → Text → Text → ℕ → Action Registry Error Template
unfolding find_template publish_over
publish name owner yaml params by now reg = as_conflict name (
    atomic
      (λ (s : Registry).
        publish_over (find_template name s.templates) name owner yaml params by now
          (lock_name name s))
      reg)

-- What a text column holds of a value; there is no row without a name.
abbrev pub name_column : (Node → Text) → Node → Option Text
name_column text_of (scalar null) = none
name_column text_of x = some (text_of x)

module _ (safe_load : Text → Result Error Node) (regex : Text → Text → Bool)
    (repr : Node → Text) where
  unfoldable pub parse_loaded : Result Error Node → Result Error Parsed
  unfolding parse_template_config
  parse_loaded (err e) = err (config_error (codes "YAML"))
  parse_loaded (ok data_) = parse_template_config regex repr data_

  -- `load_template_config_text`
  unfoldable pub load_template_config_text : Text → Result Error Parsed
  unfolding parse_loaded
  load_template_config_text text = parse_loaded (safe_load text)

  unfoldable pub publish_named :
      Option Text → Text → Text → Text → Text → ℕ → Action Registry Error Template
  unfolding publish
  publish_named none owner yaml params by now = raise (name_conflict (codes "None"))
  publish_named (some name) owner yaml params by now = publish name owner yaml params by now

  -- `create_template`
  unfoldable pub create_template :
      Principal → Option Scope → Text → ℕ → Action Registry Error Template
  unfolding may_publish load_template_config_text param_names publish_named
  create_template principal scope yaml now =
      lift (may_publish (is_global scope principal) principal)
      >> (lift (load_template_config_text yaml) >>= λ cfg.
          publish_named (name_column (str regex repr) cfg.name)
            (owner_for (is_global scope principal) principal) yaml (param_names cfg.params)
            principal.id now)

  -- `config_for` and `config_for_environment`: the version that the environment was launched from, or
  -- the template as it is where that version has no row.
  abbrev pub pinned_yaml : Option TemplateVersion → Template → Text
  pinned_yaml none t = t.raw_yaml
  pinned_yaml (some r) t = r.raw_yaml

  unfoldable pub config_for : Template → Result Error Parsed
  unfolding load_template_config_text
  config_for t = load_template_config_text t.raw_yaml

  unfoldable pub config_for_environment : Template → ℕ → Registry → Result Error Parsed
  unfolding load_template_config_text find_version
  config_for_environment t version reg =
      load_template_config_text (pinned_yaml (find_version t.name version reg.versions) t)

-- `list_templates`, before its order, and `get_template`.
unfoldable pub list_templates : Principal → Option Bool → Registry → List Template
list_templates principal active reg =
    select (λ t. is_visible principal t && has_activity active t) reg.templates

-- `delete_template`: the rows stay, since environments refer to them.
abbrev deactivated : ℕ → Template → Template
deactivated now t = record t { active = false; updated_at = now }

unfoldable pub delete_found :
    Result Error Template → Principal → ℕ → Action Registry Error (Unit {0})
unfolding save
delete_found (err e) principal now = raise e
delete_found (ok t) principal now =
    lift (require_template_owner t principal)
    >> modify (λ reg. record reg { templates = save (deactivated now t) reg.templates })

unfoldable pub delete_template : Text → Principal → ℕ → Action Registry Error (Unit {0})
unfolding accessible_template delete_found
delete_template name principal now reg =
    delete_found (accessible_template name principal none reg) principal now reg
