-- ===== src/Web/Endpoints/Pinned.antt =====
-- That an environment starts again as what it was launched from.
use cawl.Prelude.{
  Bool, Text, List, if◌then◌else◌, ℕ, some, ◌≡◌, true, false, refl, Option-cases, inl, ◌∙◌, sym,
  ◌==◌, inr, Bool-cases,
}
use cawl.Web.Endpoints.{Deployment, config_of_row, pinned_config, config_of}
use cawl.Web.Templates.{
  Registry, Template, TemplateVersion, config_for_environment, find_template, find_version, publish,
  load_template_config_text, new_template, updated,
}
use cawl.Web.Tokens.{User}
use cawl.Store.Tables.{Row}
use cawl.Web.Templates.Handles.{IsCurrent, find_template-name, find_template-append}
use cawl.Web.Templates.Versions.{publish-kept}
use cawl.Web.Templates.History.{
  publish-new, fresh_new, publish-next, fresh_next, saved, publish-refused,
}

if_some : {A : Type 0} (c : Bool) (a b : A) → (v : A) × ((if c then some a else some b) ≡ some v)
if_some true a b = (a, refl)
if_some false a b = (b, refl)

taken-publish :
    (name owner yaml params by : Text) (now : ℕ) (reg : Registry) (n : Text) (t : Template)
    → IsCurrent reg
    → find_template n reg.templates ≡ some t
    → (u : Template) × (find_template n (publish name owner yaml params by now reg).1.templates
        ≡ some u)
taken-publish name owner yaml params by now reg n t current taken =
    elim (Option-cases (find_template name reg.templates)) [
      | inl free ↦
          let new = new_template name owner yaml params now in
          rw
            (
              publish-new name owner yaml params by now reg free (fresh_new name reg current free),
              find_template-append n reg.templates new free,
              taken,
            )
            (if_some (name == n) new t)
      | inr (old, there) ↦ elim (Bool-cases (old.owner == owner)) [
        | inl own ↦
            let u = updated old yaml params now in
            rw
              (
                publish-next name owner yaml params by now reg old there own
                    (fresh_next name reg old current there),
                saved name reg old u n there (find_template-name name reg.templates old there),
                taken,
              )
              (if_some (name == n) u t)
        | inr other ↦
            rw (publish-refused name owner yaml params by now reg old there other) (t, taken)
      ]
    ]

module _ {X : Type 0} (deployment : Deployment X) (users : List User) where
  config_of_row-pinned :
      (r : Row) (sid : Text) (reg : Registry) (t : Template) (row : TemplateVersion)
      → find_template r.template reg.templates ≡ some t
      → find_version r.template r.template_version reg.versions ≡ some row
      → config_of_row deployment users (some r) sid reg
        ≡ config_of deployment users (
            load_template_config_text deployment.safe_load deployment.plane.regex deployment.repr
              row.raw_yaml)
  unfolding config_of_row pinned_config config_for_environment
  config_of_row-pinned r sid reg t row taken pinned =
      rw (taken, find_template-name r.template reg.templates t taken, pinned) refl

  -- Publishing, of whatever and by whom, does not change the config that an environment starts
  -- from, as long as the version that it was launched from has its row.
  pub config_of_row-publish :
      (name owner yaml params by : Text) (now : ℕ) (reg : Registry) (r : Row) (sid : Text)
      (t : Template) (row : TemplateVersion)
      → IsCurrent reg
      → find_template r.template reg.templates ≡ some t
      → find_version r.template r.template_version reg.versions ≡ some row
      → config_of_row deployment users (some r) sid (publish name owner yaml params by now reg).1
        ≡ config_of_row deployment users (some r) sid reg
  config_of_row-publish name owner yaml params by now reg r sid t row current taken pinned =
      let (u, still) = taken-publish name owner yaml params by now reg r.template t current taken in
      config_of_row-pinned r sid (publish name owner yaml params by now reg).1 u row still
        (publish-kept name owner yaml params by now reg r.template r.template_version row pinned)
      ∙ sym (config_of_row-pinned r sid reg t row taken pinned)
