-- ===== src/Web/Templates/Handles.antt =====
-- What a handle of the registry holds, and what the tables say of one handle after a write.
use cawl.Prelude.{
  Option, Text, List, all, ℕ, some, ◌≡◌, ◌++◌, Bool, if◌then◌else◌, none, true, ◌∷◌, ◌<◌, ◌==◌,
  Bool-cases, [], not, ◌≤◌, and_true, arith, inr, ◌||◌, eq_iff, leb, sym, refl, ◌∙◌, inl, ap,
}
use cawl.Web.Templates.{Registry, find_template, find_version, Template, save, TemplateVersion}

abbrev pub owner_of : Option Template → Option Text
owner_of none = none
owner_of (some t) = some t.owner

unfoldable pub bodies : Text → List TemplateVersion → List Text
bodies name [] = []
bodies name (r ∷ rs) = if r.template == name then r.raw_yaml ∷ bodies name rs else bodies name rs

-- The owner of a handle, where it is taken, and the bodies of its versions, the oldest first.
abbrev pub history : Text → Registry → Option Text × List Text
history name reg = (owner_of (find_template name reg.templates), bodies name reg.versions)

-- What publishing is to do to a handle.
abbrev pub next : Text → Text → Option Text × List Text → Option Text × List Text
next owner yaml (none, log) = (some owner, log ++ (yaml ∷ []))
next owner yaml (some o, log) = if o == owner then (some o, log ++ (yaml ∷ [])) else (some o, log)

abbrev pub top : Option Template → ℕ
top none = 0
top (some t) = t.version

abbrev pub within : Text → ℕ → TemplateVersion → Bool
within name b r = not (r.template == name) || leb r.version b

-- No handle has a version beyond the current one.
pub record IsCurrent (reg : Registry) : Type 0 where
  pub bounded :
      (name : Text) → all (within name (top (find_template name reg.templates))) reg.versions ≡ true

pub find_version-beyond :
    (name : Text) (b v : ℕ) (rs : List TemplateVersion)
    → all (within name b) rs ≡ true
    → b < v
    → find_version name v rs ≡ none
unfolding find_version
find_version-beyond name b v [] h lt = refl
find_version-beyond name b v (r ∷ rs) h lt =
    let (one, others) = and_true (within name b r) (all (within name b) rs) h in
    ground (arith, one, find_version-beyond name b v rs others lt)

pub all-within-append :
    (name : Text) (b c : ℕ) (rs : List TemplateVersion) (row : TemplateVersion)
    → all (within name b) rs ≡ true
    → b ≤ c
    → within name c row ≡ true
    → all (within name c) (rs ++ (row ∷ [])) ≡ true
all-within-append name b c [] row h le w = rw w refl
all-within-append name b c (r ∷ rs) row h le w =
    let (one, others) = and_true (within name b r) (all (within name b) rs) h in
    let wider : within name c r ≡ true = ground (arith, one) in
    rw (wider, all-within-append name b c rs row others le w) refl

pub bodies-append :
    (name : Text) (rs : List TemplateVersion) (row : TemplateVersion)
    → bodies name (rs ++ (row ∷ []))
      ≡ (if row.template == name then bodies name rs ++ (row.raw_yaml ∷ []) else bodies name rs)
unfolding bodies
bodies-append name [] row = ground (arith)
bodies-append name (r ∷ rs) row = ground (arith, bodies-append name rs row)

pub find_template-append :
    (name : Text) (ts : List Template) (t : Template)
    → find_template t.name ts ≡ none
    → find_template name (ts ++ (t ∷ []))
      ≡ (if t.name == name then some t else find_template name ts)
unfolding find_template
find_template-append name [] t free = refl
find_template-append name (u ∷ ts) t free = ground (
  arith,
  find_template-append name ts t,
  eq_iff u.name t.name,
  eq_iff u.name name,
  eq_iff t.name name,
)

pub find_template-save :
    (name : Text) (ts : List Template) (t old : Template)
    → find_template t.name ts ≡ some old
    → find_template name (save t ts) ≡ (if t.name == name then some t else find_template name ts)
unfolding find_template save
find_template-save name [] t old taken = cc
find_template-save name (u ∷ ts) t old taken = ground (
  arith,
  find_template-save name ts t old,
  eq_iff u.name t.name,
  eq_iff u.name name,
  eq_iff t.name name,
)

pub find_template-name :
    (name : Text) (ts : List Template) (t : Template)
    → find_template name ts ≡ some t
    → t.name ≡ name
unfolding find_template
find_template-name name [] t h = cc
find_template-name name (u ∷ ts) t h = elim (Bool-cases (u.name == name)) [
  | inr other ↦ find_template-name name ts t (sym (rw other) ∙ h)
  | inl same ↦
      let one : u ≡ t = ground (arith, same) in
      sym (ap (λ (x : Template). x.name) one) ∙ (eq_iff u.name name).0 same
]
