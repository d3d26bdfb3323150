-- ===== src/Web/Templates/History.antt =====
-- The registry as what it promises: for each handle an owner and a log of bodies that only grows.
use cawl.Prelude.{
  Bool, Text, if◌then◌else◌, ℕ, ◌≡◌, List, true, Option-cases, false, none, some, ◌==◌, inl, refl,
  ◌++◌, err, suc, ap, ok, ◌∷◌, ◌≤◌, Bool-cases, [], all, ◌∙◌, eq_iff, inr, subst, sym, arith,
}
use cawl.Web.Templates.{
  publish, Registry, publish_over, Template, create_new, create_next, find_template,
  TemplateVersion, add_version, find_version, lock_name, save, new_template, updated, version_row,
}
use cawl.Web.Templates.Handles.{
  IsCurrent, history, next, bodies, find_template-save, find_version-beyond, top,
  find_template-name, bodies-append, find_template-append, within, all-within-append,
}
use cawl.Errors.{name_conflict}

-- What publishing leaves of the registry where it goes through.
abbrev grown : Text → Registry → List Template → TemplateVersion → Registry
grown name reg ts row = record (lock_name name reg) {
  templates = ts;
  versions = reg.versions ++ (row ∷ []);
}

pub publish-new :
    (name owner yaml params by : Text) (now : ℕ) (reg : Registry)
    → find_template name reg.templates ≡ none
    → find_version name 1 reg.versions ≡ none
    → let t = new_template name owner yaml params now in
      publish name owner yaml params by now reg
      ≡ (ok t, grown name reg (reg.templates ++ (t ∷ [])) (version_row t yaml params by now))
unfolding publish publish_over create_new add_version
publish-new name owner yaml params by now reg none_ free = rw (none_, free) refl

pub publish-next :
    (name owner yaml params by : Text) (now : ℕ) (reg : Registry) (old : Template)
    → find_template name reg.templates ≡ some old
    → (old.owner == owner) ≡ true
    → find_version old.name (suc old.version) reg.versions ≡ none
    → let t = updated old yaml params now in
      publish name owner yaml params by now reg
      ≡ (ok t, grown name reg (save t reg.templates) (version_row t yaml params by now))
unfolding publish publish_over create_next add_version
publish-next name owner yaml params by now reg old found own free = rw (found, own, free) refl

pub publish-refused :
    (name owner yaml params by : Text) (now : ℕ) (reg : Registry) (old : Template)
    → find_template name reg.templates ≡ some old
    → (old.owner == owner) ≡ false
    → publish name owner yaml params by now reg ≡ (err (name_conflict name), reg)
unfolding publish publish_over
publish-refused name owner yaml params by now reg old found other = rw (found, other) refl

grown-history :
    (name n : Text) (reg : Registry) (ts : List Template) (t : Template) (row : TemplateVersion)
    → find_template n ts ≡ (if name == n then some t else find_template n reg.templates)
    → row.template ≡ name
    → history n (grown name reg ts row) ≡ (
        if name == n
        then (some t.owner, bodies n reg.versions ++ (row.raw_yaml ∷ []))
        else history n reg)
grown-history name n reg ts t row found named = elim (Bool-cases (name == n)) [
  | inl same ↦ rw (found, bodies-append n reg.versions row, named, same) refl
  | inr other ↦ rw (found, bodies-append n reg.versions row, named, other) refl
]

grown-IsCurrent :
    (name : Text) (reg : Registry) (ts : List Template) (t : Template) (row : TemplateVersion)
    → ((n : Text)
        → find_template n ts ≡ (if name == n then some t else find_template n reg.templates))
    → row.template ≡ name
    → row.version ≡ t.version
    → top (find_template name reg.templates) ≤ t.version
    → IsCurrent reg
    → IsCurrent (grown name reg ts row)
grown-IsCurrent name reg ts t row found named newest le current = record {
  bounded = λ n. elim (Bool-cases (name == n)) [
    | inl same ↦
        let one = (eq_iff name n).0 same in
        rw (found n, same)
          (all-within-append n (top (find_template n reg.templates)) t.version reg.versions row
            (current.bounded n)
            (subst (λ m. top (find_template m reg.templates) ≤ t.version) one le)
            (ground (arith, newest)))
    | inr other ↦
        let away : (row.template == n) ≡ false = ap (λ x. x == n) named ∙ other in
        rw (found n, other)
          (all-within-append n (top (find_template n reg.templates))
            (top (find_template n reg.templates)) reg.versions row (current.bounded n) (omega arith)
            (ground (arith, away)))
  ];
}

if_then :
    {A : Type 0} (c : Bool) (a b d : A)
    → (c ≡ true → a ≡ b)
    → (if c then a else d) ≡ (if c then b else d)
if_then true a b d h = h refl
if_then false a b d h = refl

if_either : {A : Type 0} (c : Bool) (a : A) → (if c then a else a) ≡ a
if_either true a = refl
if_either false a = refl

next-free :
    (owner yaml n : Text) (reg : Registry)
    → find_template n reg.templates ≡ none
    → next owner yaml (history n reg) ≡ (some owner, bodies n reg.versions ++ (yaml ∷ []))
next-free owner yaml n reg free = rw (next, free) refl

next-own :
    (owner yaml n : Text) (reg : Registry) (old : Template)
    → find_template n reg.templates ≡ some old
    → (old.owner == owner) ≡ true
    → next owner yaml (history n reg) ≡ (some old.owner, bodies n reg.versions ++ (yaml ∷ []))
next-own owner yaml n reg old taken own = rw (next, taken, own) refl

next-other :
    (owner yaml n : Text) (reg : Registry) (old : Template)
    → find_template n reg.templates ≡ some old
    → (old.owner == owner) ≡ false
    → next owner yaml (history n reg) ≡ history n reg
next-other owner yaml n reg old taken other = rw (next, taken, other) refl

pub fresh_new :
    (name : Text) (reg : Registry)
    → IsCurrent reg
    → find_template name reg.templates ≡ none
    → find_version name 1 reg.versions ≡ none
fresh_new name reg current free =
    find_version-beyond name 0 1 reg.versions
      (ap (λ o. all (within name (top o)) reg.versions) (sym free) ∙ current.bounded name)
      (omega arith)

pub fresh_next :
    (name : Text) (reg : Registry) (old : Template)
    → IsCurrent reg
    → find_template name reg.templates ≡ some old
    → find_version old.name (suc old.version) reg.versions ≡ none
fresh_next name reg old current taken =
    ap (λ m. find_version m (suc old.version) reg.versions)
      (find_template-name name reg.templates old taken)
    ∙ find_version-beyond name old.version (suc old.version) reg.versions
        (ap (λ o. all (within name (top o)) reg.versions) (sym taken) ∙ current.bounded name)
        (omega arith)

pub saved :
    (name : Text) (reg : Registry) (old u : Template) (n : Text)
    → find_template name reg.templates ≡ some old
    → u.name ≡ name
    → find_template n (save u reg.templates)
      ≡ (if name == n then some u else find_template n reg.templates)
saved name reg old u n taken named =
    find_template-save n reg.templates u old (ap (λ m. find_template m reg.templates) named ∙ taken)
    ∙ ap (λ m. if m == n then some u else find_template n reg.templates) named

-- Publishing does to every handle what the log of bodies allows: it appends the new body to the log
-- of a handle that is free or the publisher's own, and changes no other log.
pub publish-history :
    (name owner yaml params by : Text) (now : ℕ) (reg : Registry) (n : Text)
    → IsCurrent reg
    → history n (publish name owner yaml params by now reg).1
      ≡ (if name == n then next owner yaml (history n reg) else history n reg)
publish-history name owner yaml params by now reg n current =
    elim (Option-cases (find_template name reg.templates)) [
      | inl free ↦
          let t = new_template name owner yaml params now in
          rw (publish-new name owner yaml params by now reg free (fresh_new name reg current free))
            (grown-history name n reg (reg.templates ++ (t ∷ [])) t
                (version_row t yaml params by now) (find_template-append n reg.templates t free)
                refl
              ∙ if_then (name == n) _ _ _ (λ same. sym (
                  next-free owner yaml n reg (
                    subst (λ m. find_template m reg.templates ≡ none) ((eq_iff name n).0 same)
                      free))))
      | inr (old, taken) ↦ elim (Bool-cases (old.owner == owner)) [
        | inl own ↦
            let u = updated old yaml params now in
            let is_old = find_template-name name reg.templates old taken in
            rw
              (publish-next name owner yaml params by now reg old taken own
                (fresh_next name reg old current taken))
              (grown-history name n reg (save u reg.templates) u (version_row u yaml params by now)
                  (saved name reg old u n taken is_old) is_old
                ∙ if_then (name == n) _ _ _ (λ same. sym (
                    next-own owner yaml n reg old
                      (subst (λ m. find_template m reg.templates ≡ some old)
                        ((eq_iff name n).0 same) taken)
                      own)))
        | inr other ↦ rw (publish-refused name owner yaml params by now reg old taken other) (
            sym (
              if_then (name == n) _ _ _ (λ same.
                next-other owner yaml n reg old
                  (subst (λ m. find_template m reg.templates ≡ some old) ((eq_iff name n).0 same)
                    taken)
                  other)
              ∙ if_either (name == n) _))
      ]
    ]

-- Publishing keeps the versions of every handle at or below its current one.
publish-IsCurrent :
    (name owner yaml params by : Text) (now : ℕ) (reg : Registry)
    → IsCurrent reg
    → IsCurrent (publish name owner yaml params by now reg).1
publish-IsCurrent name owner yaml params by now reg current =
    elim (Option-cases (find_template name reg.templates)) [
      | inl free ↦
          let t = new_template name owner yaml params now in
          rw (publish-new name owner yaml params by now reg free (fresh_new name reg current free))
            (grown-IsCurrent name reg (reg.templates ++ (t ∷ [])) t
              (version_row t yaml params by now) (λ n. find_template-append n reg.templates t free)
              refl refl (subst (λ o. top o ≤ 1) (sym free) (omega arith)) current)
      | inr (old, taken) ↦ elim (Bool-cases (old.owner == owner)) [
        | inl own ↦
            let u = updated old yaml params now in
            let is_old = find_template-name name reg.templates old taken in
            rw
              (publish-next name owner yaml params by now reg old taken own
                (fresh_next name reg old current taken))
              (grown-IsCurrent name reg (save u reg.templates) u (version_row u yaml params by now)
                (λ n. saved name reg old u n taken is_old) is_old refl
                (subst (λ o. top o ≤ suc old.version) (sym taken) (omega arith)) current)
        | inr other ↦ rw (publish-refused name owner yaml params by now reg old taken other) current
      ]
    ]
