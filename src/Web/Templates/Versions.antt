-- ===== src/Web/Templates/Versions.antt =====
-- What publishing does to the versions of a template.
use cawl.Prelude.{
  Text, ℕ, List, Result, ◌++◌, Option, ◌≡◌, some, ◌∷◌, Bool-cases, Option-cases, [], ok, ◌==◌, err,
  inr, none, if◌then◌else◌, inl, refl, ◌&&◌, nat_beq, arith, subst, sym, atomic, atomic-kept,
}
use cawl.Web.Templates.{
  add_version, find_version, publish, publish_over, Registry, create_new, Template, TemplateVersion,
  create_next, as_conflict, version_row, find_template, new_template, lock_name, updated, save,
}
use cawl.Errors.{Error}

find_version-append :
    (name : Text) (v : ℕ) (rs : List TemplateVersion) (row : TemplateVersion)
    → find_version name v (rs ++ (row ∷ [])) ≡ (elim (find_version name v rs) [
      | none ↦ if (row.template == name) && nat_beq row.version v then some row else none
      | some r ↦ some r
    ])
unfolding find_version
find_version-append name v [] row = refl
find_version-append name v (r ∷ rs) row = ground (arith, find_version-append name v rs row)

find_version-kept :
    (name : Text) (v : ℕ) (rs : List TemplateVersion) (row r : TemplateVersion)
    → find_version name v rs ≡ some r
    → find_version name v (rs ++ (row ∷ [])) ≡ some r
find_version-kept name v rs row r h = rw (find_version-append name v rs row, h) refl

add_version-kept :
    (yaml params by : Text) (now : ℕ) (t : Template) (reg : Registry) (name : Text) (v : ℕ)
    (r : TemplateVersion)
    → find_version name v reg.versions ≡ some r
    → find_version name v (add_version yaml params by now t reg).1.versions ≡ some r
unfolding add_version
add_version-kept yaml params by now t reg name v r h =
    elim (Option-cases (find_version t.name t.version reg.versions)) [
      | inr (old, taken) ↦ rw taken h
      | inl free ↦
          rw free (find_version-kept name v reg.versions (version_row t yaml params by now) r h)
    ]

publish_over-kept :
    (o : Option Template) (name owner yaml params by : Text) (now : ℕ) (reg : Registry) (n : Text)
    (v : ℕ) (r : TemplateVersion)
    → find_version n v reg.versions ≡ some r
    → find_version n v (publish_over o name owner yaml params by now reg).1.versions ≡ some r
unfolding publish_over create_new create_next
publish_over-kept none name owner yaml params by now reg n v r h =
    let t = new_template name owner yaml params now in
    add_version-kept yaml params by now t (record reg { templates = reg.templates ++ (t ∷ []) }) n v
      r h
publish_over-kept (some t) name owner yaml params by now reg n v r h =
    elim (Bool-cases (t.owner == owner)) [
      | inr other ↦ rw other h
      | inl own ↦
          let u = updated t yaml params now in
          rw own (
            add_version-kept yaml params by now u (record reg { templates = save u reg.templates })
              n v r h)
    ]

as_conflict-kept :
    (name : Text) (p : Result Error Template × Registry) → (as_conflict name p).1 ≡ p.1
as_conflict-kept name (ok t, reg) = refl
as_conflict-kept name (err e, reg) = refl

-- No version of any template ever changes: whatever is published, under whatever name and by whom,
-- each version row that was there is there unchanged.
pub publish-kept :
    (name owner yaml params by : Text) (now : ℕ) (reg : Registry) (n : Text) (v : ℕ)
    (r : TemplateVersion)
    → find_version n v reg.versions ≡ some r
    → find_version n v (publish name owner yaml params by now reg).1.versions ≡ some r
unfolding publish
publish-kept name owner yaml params by now reg n v r h =
    let body = λ (s : Registry).
      publish_over (find_template name s.templates) name owner yaml params by now
        (lock_name name s) in
    subst (λ (s : Registry). find_version n v s.versions ≡ some r)
      (sym (as_conflict-kept name (atomic body reg)))
      (atomic-kept (λ (s : Registry). find_version n v s.versions ≡ some r) body reg h
        (publish_over-kept (find_template name reg.templates) name owner yaml params by now
          (lock_name name reg) n v r h))
