-- ===== src/Store/Listing/Visible.antt =====
-- What a listing shows to a viewer.
use cawl.Prelude.{
  List, Text, All, Bool, any, map, ◌∷◌, ◌==◌, Bool-cases, [], ◌≡◌, ◌&&◌, true, contains, inl,
  select, arith, inr, some, not, false, Option, ℕ,
}
use cawl.Store.Listing.{insert_newest, newest_first, is_visible, list, admits}
use cawl.Store.Tables.{Grant, Row, at_least_as_new, to_environment, Store}
use cawl.Models.{same_status, Status, Environment}
use cawl.Auth.{can_view, is_owner, Role}

granted_viewer :
    (id p : Text) (gs : List Grant)
    → any (λ (g : Grant). g.environment == id && g.principal == p) gs ≡ true
    → contains (map (λ (g : Grant). g.principal) (select (λ g. g.environment == id) gs)) p ≡ true
granted_viewer id p [] h = cc
granted_viewer id p (g ∷ gs) h = ground (arith, granted_viewer id p gs)

All-insert :
    (P : Row → Type 0) (r : Row) (qs : List Row) → P r → All P qs → All P (insert_newest r qs)
unfolding insert_newest
All-insert P r [] h t = (h, tt)
All-insert P r (q ∷ qs) h (a, t) = elim (Bool-cases (at_least_as_new r.created_at q.created_at)) [
  | inl newer ↦ rw newer (h, (a, t))
  | inr older ↦ rw older (a, All-insert P r qs h t)
]

All-newest_first :
    (P : Row → Type 0) (p : Row → Bool) (rs : List Row)
    → ((r : Row) → p r ≡ true → P r)
    → All P (newest_first (select p rs))
unfolding newest_first
All-newest_first P p [] h = tt
All-newest_first P p (r ∷ rs) h = elim (Bool-cases (p r)) [
  | inl kept ↦
      rw kept (All-insert P r (newest_first (select p rs)) (h r kept) (All-newest_first P p rs h))
  | inr out ↦ rw out (All-newest_first P p rs h)
]

visible-can_view :
    (c : ℕ) (viewer : Text) (role : Role) (s : Store) (r : Row)
    → is_visible (some (c ∷ viewer)) s r ≡ true
    → can_view (record { id = c ∷ viewer; role = role }) (to_environment r s) ≡ true
unfolding can_view is_owner to_environment
visible-can_view c viewer role s r h = ground (arith, granted_viewer r.id (c ∷ viewer) s.grants)

first_and_last : (a b c d : Bool) → a && b && c && d ≡ true → (a ≡ true) × (d ≡ true)
first_and_last a b c d h = (ground arith, ground arith)

not-false : (b : Bool) → not b ≡ true → b ≡ false
not-false b h = ground arith

All-map :
    {A B : Type 0} (P : B → Type 0) (f : A → B) (xs : List A)
    → All (λ x. P (f x)) xs
    → All P (map f xs)
All-map P f [] h = tt
All-map P f (x ∷ xs) h = (h.0, All-map P f xs h.1)

-- A listing for a viewer, whose id is not empty, shows only environments that the viewer may use,
-- and none that is destroyed, whatever the other filters are.
pub list_visible :
    (template owner : Option Text) (c : ℕ) (viewer : Text) (role : Role) (s : Store)
    → All
        (λ (e : Environment).
          (can_view (record { id = c ∷ viewer; role = role }) e ≡ true)
          × (same_status e.status Status.destroyed ≡ false))
        (list template owner (some (c ∷ viewer)) s)
unfolding list to_environment
list_visible template owner c viewer role s =
    All-map _ (λ (r : Row). to_environment r s) _
      (All-newest_first _ _ s.rows λ r shown.
        let ends =
          first_and_last (not (same_status r.status Status.destroyed)) (admits template r.template)
            (admits owner r.owner) (is_visible (some (c ∷ viewer)) s r) shown in
        (visible-can_view c viewer role s r ends.1, not-false _ ends.0))
