-- ===== src/Store/Listing.antt =====
-- list and grants of `DjangoStateStore`.
pub mod Visible
use cawl.Prelude.{
  List, Option, Text, Bool, ◌∷◌, [], if◌then◌else◌, true, map, some, ◌==◌, none, select, ◌||◌, any,
  not, ◌&&◌,
}
use cawl.Store.Tables.{Row, Store, grants_of, at_least_as_new, to_environment, Grant}
use cawl.Models.{Environment, same_status, Status}

-- A filter that is not given, or is empty, admits every value.
abbrev pub admits : Option Text → Text → Bool
admits none value = true
admits (some []) value = true
admits (some (c ∷ wanted)) value = value == (c ∷ wanted)

-- The environments of a principal, and those shared with it.
abbrev pub is_visible : Option Text → Store → Row → Bool
is_visible none s r = true
is_visible (some []) s r = true
is_visible (some (c ∷ viewer)) s r =
    r.owner == (c ∷ viewer)
    || any (λ (g : Grant). g.environment == r.id && g.principal == (c ∷ viewer)) s.grants

-- `order_by("-created_at")`
unfoldable pub insert_newest : Row → List Row → List Row
insert_newest r [] = r ∷ []
insert_newest r (q ∷ qs) =
    let rest = insert_newest r qs in
    if at_least_as_new r.created_at q.created_at then r ∷ q ∷ qs else q ∷ rest

unfoldable pub newest_first : List Row → List Row
newest_first [] = []
newest_first (r ∷ rs) = insert_newest r (newest_first rs)

unfoldable pub list : Option Text → Option Text → Option Text → Store → List Environment
unfolding newest_first insert_newest
list template owner visible_to s =
    map (λ r. to_environment r s)
      (newest_first (
        select
          (λ (r : Row).
            not (same_status r.status Status.destroyed)
            && admits template r.template
            && admits owner r.owner
            && is_visible visible_to s r)
          s.rows))

unfoldable pub grants : Text → Store → List Text
grants id s = grants_of id s
