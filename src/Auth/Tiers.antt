-- ===== src/Auth/Tiers.antt =====
-- The two tiers of access of auth.py, to use and to destroy: what a grant adds.
use cawl.Prelude.{Text, ◌≡◌, ◌||◌, ◌==◌, arith, ◌∷◌, refl}
use cawl.Models.{Environment}
use cawl.Auth.{Principal, is_owner, can_view}

-- Sharing an environment with one more principal lets exactly that principal use it, and leaves
-- the owner's rights of every actor as they were.
pub share_adds_use :
    (actor : Principal) (inst : Environment) (p : Text)
    → (can_view actor (record inst { shared_with = p ∷ inst.shared_with })
        ≡ (p == actor.id || can_view actor inst))
      × (is_owner actor (record inst { shared_with = p ∷ inst.shared_with }) ≡ is_owner actor inst)
unfolding can_view is_owner
share_adds_use actor inst p = (ground arith, refl)
