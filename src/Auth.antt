-- ===== src/Auth.antt =====
-- server/cawl_core/auth.py: principals and the authorization policy.
pub mod Tiers
use cawl.Prelude.{
  Text, codes, Bool, true, false, ◌||◌, ◌==◌, contains, if◌then◌else◌, Result, ok, err, Option,
  none, some, List, ◌∷◌,
}
use cawl.Errors.{Error, permission_denied}
use cawl.Models.{Environment}

pub data Role : Type 0 where
  user admin : Role

pub record Principal : Type 0 where
  pub id : Text
  pub role : Role

abbrev role_is_admin : Role → Bool
role_is_admin user = false
role_is_admin admin = true

abbrev pub is_admin : Principal → Bool
is_admin p = role_is_admin p.role

abbrev pub system : Principal
system = record { id = codes "system"; role = admin }

unfoldable pub is_owner : Principal → Environment → Bool
is_owner actor inst = is_admin actor || inst.owner == actor.id

unfoldable pub can_view : Principal → Environment → Bool
can_view actor inst = is_admin actor || is_owner actor inst || contains inst.shared_with actor.id

unfoldable pub require_access : Principal → Environment → Result Error (Unit {0})
require_access actor inst = if can_view actor inst then ok tt else err (permission_denied actor.id)

unfoldable pub require_owner : Principal → Environment → Result Error (Unit {0})
require_owner actor inst = if is_owner actor inst then ok tt else err (permission_denied actor.id)

unfoldable pub require_admin : Principal → Result Error (Unit {0})
require_admin actor = if is_admin actor then ok tt else err (permission_denied actor.id)

-- `ident = e.get("CAWL_ACTOR")`, and an empty one counts as absent; `login` is what
-- `getpass.getuser()` returns, `none` where it raises.
abbrev identity : Option Text → Option Text → Text
identity (some (c ∷ s)) login = c ∷ s
identity _ (some u) = u
identity _ none = codes "unknown"

resolve_principal : List Text → Option Text → Option Text → Principal
resolve_principal admins cawl_actor login =
    let ident = identity cawl_actor login in
    record { id = ident; role = if contains admins ident then admin else Role.user }
