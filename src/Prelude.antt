-- ===== src/Prelude.antt =====
-- The names that the other modules share: the libraries', passed on, and those of the children.
mod Tests
mod Lists
mod Texts
mod Actions
mod Alls
mod Dicts
mod Runs
pub use Tests.*
pub use Lists.*
unfoldable pub use Texts.{◌==◌}
pub use Texts.{Text, codes, eq_refl, eq_iff, eq_comm, contains}
pub use Alls.*
unfoldable pub use Dicts.{lookup, put}
pub use Dicts.{
  pop, lookup-select, lookup-put, lookup-put_self, lookup-put_other, lookup-pop, All-put,
  All-put_entry, ne-append,
}
pub use Actions.*
pub use Runs.*
pub use Prim.Native.Nat.{ℕ, zero, suc, ◌+◌, ◌-◌, ◌*◌, ◌/◌, ◌%◌, ◌^◌, ◌≤◌, ◌<◌}
pub use mathlib.Core.Path.{◌≡◌, refl, sym, ap, ap₂, subst, ◌∙◌}
pub use mathlib.Core.Logic.{◌≢◌, ◌↔◌, ◌⊎◌, inl, inr}
pub use mathlib.Core.Bool.{Bool, true, false, not, ◌&&◌, ◌||◌}
pub use mathlib.Core.Option.{Option, none, some}
pub use mathlib.Core.List.{List, [], ◌∷◌, ◌++◌, map, append-nil, append_assoc}
pub use native.Mathlib.Omega.{arith}
