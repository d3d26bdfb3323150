-- ===== src/Prelude/Alls.antt =====
-- Predicates of every entry of a list.
use mathlib.Core.Path.{◌≡◌}
use mathlib.Core.Bool.{Bool, true}
use mathlib.Core.List.{List, [], ◌∷◌}
use cawl.Prelude.Tests.{Bool-cases}
use cawl.Prelude.Lists.{select}
use mathlib.Core.Logic.{inl, inr}

module _ {A : Type 0} where
  abbrev pub All : (A → Type 0) → List A → Type 0
  All P [] = Unit {0}
  All P (x ∷ xs) = P x × All P xs

  -- What passes the test keeps the predicate, or gains what the test gives.
  pub All-select :
      {P Q : A → Type 0} (p : A → Bool) (xs : List A)
      → ((x : A) → P x → p x ≡ true → Q x)
      → All P xs
      → All Q (select p xs)
  All-select p [] h a = tt
  All-select p (x ∷ xs) h a = elim (Bool-cases (p x)) [
    | inl e ↦ rw e (h x a.0 e, All-select p xs h a.1)
    | inr e ↦ rw e (All-select p xs h a.1)
  ]

  pub All-imp : {P Q : A → Type 0} (xs : List A) → ((x : A) → P x → Q x) → All P xs → All Q xs
  All-imp [] h a = tt
  All-imp (x ∷ xs) h a = (h x a.0, All-imp xs h a.1)
