-- ===== src/Prelude/Actions.antt =====
-- Methods that change an object and may raise. What was written before a raise stays written, so
-- the state comes back beside the error; `atomic` is the transaction that rolls it back.
use mathlib.Core.Path.{◌≡◌, refl, sym, subst}
use mathlib.Core.Logic.{◌⊎◌, inl, inr}
use mathlib.Core.Bool.{Bool}
use mathlib.Core.Option.{Option, none, some}
use cawl.Prelude.Tests.{if◌then◌else◌}

pub data Result (E A : Type 0) : Type 0 where
  ok : A → Result E A
  err : E → Result E A

abbrev pub Action : Type 0 → Type 0 → Type 0 → Type 0
Action S E A = S → Result E A × S

module _ {S E A : Type 0} where
  abbrev pub pure : A → Action S E A
  pure a s = (ok a, s)

  abbrev pub raise : E → Action S E A
  raise e s = (err e, s)

  abbrev pub lift : Result E A → Action S E A
  lift r s = (r, s)

  abbrev pub gets : (S → A) → Action S E A
  gets f s = (ok (f s), s)

  abbrev pub or_raise : Option A → E → Action S E A
  or_raise none e = raise e
  or_raise (some a) e = pure a

module _ {S E : Type 0} where
  abbrev pub modify : (S → S) → Action S E (Unit {0})
  modify f s = (ok tt, f s)

  abbrev pub raise_if : Bool → E → Action S E (Unit {0})
  raise_if c e s = (if c then err e else ok tt, s)

module _ {S E A B : Type 0} where
  -- What comes after a call that ended in `r`.
  abbrev pub continue : Result E A → (A → Action S E B) → Action S E B
  continue (ok a) f s = f a s
  continue (err e) f s = (err e, s)

  infixl 10 ◌>>=◌ ◌>>◌
  abbrev pub ◌>>=◌ : Action S E A → (A → Action S E B) → Action S E B
  ◌>>=◌ m f s = let (r, s') = m s in continue r f s'

  abbrev pub ◌>>◌ : Action S E A → Action S E B → Action S E B
  m >> n = m >>= λ _. n

  -- `try: m except Exception as e: handler(e) else: f`
  abbrev pub caught : Result E A → (A → Action S E B) → (E → Action S E B) → Action S E B
  caught (ok a) f handler s = f a s
  caught (err e) f handler s = handler e s

  abbrev pub try : Action S E A → (A → Action S E B) → (E → Action S E B) → Action S E B
  try m f handler s = let (r, s') = m s in caught r f handler s'

module _ {S E A : Type 0} where
  abbrev kept : S → Result E A → S → Result E A × S
  kept s (ok a) s' = (ok a, s')
  kept s (err e) s' = (err e, s)

  -- A database transaction: an exception undoes the writes.
  abbrev pub atomic : Action S E A → Action S E A
  atomic m s = let (r, s') = m s in kept s r s'

-- A result is a value or an error.
pub Result-cases :
    {E A : Type 0} (r : Result E A) → ((a : A) × (r ≡ ok a)) ⊎ ((e : E) × (r ≡ err e))
Result-cases (ok a) = inl (a, refl)
Result-cases (err e) = inr (e, refl)

-- What holds before a transaction and after its body holds after the transaction.
pub atomic-kept :
    {S E A : Type 0} (P : S → Type 0) (m : Action S E A) (s : S)
    → P s
    → P (m s).1
    → P (atomic m s).1
atomic-kept P m s before after = elim (Result-cases (m s).0) [
  | inl (a, done) ↦ subst (λ r. P (kept s r (m s).1).1) (sym done) after
  | inr (e, raised) ↦ subst (λ r. P (kept s r (m s).1).1) (sym raised) before
]
