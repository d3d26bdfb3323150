-- ===== src/Prelude/Dicts.antt =====
-- Dictionaries with texts as keys, as association lists in the order of insertion.
use mathlib.Core.Path.{◌≡◌, refl, subst, sym}
use Prim.Native.Nat.{ℕ}
use mathlib.Core.Logic.{inl, inr}
use mathlib.Core.Bool.{Bool, true, false, not}
use mathlib.Core.Option.{Option, none, some}
use mathlib.Core.List.{List, [], ◌∷◌, ◌++◌}
use native.Mathlib.Omega.{arith}
use cawl.Prelude.Tests.{if◌then◌else◌, Bool-cases}
use cawl.Prelude.Lists.{select}
use cawl.Prelude.Alls.{All}
use cawl.Prelude.Texts.{Text, ◌==◌, eq_iff, eq_refl}

module _ {V : Type 0} where
  unfoldable pub lookup : Text → List (Text × V) → Option V
  lookup k [] = none
  lookup k ((j, v) ∷ m) = if j == k then some v else lookup k m

  -- `d[k] = v`: a key that is there keeps its place.
  unfoldable pub put : Text → V → List (Text × V) → List (Text × V)
  put k v [] = (k, v) ∷ []
  put k v ((j, w) ∷ m) = let rest = put k v m in if j == k then (j, v) ∷ m else (j, w) ∷ rest

  -- `d.pop(k, None)`
  abbrev pub pop : Text → List (Text × V) → List (Text × V)
  pop k m = select (λ (p : Text × V). not (p.0 == k)) m

  -- An entry that passes the test is still found when the others are taken out.
  pub lookup-select :
      (p : Text × V → Bool) (k : Text) (m : List (Text × V)) {v : V}
      → lookup k m ≡ some v
      → p (k, v) ≡ true
      → lookup k (select p m) ≡ some v
  unfolding lookup
  lookup-select p k [] h t = cc
  lookup-select p k ((j, w) ∷ m) {v} h t = ground (arith, lookup-select p k m {v = v}, eq_iff j k)

  pub lookup-put :
      (k j : Text) (v : V) (m : List (Text × V))
      → lookup j (put k v m) ≡ (if k == j then some v else lookup j m)
  unfolding lookup put
  lookup-put k j v [] = refl
  lookup-put k j v ((i, w) ∷ m) =
      ground (arith, eq_iff k j, eq_iff i k, eq_iff i j, lookup-put k j v m)

  pub lookup-put_self : (k : Text) (v : V) (m : List (Text × V)) → lookup k (put k v m) ≡ some v
  lookup-put_self k v m = simp (lookup-put, eq_refl)

  pub lookup-put_other :
      (k j : Text) (v : V) (m : List (Text × V))
      → (k == j) ≡ false
      → lookup j (put k v m) ≡ lookup j m
  lookup-put_other k j v m apart = simp (lookup-put, apart)

  pub lookup-pop : (k : Text) (m : List (Text × V)) → lookup k (pop k m) ≡ none
  unfolding lookup
  lookup-pop k [] = refl
  lookup-pop k ((i, w) ∷ m) = ground (arith, lookup-pop k m)

  pub All-put :
      (P : V → Type 0) (k : Text) (v : V) (m : List (Text × V))
      → P v
      → All (λ (p : Text × V). P p.1) m
      → All (λ (p : Text × V). P p.1) (put k v m)
  unfolding put
  All-put P k v [] h a = (h, tt)
  All-put P k v ((j, w) ∷ m) h a = elim (Bool-cases (j == k)) [
    | inl same ↦ rw same (h, a.1)
    | inr apart ↦ rw apart (a.0, All-put P k v m h a.1)
  ]

  pub All-put_entry :
      (P : Text × V → Type 0) (k : Text) (v : V) (m : List (Text × V))
      → P (k, v)
      → All P m
      → All P (put k v m)
  unfolding put
  All-put_entry P k v [] h a = (h, tt)
  All-put_entry P k v ((j, w) ∷ m) h a = elim (Bool-cases (j == k)) [
    | inl same ↦ rw same (subst (λ i. P (i, v)) (sym ((eq_iff j k).0 same)) h, a.1)
    | inr apart ↦ rw apart (a.0, All-put_entry P k v m h a.1)
  ]

-- A text is no proper beginning of itself.
pub ne-append : (s : Text) (c : ℕ) (t : Text) → (s == s ++ (c ∷ t)) ≡ false
unfolding ◌==◌
ne-append [] c t = refl
ne-append (x ∷ s) c t = ground (arith, ne-append s c t)
