-- ===== src/Prelude/Runs.antt =====
-- What every run of a method does to the state, as a relation between the state before and after.
use cawl.Prelude.Actions.{Action, Result, ok, err, continue, ◌>>=◌, try, caught}

module _ {S E : Type 0} (R : S → S → Type 0) (next : (s t u : S) → R s t → R t u → R s u) where
  abbrev pub Keeps : {A : Type 0} → Action S E A → Type 0
  Keeps m = (s : S) → R s (m s).1

  module _ {A B : Type 0} where
    continue-Keeps :
        (r : Result E A) (f : A → Action S E B) {s t : S}
        → R s t
        → ((a : A) → Keeps (f a))
        → R s (continue r f t).1
    continue-Keeps (ok a) f {s} {t} p h = next s t _ p (h a t)
    continue-Keeps (err e) f p h = p

    pub >>=-Keeps :
        (m : Action S E A) (f : A → Action S E B)
        → Keeps m
        → ((a : A) → Keeps (f a))
        → Keeps (m >>= f)
    >>=-Keeps m f p h s = continue-Keeps (m s).0 f (p s) h

    caught-Keeps :
        (r : Result E A) (f : A → Action S E B) (g : E → Action S E B) {s t : S}
        → R s t
        → ((a : A) → Keeps (f a))
        → ((e : E) → Keeps (g e))
        → R s (caught r f g t).1
    caught-Keeps (ok a) f g {s} {t} p h k = next s t _ p (h a t)
    caught-Keeps (err e) f g {s} {t} p h k = next s t _ p (k e t)

    pub try-Keeps :
        (m : Action S E A) (f : A → Action S E B) (g : E → Action S E B)
        → Keeps m
        → ((a : A) → Keeps (f a))
        → ((e : E) → Keeps (g e))
        → Keeps (try m f g)
    try-Keeps m f g p h k s = caught-Keeps (m s).0 f g (p s) h k
