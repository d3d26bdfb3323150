-- ===== src/Params/Inserting.antt =====
-- What `render` of params.py puts into a hook: words that the shell reads as the values, and no more.
use cawl.Params.Templates.{
  Piece, literal, placeholder, substitute, exports, sort_values, quote, pieces, render, blank_text,
  with_exports,
}
use cawl.Params.Quoting.{shell_word, plain, IsEnded, shell_word-quote}
use cawl.Errors.{Error}
use cawl.Prelude.{
  Text, ℕ, List, Result, ◌++◌, ◌∷◌, [], ◌≡◌, some, ok, err, lookup, codes, Option-cases,
  Result-cases, false, refl, sym, inl, inr, subst,
}

-- A text that the shell, outside quotes, reads as one argument that is the value character by
-- character, up to what ends a word.
pub record IsWord (value w : Text) : Type 0 where
  pub read : (rest : Text) → IsEnded rest → shell_word plain (w ++ rest) ≡ some (value, rest)

ok_text-injective : {s t : Text} → ◌≡◌ {A = Result Error Text} (ok s) (ok t) → s ≡ t
ok_text-injective h = cc

quote-IsWord : (v : Text) → IsWord v (quote v)
quote-IsWord v = record { read = shell_word-quote v }

-- A script with a word for each placeholder, and everything else as it was.
pub data Inserted (values : List (Text × Text)) : List Piece → Text → Type 0 where
  done : Inserted values [] []
  kept :
      (c : ℕ) (ps : List Piece) (t : Text)
      → Inserted values ps t
      → Inserted values (literal c ∷ ps) (c ∷ t)
  word :
      (n v w : Text) (ps : List Piece) (t : Text)
      → lookup n values ≡ some v
      → IsWord v w
      → Inserted values ps t
      → Inserted values (placeholder n ∷ ps) (w ++ t)

-- A line for each value, which sets and exports its name.
pub data Exported : List (Text × Text) → Text → Type 0 where
  no_line : Exported [] []
  line :
      (k v w : Text) (vs : List (Text × Text)) (t : Text)
      → IsWord v w
      → Exported vs t
      → Exported ((k, v) ∷ vs) (k ++ (b'=' ∷ w ++ (codes "; export " ++ (k ++ (10 ∷ t)))))

exports-Exported : (vs : List (Text × Text)) → Exported vs (exports vs)
exports-Exported [] = no_line
exports-Exported ((k, v) ∷ vs) =
    line k v (quote v) vs (exports vs) (quote-IsWord v) (exports-Exported vs)

substitute-Inserted :
    (values : List (Text × Text)) (ps : List Piece) (t : Text)
    → substitute quote values ps ≡ ok t
    → Inserted values ps t
unfolding substitute
substitute-Inserted values [] t h = subst (Inserted values []) (ok_text-injective h) done
substitute-Inserted values (literal c ∷ ps) t h = elim (Result-cases (substitute quote values ps)) [
  | inr (e, failed) ↦ cc (rw (failed, substitute) at h)
  | inl (u, held) ↦
      subst (Inserted values (literal c ∷ ps)) (ok_text-injective (rw (held, substitute) at h))
        (kept c ps u (substitute-Inserted values ps u held))
]
substitute-Inserted values (placeholder n ∷ ps) t h = elim (Option-cases (lookup n values)) [
  | inl missing ↦ cc (rw (missing, substitute) at h)
  | inr (v, found) ↦ elim (Result-cases (substitute quote values ps)) [
    | inr (e, failed) ↦ cc (rw (found, failed, substitute) at h)
    | inl (u, held) ↦
        subst (Inserted values (placeholder n ∷ ps))
          (ok_text-injective (rw (found, held, substitute) at h))
          (word n v (quote v) ps u found (quote-IsWord v) (substitute-Inserted values ps u held))
  ]
]

with_exports-split :
    (values : List (Text × Text)) (r : Result Error Text) (out : Text)
    → with_exports values r ≡ ok out
    → (body : Text) × (r ≡ ok body) × (out ≡ exports (sort_values values) ++ body)
with_exports-split values (err e) out h = cc
with_exports-split values (ok body) out h = (body, refl, sym (ok_text-injective h))

-- A hook that renders, and is not blank, is a line for each value in the order of the names, and the
-- script with each placeholder replaced: the values stand in it as words that the shell, outside
-- quotes, reads as the values, in which nothing is expanded, run, or ends the word.
pub render-Inserted :
    (script : Text) (values : List (Text × Text)) (out : Text)
    → blank_text script ≡ false
    → render script values ≡ ok out
    → (lines : Text) × (body : Text) × (out ≡ lines ++ body)
      × Exported (sort_values values) lines
      × Inserted values (pieces script) body
unfolding render
render-Inserted script values out filled h =
    let (body, made, whole) =
      with_exports-split values (substitute quote values (pieces script)) out (rw filled at h) in
    (
      exports (sort_values values),
      body,
      whole,
      exports-Exported (sort_values values),
      substitute-Inserted values (pieces script) body made,
    )
