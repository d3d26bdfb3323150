-- ===== src/Params/Templates.antt =====
-- Placeholders in hook scripts: `placeholders`, `expand` and `render` of params.py.
use cawl.Prelude.{
  lookup, Text, ℕ, Bool, List, Option, ◌∷◌, Result, [], if◌then◌else◌, leb, length, none, ◌&&◌, all,
  nat_beq, suc, ◌||◌, ◌++◌, ok, some, err, zero, codes, true, false, ltb,
}
use cawl.Params.Patterns.{span, is_space, is_lower, is_name_char, is_digit}
use cawl.Errors.{Error, param_error}

-- A script as its literal characters and its `{{name}}` placeholders.
pub data Piece : Type 0 where
  literal : ℕ → Piece
  placeholder : Text → Piece

abbrev pub skip_spaces : Text → Text
skip_spaces s = (span is_space s).1

-- `\}\}`
abbrev pub closing : Text → Text → Option (Text × Text)
closing name (c ∷ d ∷ rest) = if nat_beq c b'}' && nat_beq d b'}' then some (name, rest) else none
closing name _ = none

-- `([a-z][a-z0-9_]{0,30})\s*\}\}`
abbrev pub named : Text → Option (Text × Text)
named [] = none
named (c ∷ s) =
    let (run, rest) = span is_name_char s in
    if is_lower c && leb (length run) 30 then closing (c ∷ run) (skip_spaces rest) else none

-- `\{\{\s*([a-z][a-z0-9_]{0,30})\s*\}\}` at the start of a text: the name, and what follows.
unfoldable pub match_placeholder : Text → Option (Text × Text)
unfolding span
match_placeholder (c ∷ d ∷ rest) =
    if nat_beq c b'{' && nat_beq d b'{' then named (skip_spaces rest) else none
match_placeholder _ = none

-- The matches from left to right. Each step takes at least one character, so the length is fuel
-- enough.
unfoldable pub scan : ℕ → Text → List Piece
unfolding match_placeholder
scan zero s = []
scan (suc fuel) [] = []
scan (suc fuel) (c ∷ s) = elim (match_placeholder (c ∷ s)) [
  | none ↦ literal c ∷ scan fuel s
  | some (name, rest) ↦ placeholder name ∷ scan fuel rest
]

unfoldable pub pieces : Text → List Piece
unfolding scan
pieces s = scan (length s) s

unfoldable pub names_of : List Piece → List Text
names_of [] = []
names_of (literal c ∷ ps) = names_of ps
names_of (placeholder n ∷ ps) = n ∷ names_of ps

unfoldable pub placeholders : Text → List Text
unfolding pieces names_of
placeholders s = names_of (pieces s)

-- `shlex.quote`: the characters that need no quotes are `[A-Za-z0-9_@%+=:,./-]`.
abbrev is_upper : ℕ → Bool
is_upper c = leb b'A' c && leb c b'Z'

abbrev pub is_safe : ℕ → Bool
is_safe c =
    is_lower c
    || is_upper c
    || is_digit c
    || nat_beq c b'_'
    || nat_beq c b'@'
    || nat_beq c b'%'
    || nat_beq c b'+'
    || (leb 44 c && leb c 47)
    || nat_beq c b':'
    || nat_beq c b'='

-- `'"'"'` for each `'`
unfoldable pub escape : Text → Text
escape [] = []
escape (c ∷ s) =
    let rest = escape s in if nat_beq c 39 then 39 ∷ 34 ∷ 39 ∷ 34 ∷ 39 ∷ rest else c ∷ rest

unfoldable pub quote : Text → Text
unfolding escape
quote [] = 39 ∷ 39 ∷ []
quote (c ∷ s) = if all is_safe (c ∷ s) then c ∷ s else 39 ∷ (escape (c ∷ s) ++ (39 ∷ []))

-- The substitution of every placeholder by `f` of its value; a name without a value raises.
unfoldable pub substitute : (Text → Text) → List (Text × Text) → List Piece → Result Error Text
substitute f values [] = ok []
substitute f values (literal c ∷ ps) = elim (substitute f values ps) [
  | ok t ↦ ok (c ∷ t)
  | err e ↦ err e
]
substitute f values (placeholder n ∷ ps) = elim (lookup n values) [
  | none ↦ err (param_error n)
  | some v ↦ elim (substitute f values ps) [ ok t ↦ ok (f v ++ t) | err e ↦ err e ]
]

unfoldable expand : Text → List (Text × Text) → Result Error Text
unfolding pieces substitute
expand text values = substitute (λ v. v) values (pieces text)

-- `(script or "").strip()` is empty.
abbrev pub blank_text : Text → Bool
blank_text s = all is_space s

abbrev pub exports : List (Text × Text) → Text
exports [] = []
exports ((k, v) ∷ vs) = k ++ (b'=' ∷ quote v ++ (codes "; export " ++ (k ++ (10 ∷ exports vs))))

-- `sorted(values.items())`: by name. Names are distinct, as the keys of a dict.
abbrev text_before : Text → Text → Bool
text_before [] t = true
text_before (c ∷ s) [] = false
text_before (c ∷ s) (d ∷ t) = ltb c d || (nat_beq c d && text_before s t)

unfoldable pub insert_sorted : Text × Text → List (Text × Text) → List (Text × Text)
insert_sorted (k, v) [] = (k, v) ∷ []
insert_sorted (k, v) ((j, w) ∷ vs) =
    if text_before k j then (k, v) ∷ (j, w) ∷ vs else (j, w) ∷ insert_sorted (k, v) vs

unfoldable pub sort_values : List (Text × Text) → List (Text × Text)
unfolding insert_sorted
sort_values [] = []
sort_values (x ∷ vs) = insert_sorted x (sort_values vs)

abbrev pub with_exports : List (Text × Text) → Result Error Text → Result Error Text
with_exports values (ok body) = ok (exports (sort_values values) ++ body)
with_exports values (err e) = err e

unfoldable pub render : Text → List (Text × Text) → Result Error Text
unfolding quote pieces substitute sort_values
render script values =
    if blank_text script
    then ok []
    else with_exports values (substitute quote values (pieces script))
