-- ===== src/Params/Quoting.antt =====
-- Why a quoted value is inert: `shlex.quote` of params.py against a reader of shell words.
use cawl.Prelude.{
  Text, ℕ, ◌++◌, Bool, Option, all, nat_beq, some, ◌∷◌, [], none, ◌||◌, ◌≡◌, true, arith,
  if◌then◌else◌, refl, Bool-cases, inl, ◌∙◌, ap, and_true, append-nil, false, inr, append_assoc,
}
use cawl.Params.Templates.{escape, is_safe, quote}

-- Where the shell is inside a word.
pub data Mode : Type 0 where
  plain single double : Mode

-- What has a meaning of its own outside quotes: a separator, and the rest of POSIX's list.
abbrev ends_word : ℕ → Bool
ends_word c =
    nat_beq c 32
    || nat_beq c 9
    || nat_beq c 10
    || nat_beq c b'|'
    || nat_beq c b'&'
    || nat_beq c b';'

abbrev is_special : ℕ → Bool
is_special c =
    nat_beq c b'<'
    || nat_beq c b'>'
    || nat_beq c b'('
    || nat_beq c b')'
    || nat_beq c b'$'
    || nat_beq c b'`'
    || nat_beq c 92
    || nat_beq c b'*'
    || nat_beq c b'?'
    || nat_beq c b'['
    || nat_beq c b'#'
    || nat_beq c b'~'
    || nat_beq c b'!'
    || nat_beq c b'{'
    || nat_beq c b'}'

-- `$`, a backquote and a backslash keep theirs between double quotes.
abbrev is_special_in_double : ℕ → Bool
is_special_in_double c = nat_beq c b'$' || nat_beq c b'`' || nat_beq c 92

abbrev prefixed : ℕ → Option (Text × Text) → Option (Text × Text)
prefixed c none = none
prefixed c (some (w, rest)) = some (c ∷ w, rest)

-- The word at the start of a text, with its quotes removed, and what follows it, as the shell reads an
-- argument of a command, where `=` and `%` stand for themselves. None where a character would be expanded or run instead of standing for itself, or a quote stays open.
pub shell_word : Mode → Text → Option (Text × Text)
shell_word plain [] = some ([], [])
shell_word plain (c ∷ s) =
    let opened = shell_word single s in
    let double_opened = shell_word double s in
    let literal = prefixed c (shell_word plain s) in
    if ends_word c
    then some ([], c ∷ s)
    else if nat_beq c 39
    then opened
    else if nat_beq c 34
    then double_opened
    else if is_special c
    then none
    else literal
shell_word single [] = none
shell_word single (c ∷ s) =
    let closed = shell_word plain s in
    let literal = prefixed c (shell_word single s) in if nat_beq c 39 then closed else literal
shell_word double [] = none
shell_word double (c ∷ s) =
    let closed = shell_word plain s in
    let literal = prefixed c (shell_word double s) in
    if nat_beq c 34 then closed else if is_special_in_double c then none else literal

-- The text in front of a word that has been read.
abbrev prepended : Text → Option (Text × Text) → Option (Text × Text)
prepended [] r = r
prepended (c ∷ t) r = prefixed c (prepended t r)

safe-ends_word : (c : ℕ) → is_safe c ≡ true → ends_word c ≡ false
safe-ends_word c h = ground arith

safe_quotes : (c : ℕ) → is_safe c ≡ true → (nat_beq c 39 ≡ false) × (nat_beq c 34 ≡ false)
safe_quotes c h = (ground arith, ground arith)

safe-special : (c : ℕ) → is_safe c ≡ true → is_special c ≡ false
safe-special c h = ground arith

safe_cons :
    (c : ℕ) (s : Text) → all is_safe (c ∷ s) ≡ true → (is_safe c ≡ true) × (all is_safe s ≡ true)
safe_cons c s h = and_true (is_safe c) (all is_safe s) h

shell_word-safe :
    (s rest : Text)
    → all is_safe s ≡ true
    → shell_word plain (s ++ rest) ≡ prepended s (shell_word plain rest)
unfolding shell_word
shell_word-safe [] rest h = refl
shell_word-safe (c ∷ s) rest h =
    let (safe, others) = safe_cons c s h in
    let (no_single, no_double) = safe_quotes c safe in
    rw (safe-ends_word c safe, no_single, no_double, safe-special c safe)
      (ap (prefixed c) (shell_word-safe s rest others))

shell_word-escape :
    (s rest : Text)
    → shell_word single (escape s ++ (39 ∷ rest)) ≡ prepended s (shell_word plain rest)
unfolding shell_word escape
shell_word-escape [] rest = refl
shell_word-escape (c ∷ s) rest = ground (arith, shell_word-escape s rest)

-- What may follow a word: nothing, or a separator.
abbrev pub IsEnded : Text → Type 0
IsEnded [] = Unit {0}
IsEnded (c ∷ s) = ends_word c ≡ true

shell_word_ended : (rest : Text) → IsEnded rest → shell_word plain rest ≡ some ([], rest)
unfolding shell_word
shell_word_ended [] h = refl
shell_word_ended (c ∷ s) h = rw h

prepended-some : (s w rest : Text) → prepended s (some (w, rest)) ≡ some (s ++ w, rest)
prepended-some [] w rest = refl
prepended-some (c ∷ s) w rest = rw (prepended-some s w rest)

shell_word_opened : (u : Text) → shell_word plain (39 ∷ u) ≡ shell_word single u
unfolding shell_word
shell_word_opened u = refl

shell_word_quoted :
    (t rest : Text)
    → IsEnded rest
    → shell_word plain (39 ∷ ((escape t ++ (39 ∷ [])) ++ rest)) ≡ some (t, rest)
shell_word_quoted t rest h =
    ap (λ u. shell_word plain (39 ∷ u)) (append_assoc (escape t) (39 ∷ []) rest)
    ∙ shell_word_opened (escape t ++ (39 ∷ rest))
    ∙ shell_word-escape t rest
    ∙ ap (prepended t) (shell_word_ended rest h)
    ∙ prepended-some t [] rest
    ∙ ap (λ w. some (w, rest)) (append-nil t)

-- Whatever a value holds, the shell reads its quoted form as one word, which is that value again
-- character by character: nothing in it is expanded, run, or ends the word.
pub shell_word-quote :
    (v rest : Text) → IsEnded rest → shell_word plain (quote v ++ rest) ≡ some (v, rest)
unfolding quote
shell_word-quote [] rest h = unfold shell_word in shell_word_ended rest h
shell_word-quote (c ∷ s) rest h = elim (Bool-cases (all is_safe (c ∷ s))) [
  | inl safe ↦ rw safe (
      shell_word-safe (c ∷ s) rest safe
      ∙ ap (prepended (c ∷ s)) (shell_word_ended rest h)
      ∙ prepended-some (c ∷ s) [] rest
      ∙ ap (λ w. some (w, rest)) (append-nil (c ∷ s)))
  | inr unsafe ↦ rw unsafe (shell_word_quoted (c ∷ s) rest h)
]
