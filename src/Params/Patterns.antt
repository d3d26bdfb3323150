-- ===== src/Params/Patterns.antt =====
-- The regular expressions of params.py and naming.py, as tests on code points. `$` matches at the
-- end of a text and also before a newline that ends it.
use cawl.Prelude.{
  Text, ℕ, Bool, false, leb, nat_beq, true, ◌||◌, ◌∷◌, ◌&&◌, [], if◌then◌else◌, length,
}

abbrev pub is_lower : ℕ → Bool
is_lower c = leb b'a' c && leb c b'z'

abbrev pub is_digit : ℕ → Bool
is_digit c = leb b'0' c && leb c b'9'

-- `str.isspace` and `\s` on ASCII
abbrev pub is_space : ℕ → Bool
is_space c = nat_beq c 32 || (leb 9 c && leb c 13) || (leb 28 c && leb c 31)

-- `[a-z0-9_]`
abbrev pub is_name_char : ℕ → Bool
is_name_char c = is_lower c || is_digit c || nat_beq c b'_'

-- `[\x20-\x7e]`
abbrev is_printable : ℕ → Bool
is_printable c = leb 32 c && leb c 126

-- The longest prefix of characters that pass the test, and the rest.
unfoldable pub span : (ℕ → Bool) → Text → Text × Text
span p [] = ([], [])
span p (c ∷ s) = let (run, rest) = span p s in if p c then (c ∷ run, rest) else ([], c ∷ s)

-- `$`
unfoldable pub at_end : Text → Bool
at_end [] = true
at_end (c ∷ []) = nat_beq c 10
at_end (c ∷ d ∷ s) = false

-- `C{0,most}$`, where `C` does not hold the newline.
unfoldable pub run_then_end : (ℕ → Bool) → ℕ → Text → Bool
unfolding span at_end
run_then_end p most s = let (run, rest) = span p s in leb (length run) most && at_end rest

-- `^[a-z][a-z0-9_]{0,30}$`
unfoldable pub name_matches : Text → Bool
unfolding run_then_end
name_matches [] = false
name_matches (c ∷ s) = is_lower c && run_then_end is_name_char 30 s

-- `^[\x20-\x7e]{0,200}$`
unfoldable pub value_matches : Text → Bool
unfolding run_then_end
value_matches s = run_then_end is_printable 200 s
