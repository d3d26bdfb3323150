-- ===== src/Naming/Lifetimes.antt =====
-- Lifetimes of naming.py: `parse_ttl` and `compute_expiry`, in seconds. A lifetime beyond what a
-- `timedelta` holds, or an expiry beyond the year 9999, raises OverflowError in the code, and is a
-- number here.
use cawl.Prelude.{
  List, Text, ℕ, Bool, Option, Result, [], ◌∷◌, ◌*◌, codes, false, if◌then◌else◌, none, some, ◌+◌,
  contains, err, nat_beq, ok, suc, true, ◌-◌, zero,
}
use cawl.Naming.Labels.{normalize}
use cawl.Params.Patterns.{span, is_digit}
use cawl.Errors.{Error, value_error}

-- `_UNIT`
abbrev unit_of : ℕ → Option ℕ
unit_of c =
    if nat_beq c b's'
    then some 1
    else if nat_beq c b'm'
    then some 60
    else if nat_beq c b'h'
    then some 3600
    else if nat_beq c b'd'
    then some 86400
    else if nat_beq c b'w'
    then some 604800
    else none

-- `int(...)` of a run of digits, after those read so far.
unfoldable pub decimal_from : ℕ → Text → ℕ
decimal_from acc [] = acc
decimal_from acc (c ∷ s) = decimal_from (acc * 10 + (c - b'0')) s

abbrev is_nonempty : Text → Bool
is_nonempty [] = false
is_nonempty (c ∷ s) = true

abbrev in_unit : ℕ → Option ℕ → Option ℕ
in_unit n none = none
in_unit n (some u) = some (n * u)

-- `^(\d+)([smhdw])$` on a stripped text, and the seconds that it stands for.
abbrev of_parts : Text × Text → Option ℕ
of_parts (digits, []) = none
of_parts (digits, c ∷ d ∷ s) = none
of_parts (digits, c ∷ []) =
    if is_nonempty digits then in_unit (decimal_from 0 digits) (unit_of c) else none

abbrev never_words : List Text
never_words = [] ∷ codes "none" ∷ codes "never" ∷ codes "0" ∷ []

abbrev read_ttl : Text → Option ℕ → Result Error (Option ℕ)
read_ttl spec none = err (value_error spec)
read_ttl spec (some n) = ok (some n)

abbrev parse_spec : Text → Result Error (Option ℕ)
parse_spec s = if contains never_words s then ok none else read_ttl s (of_parts (span is_digit s))

unfoldable pub parse_ttl : Option Text → Result Error (Option ℕ)
unfolding normalize decimal_from span
parse_ttl none = ok none
parse_ttl (some spec) = parse_spec (normalize spec)

-- `now + ttl if ttl else None`: no time at all is false, as no lifetime is.
unfoldable pub compute_expiry : ℕ → Option ℕ → Option ℕ
compute_expiry now none = none
compute_expiry now (some zero) = none
compute_expiry now (some (suc ttl)) = some (now + suc ttl)
