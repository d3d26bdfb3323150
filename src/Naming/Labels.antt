-- ===== src/Naming/Labels.antt =====
-- Environment ids, expose keys and exposure labels of naming.py.
use cawl.Prelude.{
  Text, ℕ, ◌++◌, Bool, Result, if◌then◌else◌, map, ◌==◌, false, leb, nat_beq, not, true, ◌||◌, ◌∷◌,
  ◌&&◌, [], codes, ok, ◌+◌, all, err, length, take, Option, ◌≡◌, drop, none, some, ◌-◌, any, refl,
}
use cawl.Errors.{Error, value_error}
use cawl.Params.Patterns.{is_lower, is_space, is_digit, span}
use cawl.Models.{primary_exposure}

abbrev pub to_lower : ℕ → ℕ
to_lower c = if leb b'A' c && leb c b'Z' then c + 32 else c

-- `s.lstrip()` for the characters of a test, and `s.strip()`
unfoldable pub drop_while : (ℕ → Bool) → Text → Text
drop_while p [] = []
drop_while p (c ∷ s) = let rest = drop_while p s in if p c then rest else c ∷ s

abbrev pub drop_end : (ℕ → Bool) → ℕ → Text → Text
drop_end p c [] = if p c then [] else c ∷ []
drop_end p c (d ∷ t) = c ∷ d ∷ t

unfoldable pub drop_while_end : (ℕ → Bool) → Text → Text
drop_while_end p [] = []
drop_while_end p (c ∷ s) = drop_end p c (drop_while_end p s)

unfoldable pub strip : (ℕ → Bool) → Text → Text
unfolding drop_while drop_while_end
strip p s = drop_while_end p (drop_while p s)

-- `str(name).strip().lower()`
unfoldable pub normalize : Text → Text
unfolding strip
normalize s = map to_lower (strip is_space s)

-- `[a-z0-9-]` and `[a-z0-9]`
abbrev pub is_dash : ℕ → Bool
is_dash c = nat_beq c b'-'

abbrev pub is_alnum : ℕ → Bool
is_alnum c = is_lower c || is_digit c

abbrev is_label_char : ℕ → Bool
is_label_char c = is_alnum c || is_dash c

abbrev last_is_alnum : Text → Bool
last_is_alnum [] = false
last_is_alnum (c ∷ []) = is_alnum c
last_is_alnum (c ∷ d ∷ s) = last_is_alnum (d ∷ s)

abbrev pub starts_with_dash : Text → Bool
starts_with_dash [] = false
starts_with_dash (c ∷ s) = is_dash c

abbrev pub starts_with : Text → Text → Bool
starts_with [] s = true
starts_with (c ∷ p) [] = false
starts_with (c ∷ p) (d ∷ s) = nat_beq c d && starts_with p s

-- `.*--` matches from the start.
abbrev has_double_dash : Text → Bool
has_double_dash [] = false
has_double_dash (c ∷ s) = (is_dash c && starts_with_dash s) || has_double_dash s

-- `[a-z][a-z0-9-]{0,most}[a-z0-9]` on the whole of a text that was stripped, so that `$` matches
-- only at its end.
abbrev is_label : ℕ → Text → Bool
is_label most [] = false
is_label most (c ∷ s) =
    is_lower c && all is_label_char s && last_is_alnum s && leb (length s) (most + 1)

-- `_NAME_RE`, `_EXPOSE_KEY_RE` and `_LABEL_RE`
unfoldable name_pattern : Text → Bool
name_pattern s = not (has_double_dash s) && is_label 61 s

abbrev single_lower : Text → Bool
single_lower (c ∷ []) = is_lower c
single_lower _ = false

unfoldable key_pattern : Text → Bool
key_pattern s = (not (has_double_dash s) && is_label 18 s) || single_lower s

unfoldable label_pattern : Text → Bool
label_pattern s = not (starts_with (codes "xn--") s) && is_label 61 s

abbrev accepted : (Text → Bool) → Text → Text → Result Error Text
accepted pattern raw n = if pattern n then ok n else err (value_error raw)

unfoldable pub validate_name : Text → Result Error Text
unfolding normalize name_pattern
validate_name name = accepted name_pattern name (normalize name)

unfoldable pub validate_expose_key : Text → Result Error Text
unfolding normalize key_pattern
validate_expose_key key = accepted key_pattern key (normalize key)

unfoldable pub validate_exposure_label : Text → Result Error Text
unfolding normalize label_pattern
validate_exposure_label name = accepted label_pattern name (normalize name)

unfoldable pub default_exposure_label : Text → Text → Text
default_exposure_label environment_id key =
    if key == primary_exposure then environment_id else key ++ (b'-' ∷ b'-' ∷ environment_id)

unfoldable pub exposure_host : Text → Text → Text
exposure_host label base_domain = label ++ (b'.' ∷ base_domain)

-- `re.sub(r"[^a-z0-9]+", "-", s)`; the flag says that the last character was replaced.
unfoldable collapse : Bool → Text → Text
collapse replacing [] = []
collapse replacing (c ∷ s) =
    if is_alnum c
    then c ∷ collapse false s
    else if replacing
    then collapse true s
    else b'-' ∷ collapse true s

abbrev or_x : Text → Text
or_x [] = codes "x"
or_x (c ∷ s) = c ∷ s

unfoldable sanitize : Text → ℕ → Text
unfolding collapse strip
sanitize s maxlen =
    or_x (strip is_dash (take maxlen (strip is_dash (collapse false (map to_lower s)))))

-- `hex` is what `secrets.token_hex(16)` returns.
unfoldable pub new_environment_id : Text → Text → Text
unfolding sanitize
new_environment_id template hex = sanitize template 30 ++ (b'-' ∷ hex)

abbrev as_label : Text → Option Text
as_label [] = none
as_label (c ∷ label) = if any (λ d. nat_beq d b'.') (c ∷ label) then none else some (c ∷ label)

-- The text without an ending; nothing where it ends otherwise.
abbrev before_suffix : Text → Text → Option Text
before_suffix suffix host =
    if leb (length suffix) (length host) && drop (length host - length suffix) host == suffix
    then as_label (take (length host - length suffix) host)
    else none

-- The text up to the first colon, after the dots at the end are gone.
abbrev host_part : Text → Text
host_part host = (span (λ c. not (nat_beq c b':')) (drop_while_end (λ c. nat_beq c b'.') host)).0

unfoldable pub exposure_label : Text → Text → Option Text
unfolding normalize
exposure_label host base_domain =
    before_suffix (b'.' ∷ normalize base_domain) (host_part (normalize host))

-- The label of an exposure is read back from its hostname.
exposure_label_run :
    exposure_label (exposure_host (codes "docs--acme") (codes "cawl.test")) (codes "cawl.test")
    ≡ some (codes "docs--acme")
unfolding exposure_label exposure_host normalize strip drop_while drop_while_end ◌==◌ span
exposure_label_run = refl
