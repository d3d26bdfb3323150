-- ===== src/Params.antt =====
-- server/cawl_core/params.py: what a template accepts as arguments, and how its hooks see them.
-- Texts are code points; character classes are those of Python on ASCII text.
pub mod Patterns
pub mod Templates
pub mod Quoting
pub mod Inserting
mod Tests
use cawl.Prelude.{
  lookup, List, Text, ℕ, Bool, Option, Result, true, ◌∷◌, err, false, if◌then◌else◌, ok, some, [],
  ltb, not, length, ◌&&◌, codes, contains, none,
}
use cawl.Errors.{Error, param_error}
use cawl.Params.Patterns.{name_matches, value_matches}

pub record Param : Type 0 where
  pub name : Text
  pub default : Option Text
  pub required : Bool
  pub choices : List Text
  pub pattern : Text

abbrev pub max_args : ℕ
max_args = 20

abbrev pub empty_text : Text → Bool
empty_text [] = true
empty_text (c ∷ s) = false

abbrev no_choices : List Text → Bool
no_choices [] = true
no_choices (c ∷ cs) = false

-- `re.match(pattern, value)` for a template's own pattern is the argument `regex`.
module _ (regex : Text → Text → Bool) where
  -- `Param.check`
  unfoldable pub check : Param → Text → Result Error Text
  check p value =
      if not (value_matches value)
      then err (param_error p.name)
      else if not (no_choices p.choices) && not (contains p.choices value)
      then err (param_error p.name)
      else if not (empty_text p.pattern) && not (regex p.pattern value)
      then err (param_error p.name)
      else ok value

  abbrev declares : Text → List (Text × Param) → Bool
  declares name params = elim (lookup name params) [ none ↦ false | some p ↦ true ]

  -- The loop over the supplied names.
  unfoldable pub check_names : List (Text × Param) → List (Text × Text) → Result Error (Unit {0})
  check_names params [] = ok tt
  check_names params ((name, value) ∷ rest) =
      if not (name_matches name)
      then err (param_error name)
      else if not (declares name params)
      then err (param_error name)
      else check_names params rest

  abbrev pub with_value :
      Text
      → Result Error Text
      → Result Error (List (Text × Text))
      → Result Error (List (Text × Text))
  with_value name (err e) rest = err e
  with_value name (ok v) (err e) = err e
  with_value name (ok v) (ok vs) = ok ((name, v) ∷ vs)

  -- One declared parameter: the supplied value, else the default, else nothing or an error; and the
  -- parameters after it.
  abbrev pub resolve_one :
      Text
      → Param
      → Option Text
      → Option Text
      → Bool
      → Result Error (List (Text × Text))
      → Result Error (List (Text × Text))
  resolve_one name p (some v) d required rest = with_value name (check p v) rest
  resolve_one name p none (some d) required rest = with_value name (check p d) rest
  resolve_one name p none none true rest = err (param_error name)
  resolve_one name p none none false rest = rest

  unfoldable pub resolve_params :
      List (Text × Param) → List (Text × Text) → Result Error (List (Text × Text))
  unfolding check
  resolve_params [] supplied = ok []
  resolve_params ((name, p) ∷ ps) supplied =
      resolve_one name p (lookup name supplied) p.default p.required (resolve_params ps supplied)

  abbrev after_names :
      Result Error (Unit {0})
      → Result Error (List (Text × Text))
      → Result Error (List (Text × Text))
  after_names (err e) r = err e
  after_names (ok u) r = r

  unfoldable pub resolve :
      List (Text × Param) → List (Text × Text) → Result Error (List (Text × Text))
  unfolding check_names resolve_params
  resolve params supplied =
      if ltb max_args (length supplied)
      then err (param_error (codes "too many args"))
      else after_names (check_names params supplied) (resolve_params params supplied)
