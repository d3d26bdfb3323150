-- ===== src/Config/Yaml.antt =====
-- The values that `yaml.safe_load` gives config.py, and what it asks of them.
-- What `yaml.safe_load` returns. Keys of a mapping are distinct and plain; a value of another type, a
-- float or a date, is its text and whether Python takes it as true.
use cawl.Prelude.{
  Bool, List, Option, Text, ◌==◌, [], codes, false, none, some, true, ℕ, ◌∷◌, if◌then◌else◌, ltb,
  not, any, ◌||◌,
}
use cawl.Ingress.{show}
use cawl.Params.{empty_text}

pub data Scalar : Type 0 where
  null : Scalar
  boolean : Bool → Scalar
  number : ℕ → Scalar
  negative : ℕ → Scalar
  string : Text → Scalar
  other : Text → Bool → Scalar

mutual
  pub data Node : Type 0 where
    scalar : Scalar → Node
    sequence : Nodes → Node
    mapping : Entries → Node

  pub data Nodes : Type 0 where
    no_nodes : Nodes
    node : Node → Nodes → Nodes

  pub data Entries : Type 0 where
    no_entries : Entries
    entry : Scalar → Node → Entries → Entries

-- `str`
unfoldable pub str_scalar : Scalar → Text
unfolding show
str_scalar null = codes "None"
str_scalar (boolean true) = codes "True"
str_scalar (boolean false) = codes "False"
str_scalar (number n) = show n
str_scalar (negative n) = b'-' ∷ show n
str_scalar (string s) = s
str_scalar (other s b) = s

-- `bool`
abbrev pub truthy_scalar : Scalar → Bool
truthy_scalar null = false
truthy_scalar (boolean b) = b
truthy_scalar (number n) = ltb 0 n
truthy_scalar (negative n) = ltb 0 n
truthy_scalar (string s) = not (empty_text s)
truthy_scalar (other s b) = b

abbrev pub truthy : Node → Bool
truthy (scalar s) = truthy_scalar s
truthy (sequence no_nodes) = false
truthy (sequence (node x xs)) = true
truthy (mapping no_entries) = false
truthy (mapping (entry k v es)) = true

abbrev pub is_key : Text → Scalar → Bool
is_key name (string s) = s == name
is_key name _ = false

-- `d.get(name)`
unfoldable pub get_key : Text → Entries → Option Node
get_key name no_entries = none
get_key name (entry k v es) = if is_key name k then some v else get_key name es

-- `isinstance(x, dict)`; `x or {}` is a dict too where `x` is false.
abbrev pub as_mapping : Node → Option Entries
as_mapping (mapping es) = some es
as_mapping _ = none

abbrev pub or_mapping : Option Node → Option Entries
or_mapping none = some no_entries
or_mapping (some x) = if truthy x then as_mapping x else some no_entries

abbrev pub truthy_at : Option Node → Bool
truthy_at none = false
truthy_at (some x) = truthy x

abbrev pub is_null : Option Node → Bool
is_null none = true
is_null (some (scalar null)) = true
is_null (some x) = false

-- The characters of a text, which a loop over it gives one by one.
unfoldable pub characters : Text → List Text
characters [] = []
characters (c ∷ s) = (c ∷ []) ∷ characters s

unfoldable pub keys : Entries → List Text
keys no_entries = []
keys (entry k v es) = str_scalar k ∷ keys es

-- `set(d) - {…}` is not empty.
unfoldable pub has_unknown : List Text → Entries → Bool
has_unknown known no_entries = false
has_unknown known (entry k v es) = not (any (λ name. is_key name k) known) || has_unknown known es
