-- ===== src/Params/Tests.antt =====
-- The theorems about hooks at concrete inputs.
use cawl.Prelude.{Text, codes, ◌≡◌, ◌++◌, refl, List, ◌∷◌, [], ◌==◌, lookup}
use cawl.Params.Templates.{
  pieces, sort_values, quote, substitute, scan, match_placeholder, render, escape, insert_sorted,
}
use cawl.Params.Patterns.{span}
use cawl.Params.Inserting.{Exported, Inserted, render-Inserted}

abbrev values : List (Text × Text)
values = (codes "a", codes "x; ls") ∷ []

-- The script `run {{a}}`.
render-Inserted_example :
    (lines : Text) × (body : Text) × (codes "a='x; ls'; export a\nrun 'x; ls'" ≡ lines ++ body)
    × Exported (sort_values values) lines
    × Inserted values (pieces (codes "run {{a}}")) body
unfolding render pieces scan match_placeholder span substitute lookup quote escape sort_values
    insert_sorted ◌==◌
render-Inserted_example =
    render-Inserted (codes "run {{a}}") values (codes "a='x; ls'; export a\nrun 'x; ls'") refl refl
