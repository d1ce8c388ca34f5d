-- ===== src/Affected/Names/Examples.antt =====
-- A workspace of two projects on which the closure from names applies.
use runko.Prelude.{◌≡◌, ◌↔◌, true, some, List, [], ◌∷◌, map, Text, codes, mem}
use runko.Affected.Types.{ProjectInfo}
use runko.Affected.Closure.Reach.{Reached}
use runko.Affected.Compute.{by_name}
use runko.Affected.Names.{
  known_names, close_over_dependent_names, close_over_dependent_names-Reached,
}

abbrev project : Text → List Text → ProjectInfo
project name deps = record {
  name = name;
  path = name;
  declared_dependencies = deps;
  test_dependencies = [];
  consumes = [];
  contract_paths = [];
}

abbrev workspace : List ProjectInfo
workspace = project (codes "lib") [] ∷ project (codes "app") (codes "lib" ∷ []) ∷ []

abbrev names : List Text
names = codes "lib" ∷ codes "gone" ∷ []

close_over_dependent_names-Reached_example :
    ((mem (codes "app") (map (λ r. r.name) (close_over_dependent_names workspace names)) ≡ true)
      ↔ Reached workspace (known_names workspace names) (codes "app"))
    × ((mem (codes "app") (known_names workspace names) ≡ true) ↔ (
        (mem (codes "app") names ≡ true)
        × ((p : ProjectInfo) × (by_name workspace (codes "app") ≡ some p))))
close_over_dependent_names-Reached_example =
    close_over_dependent_names-Reached workspace names (codes "app")
