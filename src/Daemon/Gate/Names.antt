-- ===== src/Daemon/Gate/Names.antt =====
-- runkod/api.go: requiredCheckNames.
pub mod Owed
use runko.Prelude.{
  Bool, true, false, Option, none, some, List, [], ◌∷◌, ◌++◌, map, Text, text_eq, mem, sort_texts,
  if◌then◌else◌,
}
use runko.Affected.Types.{ProjectRef, Result}
use runko.Index.Types.{IndexedProject, CheckDef}
use runko.Index.Selection.{checks_for}

-- byName: of projects with one name, the last
pub project_named : Text → List IndexedProject → Option IndexedProject
unfolding text_eq
project_named name [] = none
project_named name (p ∷ ps) = elim (project_named name ps) [
  | some q ↦ some q
  | none ↦ if text_eq p.name name then some p else none
]

-- the listed projects that the tree has, each with its mark
scoped_refs : List ProjectRef → List IndexedProject → List (IndexedProject × Bool)
unfolding project_named
scoped_refs [] indexed = []
scoped_refs (ref ∷ refs) indexed =
    let rest = scoped_refs refs indexed in
    elim (project_named ref.name indexed) [ none ↦ rest | some p ↦ (p, ref.direct) ∷ rest ]

-- the projects whose checks are owed: all of them, as direct ones, under run_everything
unfoldable pub scoped : Result → List IndexedProject → List (IndexedProject × Bool)
unfolding scoped_refs
scoped result indexed =
    if result.run_everything
    then map (λ p. (p, true)) indexed
    else scoped_refs result.projects indexed

-- the names of their checks, in order
pub owed_names : List (IndexedProject × Bool) → List Text
unfolding checks_for
owed_names [] = []
owed_names ((p, is_direct) ∷ ps) = map (λ c. c.name) (checks_for p is_direct) ++ owed_names ps

-- each name once
pub distinct_names : List Text → List Text → List Text
unfolding mem
distinct_names seen [] = []
distinct_names seen (n ∷ ns) =
    let left = distinct_names seen ns in
    let taken = n ∷ distinct_names (n ∷ seen) ns in if mem n seen then left else taken

-- requiredCheckNames
unfoldable pub required_check_names : Result → List IndexedProject → List Text
unfolding scoped owed_names distinct_names sort_texts
required_check_names result indexed =
    sort_texts (distinct_names [] (owed_names (scoped result indexed)))
