-- ===== src/Daemon/Gate/Owners.antt =====
-- runkod/api.go: owningProject and ownerRequirements. `required` with `autoOnly` is one map, from a
-- ref to whether every path that requires it lies in a zone.
pub mod Entries
pub mod Rows
use runko.Prelude.{
  ℕ, Bool, true, false, not, ◌&&◌, ◌||◌, ltb, Option, none, some, List, [], ◌∷◌, ◌++◌, map, length,
  is_empty, any, Text, text_eq, mem, sort_texts, lookup, put, if◌then◌else◌,
}
use runko.Glob.{under}
use runko.Index.Types.{IndexedProject}
use runko.Index.AutoApprove.{auto_approved}
use runko.Checks.Requirements.{OwnerRequirement}
use runko.Store.Model.{Approval}

-- what the loop takes for a match; a project with no path matches everything
pub contains_path : Text → Text → Bool
unfolding under text_eq
contains_path project_path path =
    is_empty project_path || (text_eq path project_path || under path project_path)

-- the loop: the best project so far
best_owner : List IndexedProject → Text → Option IndexedProject → Option IndexedProject
unfolding contains_path
best_owner [] path best = best
best_owner (p ∷ ps) path best = best_owner ps path (
    if contains_path p.path path
    then (elim best [
      | none ↦ some p
      | some b ↦ if ltb (length b.path) (length p.path) then some p else some b
    ])
    else best)

-- owningProject
unfoldable pub owning_project : List IndexedProject → Text → Option IndexedProject
unfolding best_owner
owning_project indexed path = best_owner indexed path none

-- one owner of one path
pub add_owner : Bool → Text → List (Text × Bool) → List (Text × Bool)
unfolding lookup put
add_owner auto ref m = elim (lookup ref m) [
  | none ↦ put ref auto m
  | some b ↦ put ref (b && auto) m
]

pub add_owners : Bool → List Text → List (Text × Bool) → List (Text × Bool)
unfolding add_owner
add_owners auto [] m = m
add_owners auto (ref ∷ refs) m = add_owners auto refs (add_owner auto ref m)

-- the owners of the path, none where no project contains it
pub owners_of : List IndexedProject → Text → List Text
unfolding owning_project
owners_of indexed path = elim (owning_project indexed path) [ none ↦ [] | some p ↦ p.owners ]

-- the loop over the changed paths
pub owner_map :
    List IndexedProject → List IndexedProject → List Text → List (Text × Bool) → List (Text × Bool)
unfolding owners_of add_owners
owner_map indexed zones [] m = m
owner_map indexed zones (path ∷ paths) m =
    owner_map indexed zones paths (add_owners (auto_approved zones path) (owners_of indexed path) m)

unfoldable pub keys : {V : Type 0} → List (Text × V) → List Text
keys [] = []
keys ((k, v) ∷ d) = k ∷ keys d

-- the owners who approved the head, and its author where they are a required owner and no agent
pub approved_refs : Text → Text → Bool → List (Text × Bool) → List Approval → List Text
unfolding text_eq mem keys
approved_refs head_sha authored_by is_agent required [] =
    if not (is_empty authored_by) && (mem authored_by (keys required) && not is_agent)
    then authored_by ∷ []
    else []
approved_refs head_sha authored_by is_agent required (a ∷ approvals) =
    let rest = approved_refs head_sha authored_by is_agent required approvals in
    if text_eq a.head_sha head_sha then a.owner_ref ∷ rest else rest

-- m[ref]; a missing key reads as false
pub reads_true : Text → List (Text × Bool) → Bool
unfolding lookup
reads_true ref m = elim (lookup ref m) [ none ↦ false | some b ↦ b ]

-- the row of a required owner
pub row_of : List Text → List (Text × Bool) → Text → OwnerRequirement
unfolding mem reads_true
row_of approved required ref = record {
  owner_ref = ref;
  satisfied = mem ref approved || reads_true ref required;
}

-- whether the row is satisfied by a zone alone
pub waives : List Text → List (Text × Bool) → Text → Bool
unfolding mem reads_true
waives approved required ref = not (mem ref approved) && reads_true ref required

-- ownerRequirements: the rows, and whether a zone satisfied one of them
unfoldable pub owner_requirements :
    Text
    → Text
    → Bool
    → List Approval
    → List Text
    → List IndexedProject
    → List IndexedProject
    → List OwnerRequirement × Bool
unfolding owner_map approved_refs row_of waives keys sort_texts any
owner_requirements head_sha authored_by is_agent approvals paths indexed zones =
    let required = owner_map indexed zones paths [] in
    let approved = approved_refs head_sha authored_by is_agent required approvals in
    let refs = sort_texts (keys required) in
    (map (row_of approved required) refs, any (waives approved required) refs)
