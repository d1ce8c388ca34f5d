-- ===== src/Daemon/Repo.antt =====
-- What the daemon reads of the repository, and runkod/api.go: computeAffected; runkod/history.go:
-- baseTrunkRelation, changeWithHead, parentLandedOnTrunk. The git commands and the scan of a tree
-- are the record Repo; a result that fails is none. The memo tables answer what they were given,
-- and are left out.
use runko.Prelude.{
  ℕ, Bool, true, false, ◌&&◌, ◌==◌, not, Option, none, some, List, [], ◌∷◌, ◌++◌, is_empty, Text,
  codes, text_eq, if◌then◌else◌,
}
use runko.Affected.Types.{Result, conservative}
use runko.Affected.Compute.{compute}
use runko.Index.Types.{IndexedProject}
use runko.Index.Infos.{affected_project_infos, root_invalidation, prose}
use runko.Store.Model.{landed, Change, MemStore}
use runko.Store.Listings.{list_changes, same_state}
use runko.Daemon.Config.{Server}

-- index.Scan at a revision, `git diff --name-only`, the trunk ref, the two counts of
-- `git rev-list --count --left-right base...tip`, and `git merge-base --is-ancestor base trunk`
pub record Repo : Type 0 where
  pub scan : Text → Option (List IndexedProject)
  pub diff_names : Text → Text → Option (List Text)
  pub trunk_tip : Option Text
  pub left_right : Text → Text → Option (ℕ × ℕ)
  pub is_ancestor_of_trunk : Text → Bool

-- emptyTreeOID
abbrev pub empty_tree_oid : Text
empty_tree_oid = codes "4b825dc642cb6eb9a060e54bf8d69288fbee4904"

-- the paths of the change and what they affect, by the projects of its own tree
pub affected_of : (Text → Text) → Server → List IndexedProject → List Text → Result
unfolding affected_project_infos root_invalidation prose
affected_of sha256_hex s indexed changed =
    compute sha256_hex (affected_project_infos indexed) changed (record {
      root_invalidation_patterns = root_invalidation indexed ++ s.root_invalidation_patterns;
      refinable_patterns = [];
      refinable_handled = false;
      strictness = conservative;
      prose_patterns = prose indexed;
    })

-- computeAffected
unfoldable pub compute_affected :
    (Text → Text) → Server → Repo → Change → Option (Result × List IndexedProject)
unfolding affected_of
compute_affected sha256_hex s repo change = elim (repo.scan change.head_sha) [
  | none ↦ none
  | some indexed ↦
      let base = if is_empty change.base_sha then empty_tree_oid else change.base_sha in
      elim (repo.diff_names base change.head_sha) [
        | none ↦ none
        | some changed ↦ some (affected_of sha256_hex s indexed changed, indexed)
      ]
]

-- autoApproveZones without the veto: the projects of the trunk
pub trunk_projects : Repo → List IndexedProject
trunk_projects repo = elim repo.trunk_tip [
  | none ↦ []
  | some tip ↦ elim (repo.scan tip) [ none ↦ [] | some indexed ↦ indexed ]
]

-- baseOnTrunk, the first half of baseTrunkRelation
unfoldable pub base_on_trunk : Repo → Text → Bool
unfolding text_eq
base_on_trunk repo base = if is_empty base then true else elim repo.trunk_tip [
  | none ↦ false
  | some tip ↦
      if text_eq base tip
      then true
      else elim (repo.left_right base tip) [ none ↦ false | some (left, right) ↦ left == 0 ]
]

pub with_head : Text → List Change → Option Change
unfolding text_eq
with_head head [] = none
with_head head (c ∷ cs) = if text_eq c.head_sha head then some c else with_head head cs

-- changeWithHead
unfoldable pub change_with_head : MemStore → Text → Option Change
unfolding with_head list_changes
change_with_head store head =
    if is_empty head then none else with_head head (list_changes none store)

-- parentLandedOnTrunk
unfoldable pub parent_landed_on_trunk : Repo → MemStore → Text → Bool
unfolding change_with_head base_on_trunk same_state
parent_landed_on_trunk repo store base =
    if is_empty base then false else elim (change_with_head store base) [
      | none ↦ false
      | some parent ↦
          same_state parent.state landed
          && (not (is_empty parent.landed_sha) && base_on_trunk repo parent.landed_sha)
    ]
