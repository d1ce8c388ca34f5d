-- ===== src/Land/Attempt.antt =====
-- platform/land/land.go: Land, cut at its ref update. `plan` is all that runs on the trunk tip that
-- was observed; `finish` is store.UpdateRef on the trunk as it is by then, a compare-and-swap, and
-- what Land returns. The git commands are the record Git: an error of a command is `none`.
pub mod Planned
pub mod Safety
pub mod Retry
pub mod History
mod Examples
use runko.Prelude.{
  ℕ, Bool, true, false, Option, none, some, List, [], Text, codes, text_eq, if◌then◌else◌,
}
use runko.Affected.Types.{ProjectInfo, Options, Result}
use runko.Affected.Compute.{compute}
use runko.Land.Revalidation.{RevalidationScope, needs_revalidation, needs_trunk_delta}
use runko.Land.Rebase.{RebaseResult, clean, conflicting, rebase}

-- `git rev-parse rev^{tree}`, `git commit-tree` with a parent ("" for none) under the landing
-- identity and the change's message, `git diff --name-only`, and `git merge-tree --write-tree` with
-- merge base, trunk tip and change head
pub record Git : Type 0 where
  pub tree_of : Text → Option Text
  pub commit_tree : Text → Text → Option Text
  pub diff_paths : Text → Text → Option (List Text)
  pub merge_tree : Text → Text → Text → ℕ × List Text

pub record Outcome : Type 0 where
  pub landed : Bool
  pub landed_sha : Text
  pub requires_revalidation : Bool
  pub conflicts : List Text
  pub race_retry : Bool

abbrev pub zero_outcome : Outcome
zero_outcome = record {
  landed = false;
  landed_sha = [];
  requires_revalidation = false;
  conflicts = [];
  race_retry = false;
}

-- zeroOID
abbrev pub zero_oid : Text
zero_oid = codes "0000000000000000000000000000000000000000"

pub record Request : Type 0 where
  pub old_base : Text
  pub change_head : Text
  pub scope : RevalidationScope
  pub change_affected : Result
  pub projects : List ProjectInfo
  pub affected_opts : Options

-- what an attempt is about to do once it has read the repository
pub data Plan : Type 0 where
  failure : Plan
  stop : Outcome → Plan
  advance : Text → Text → Plan

-- the resolved tip, "" on an unborn trunk
abbrev pub tip_text : Option Text → Text
tip_text none = []
tip_text (some tip) = tip

-- the value that UpdateRef is to find
abbrev pub expected_text : Option Text → Text
expected_text none = zero_oid
expected_text (some tip) = tip

advance_to : Text → Option Text → Plan
advance_to expected none = failure
advance_to expected (some commit) = advance expected commit

module _ (git : Git) where
  -- the trunk still is the change's base
  pub plan_fast_forward : Request → Option Text → Plan
  unfolding advance_to
  plan_fast_forward r trunk = elim (git.tree_of r.change_head) [
    | none ↦ failure
    | some tree ↦ advance_to (expected_text trunk) (git.commit_tree tree (tip_text trunk))
  ]

  plan_merged : Text → Option RebaseResult → Plan
  unfolding advance_to
  plan_merged tip none = failure
  plan_merged tip (some (conflicting paths)) = stop (record zero_outcome { conflicts = paths })
  plan_merged tip (some (clean tree)) = advance_to tip (git.commit_tree tree tip)

  pub plan_rebase : Request → Text → Plan
  unfolding plan_merged
  plan_rebase r tip =
      let (exit_code, lines) = git.merge_tree r.old_base tip r.change_head in
      plan_merged tip (rebase exit_code lines)

  module _ (sha256_hex : Text → Text) where
    -- the trunk has moved: the delta is consulted where the tier does, then the change is rebased
    pub plan_moved : Request → Text → Plan
    plan_moved r tip =
        if needs_trunk_delta r.scope
        then (elim (git.diff_paths r.old_base tip) [
          | none ↦ failure
          | some paths ↦
              if needs_revalidation r.scope r.change_affected
                (compute sha256_hex r.projects paths r.affected_opts)
              then stop (record zero_outcome { requires_revalidation = true })
              else plan_rebase r tip
        ])
        else plan_rebase r tip

    pub plan : Request → Option Text → Plan
    plan r none = if text_eq [] r.old_base then plan_fast_forward r none else failure
    plan r (some tip) =
        if text_eq tip r.old_base then plan_fast_forward r (some tip) else plan_moved r tip

-- whether `git update-ref` with this old value succeeds on the ref
pub ref_matches : Option Text → Text → Bool
ref_matches none expected = text_eq expected zero_oid
ref_matches (some tip) expected = text_eq tip expected

-- What Land returns, `none` for an error, and the trunk that it leaves.
pub finish : Option Text → Plan → Option Outcome × Option Text
unfolding ref_matches
finish now failure = (none, now)
finish now (stop outcome) = (some outcome, now)
finish now (advance expected commit) =
    if ref_matches now expected
    then (some (record zero_outcome { landed = true; landed_sha = commit }), some commit)
    else (some (record zero_outcome { race_retry = true }), now)

-- Land: the trunk as resolved, and the trunk at the ref update
pub land : Git → (Text → Text) → Request → Option Text → Option Text → Option Outcome × Option Text
land git sha256_hex r observed now = finish now (plan git sha256_hex r observed)
