-- ===== src/Lib.antt =====
-- Verification library of Runko, a monorepo server: changes are pushed to it, checked, reviewed and
-- landed on a trunk.
--
-- The parts, and how they interact. The receive funnel decides on a push; an accepted push makes or
-- moves a change in the store. The affected computation maps changed paths to projects; its results
-- name the checks that a change needs. Check runs, owners and check sets make the merge
-- requirements; a change that meets them is landed by a compare-and-swap on the trunk, which is
-- tried again when another land was faster. The daemon puts this together: its gate reads the
-- repository, the store and the org's settings, its land passes the gate, a stack lands member by
-- member from the bottom. Events leave by the webhook outbox, and post-land
-- builds report images to deploy records.
--
-- Which file models what (paths from the repository's root):
--   Glob, Glob/PathMatch        platform/affected/compute.go: MatchPath, MatchOrdered,
--                               MatchOrderedWhich, over a model of Go's path.Match
--   Affected/Types              ProjectInfo, ProjectRef, Options, Result of the same file
--   Affected/Owner              findOwner, findRootProject
--   Affected/Closure            closeOverDependents; its state is the record Walk
--   Affected/Compute            Compute; the loop over the paths has the state Scan
--   Affected/Names              CloseOverDependentNames
--   Index/Types, Selection      platform/index/scan.go: IndexedProject, ChecksFor, PostLandChecks
--   Index/Infos                 platform/index/affectedinfo.go; RootInvalidation and Prose
--   Index/AutoApprove           platform/index/autoapprove.go
--   Land/Revalidation           platform/land/revalidate.go
--   Land/Rebase                 platform/land/rebase.go: Rebase behind git merge-tree
--   Land/Attempt                platform/land/land.go: Land, cut at the ref update in `plan` and
--                               `finish`; Land/Attempt/Retry is the loop of runkod/land.go
--   Checks/Runs, Checks/Sets    platform/checks/checkset.go and staleness.go
--   Checks/Requirements         platform/checks/requirements.go and buildbinding.go
--   Checks/Delivery             platform/checks/delivery.go: NextBackoff
--   Contract                    platform/contract/check.go
--   Receive/Policy              platform/receive/policy.go
--   Receive/MagicRef, ChangeId  platform/receive/magicref.go and changeid.go
--   Receive/Funnel              platform/receive/funnel.go: Decide
--   Store/Model                 runkod/store.go: MemStore's maps as one record
--   Store/Changes, Listings, Reviews, CheckRuns, Deploys, Releases, Mirrors, Outbox, Workspaces,
--   Accounts, Invites, Orgs     its methods, each a function of the store; Store/Lifecycle has them
--                               as a step relation
--   Daemon/Config               runkod/principal.go, botlane.go, and the settings of runkod/api.go
--   Daemon/Repo                 the repository, and computeAffected and parentLandedOnTrunk over it
--   Daemon/Gate                 runkod/api.go: mergeRequirements; Gate/Names requiredCheckNames,
--                               Gate/Owners ownerRequirements, Gate/Attention attentionSet
--   Daemon/Land, Aftermath      runkod/actions.go: landChangeCore, and what follows it in the store
--   Daemon/LandStack            runkod/landstack.go: landStackCore
--   Daemon/Actions, Marks       runkod/actions.go: the cores of approve, acknowledge, rerun, abandon
--   Daemon/Automerge            runkod/automerge.go: SweepOnce
--   Daemon/Agents               runkod/agentprincipal.go: credentials of agents
--   Daemon/Carry                runkod/trivialrebase.go: carryForwardTrivialRebase
--   Prelude and its children    shared helpers: native numbers, lists, texts, maps, sorting
-- The other files below a module hold the proofs about it, and files named Examples its witnesses.
--
-- Conventions. A Go string is the list of its code points; a set of names (map[string]bool) is the
-- list of its keys, read by membership only; any other map is an association list. An error is
-- `none` or a constructor of the answer. Counters are natural numbers: a Go int that is tested to
-- be positive is 0 where it is not. A time.Duration in NextBackoff keeps its 64-bit wrap-around.
-- All other times and durations are seconds without overflow: a stale window too long for a
-- Duration, a delay of NextBackoff that has wrapped to a negative one, and a negative TTL in a
-- report of a check run (here 0, hence the default) are outside of the model. What a loop appends
-- to is what its recursion returns. The texts of messages are left out: a violation, a blocker or
-- an API error is the value that its message is printed from. A request of nobody in particular has
-- no principal, and of no bot lane no lane. The key that a handler is called with is the key of its
-- change. Reads of the store do not fail.
--
-- Bounds and fuel. The closure runs for as many rounds as there are seeds and projects, which is
-- enough since no name is queued twice. The walk down a stack runs for as many rounds as there are
-- open changes, which is enough since it sees none twice. The retry loop has the source's bound of
-- 5, a delivery the source's bound of 8 attempts. The model of path.Match takes the pattern's
-- length as fuel for reading it, of which each item takes at least one code point.
--
-- Parameters. What the daemon asks the repository (records Repo and World), Unicode case folding of
-- an invite's address, the order of ids, the random draws of a mint, SHA-256 and SHA-1 in
-- hexadecimal, the git commands (record Git), the secret scanner and Go's import parser. Hypotheses
-- on them: SHA-1 prints as 40 hexadecimal digits (PrintsHex), a new commit has its parent and an
-- object id (CommitLaws).
--
-- Not modelled: the daemon's HTTP and auth layers, the Postgres store, the reading of trees and
-- manifests, mirrors, search, build adapters, project templates, the command-line tools, the web
-- front ends and the services around the daemon, which are I/O, generated code or text generation.
mod Prelude
pub mod Glob
pub mod Affected
pub mod Index
pub mod Land
pub mod Checks
pub mod Contract
pub mod Receive
pub mod Store
pub mod Daemon
