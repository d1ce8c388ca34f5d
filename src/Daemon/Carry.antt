-- ===== src/Daemon/Carry.antt =====
-- runkod/trivialrebase.go: carryForwardTrivialRebase, which the receive side calls for a push that
-- trivialRebaseOf, a question to git, takes for a trivial rebase. Settings that cannot be read are
-- none, and log lines are left out.
pub mod Approvals
pub mod Covered
mod Examples
use runko.Prelude.{
  ℕ, Bool, true, false, Option, none, some, List, [], ◌∷◌, ◌++◌, all, is_empty, Text, text_eq,
  lookup, put, if◌then◌else◌,
}
use runko.Affected.Types.{Result}
use runko.Land.Revalidation.{
  RevalidationScope, conflict_only, affected_intersection, always, never, unset, other,
}
use runko.Checks.Runs.{CheckRunView, Standing, absent, running, passed, failed, standing_of}
use runko.Index.Types.{IndexedProject}
use runko.Store.Model.{
  Change, Approval, OrgSettings, MemStore, Answer, no_such_change, already_landed, no_such_comment,
  no_such_delivery, release_exists, name_taken, no_such_workspace, no_such_principal,
  no_such_invite, no_such_org, done,
}
use runko.Store.Reviews.{record_approval, list_approvals}
use runko.Store.CheckRuns.{copy_passing_check_runs, list_check_runs}
use runko.Daemon.Config.{resolve_revalidation}
use runko.Daemon.Gate.Names.{required_check_names}

-- what the receive side's processor is configured with
pub record Processor : Type 0 where
  pub global_required_checks : List Text
  pub revalidation : RevalidationScope
  pub settings : Option OrgSettings

-- orgGlobalRequiredChecks
unfoldable pub org_global_required_checks : Processor → List Text
org_global_required_checks p = elim p.settings [ none ↦ [] | some o ↦ o.global_required_checks ]

pub is_conflict_only : RevalidationScope → Bool
is_conflict_only conflict_only = true
is_conflict_only affected_intersection = false
is_conflict_only always = false
is_conflict_only never = false
is_conflict_only unset = false
is_conflict_only other = false

-- the store after a recording that may fail
recorded_or : Answer MemStore → MemStore → MemStore
recorded_or (done s') s = s'
recorded_or _ s = s

-- the loop over the approvals: those of the old head are recorded at the new one
pub carry_approvals : Text → Text → Text → List Approval → MemStore → MemStore
unfolding recorded_or text_eq
carry_approvals key old_head new_head [] s = s
carry_approvals key old_head new_head (a ∷ approvals) s =
    if text_eq a.head_sha old_head
    then carry_approvals key old_head new_head approvals
        (recorded_or (record_approval key a.owner_ref a.approved_by new_head s) s)
    else carry_approvals key old_head new_head approvals s

is_green : Standing → Bool
is_green passed = true
is_green absent = false
is_green running = false
is_green failed = false

-- green: of two runs of one name the last
pub greens : List CheckRunView → List (Text × Bool) → List (Text × Bool)
unfolding is_green put
greens [] m = m
greens (r ∷ runs) m = greens runs (put r.name (is_green (standing_of r.status r.conclusion)) m)

-- green[name]; a missing name reads as false
pub is_green_in : List (Text × Bool) → Text → Bool
unfolding lookup
is_green_in m name = elim (lookup name m) [ none ↦ false | some b ↦ b ]

-- the checks that the gate will ask for
unfoldable pub carry_required : Processor → Result → List IndexedProject → List Text
carry_required p result indexed =
    (required_check_names result indexed ++ p.global_required_checks)
    ++ org_global_required_checks p

-- whether each of them is green at the head
unfoldable pub covers : List Text → List CheckRunView → Bool
unfolding greens is_green_in
covers required runs =
    if is_empty required then true else all (is_green_in (greens runs [])) required

-- carryForwardTrivialRebase
unfoldable pub carry_forward_trivial_rebase :
    Processor → Change → Change → Result → List IndexedProject → MemStore → Bool × MemStore
unfolding carry_approvals is_conflict_only
carry_forward_trivial_rebase p old updated result indexed store =
    let key = updated.change_key in
    let s1 = carry_approvals key old.head_sha updated.head_sha (list_approvals key store) store in
    if is_conflict_only (resolve_revalidation p.settings p.revalidation)
    then (let (names, s2) = copy_passing_check_runs key old.head_sha updated.head_sha s1 in
        (covers (carry_required p result indexed) (list_check_runs key updated.head_sha s2), s2))
    else (false, s1)
