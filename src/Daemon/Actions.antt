-- ===== src/Daemon/Actions.antt =====
-- runkod/actions.go: approveChangeCore, ackPolicyCore and rerunCheckCore. Signals to the workers are
-- left out, and the rerun's envelope is a parameter, none where it does not marshal.
pub mod Approve
pub mod Acknowledge
mod Examples
use runko.Prelude.{
  ℕ, Bool, true, false, not, ◌&&◌, ◌||◌, Option, none, some, List, [], ◌∷◌, map, is_empty, Text,
  codes, text_eq, mem, lookup, if◌then◌else◌,
}
use runko.Checks.Runs.{
  CheckStatus, completed, CheckConclusion, success, CheckRunView, Standing, absent, running, passed,
  failed, find_run, standing_of,
}
use runko.Store.Model.{
  ChangeState, opened, landed, abandoned, Change, WorkspaceEvent, change_abandoned, MemStore,
  Answer, no_such_change, already_landed, no_such_comment, no_such_delivery, release_exists,
  name_taken, no_such_workspace, no_such_principal, no_such_invite, no_such_org, done,
}
use runko.Store.Changes.{get_change, mark_change_abandoned, set_change_automerge}
use runko.Store.Listings.{same_state}
use runko.Store.Reviews.{record_approval, list_approvals}
use runko.Store.CheckRuns.{list_check_runs, upsert_check_run, rerun_check}
use runko.Store.Outbox.{enqueue_webhook}
use runko.Store.Workspaces.{record_workspace_event}
use runko.Daemon.Config.{
  Principal, BotLane, Server, merge_check_names, effective_global_checks, agent_policy_for_author,
}
use runko.Daemon.Repo.{Repo, compute_affected}
use runko.Daemon.Gate.{GateView, agent_policy_check_name, merge_requirements}
use runko.Daemon.Gate.Names.{required_check_names}
use runko.Daemon.Gate.Owners.{owner_requirements}
use runko.Daemon.Aftermath.{blank_event, maybe_close_agent_workspace}
use runko.Daemon.Land.{
  ApiError, invalid_state, not_found, internal, agent_denied, name_mismatch, missing_field,
  self_approval_denied, nothing_to_acknowledge, already_acknowledged, not_a_required_owner,
  unknown_check, Decision, refused, decided,
}

-- requireOpenChange
unfoldable pub require_open_change : Change → Option ApiError
unfolding same_state
require_open_change change = if same_state change.state opened then none else some invalid_state

-- who acts: a named principal as itself, unless it is an agent or the request names another; else
-- whom the request names
unfoldable pub acting_as : Option Principal → Text → Decision Text
acting_as none by = decided by
acting_as (some p) by =
    if p.is_agent
    then refused agent_denied
    else if not (is_empty by) && not (text_eq by p.name)
    then refused name_mismatch
    else decided p.name

-- the refreshed merge requirements of a caller without a lane
pub refreshed :
    (Text → Text)
    → Server
    → Repo
    → ℕ
    → Option BotLane
    → Change
    → MemStore
    → Decision GateView × MemStore
refreshed sha256_hex s repo now lane change store =
    elim (merge_requirements sha256_hex lane s repo store now change) [
      | none ↦ (refused internal, store)
      | some g ↦ (decided g, store)
    ]

-- the owners of the change, whether or not a zone waives their approval
unfoldable pub owner_refs : (Text → Text) → Server → Repo → MemStore → Change → Option (List Text)
owner_refs sha256_hex s repo store change = elim (compute_affected sha256_hex s repo change) [
  | none ↦ none
  | some (result, indexed) ↦ some (
      map (λ o. o.owner_ref)
        (owner_requirements change.head_sha change.authored_by
          (elim (agent_policy_for_author s store change.authored_by) [
            | none ↦ false
            | some p ↦ true
          ])
          (list_approvals change.change_key store) result.paths indexed []).0)
]

-- the run that acknowledges the finding; it has no time of its own
pub acknowledgement : Text → CheckRunView
acknowledgement by = record {
  name = agent_policy_check_name;
  status = completed;
  conclusion = success;
  last_seen_at = 0;
  ttl_seconds = 0;
  details_url = [];
  copied_from_head_sha = [];
  reporter = by;
}

is_acknowledged : Standing → Bool
is_acknowledged passed = true
is_acknowledged absent = false
is_acknowledged running = false
is_acknowledged failed = false

enqueue_rerun : Option Text → MemStore → MemStore
enqueue_rerun none store = store
enqueue_rerun (some payload) store =
    (enqueue_webhook (codes "change.check_rerun_requested") payload store).1

module _ (sha256_hex : Text → Text) (s : Server) (repo : Repo) (now : ℕ) (change : Change) where
  -- the approval itself, once it is known who approves
  pub approve_as : Text → Text → MemStore → Decision GateView × MemStore
  unfolding refreshed
  approve_as owner_ref by store =
      if is_empty owner_ref || is_empty by
      then (refused missing_field, store)
      else if not (is_empty change.authored_by) && text_eq by change.authored_by
      then (refused self_approval_denied, store)
      else elim (owner_refs sha256_hex s repo store change) [
        | none ↦ (refused internal, store)
        | some refs ↦
            if not (mem owner_ref refs)
            then (refused (not_a_required_owner refs), store)
            else elim (record_approval change.change_key owner_ref by change.head_sha store) [
              | done store' ↦ refreshed sha256_hex s repo now none change store'
              | _ ↦ (refused internal, store)
            ]
      ]

  approve_by : Text → Decision Text → MemStore → Decision GateView × MemStore
  unfolding approve_as
  approve_by owner_ref (refused e) store = (refused e, store)
  approve_by owner_ref (decided by) store = approve_as owner_ref by store

  -- approveChangeCore
  unfoldable pub approve_change_core :
      Text → Text → Option Principal → MemStore → Decision GateView × MemStore
  unfolding approve_by
  approve_change_core owner_ref approved_by principal store = elim (require_open_change change) [
    | some e ↦ (refused e, store)
    | none ↦ approve_by owner_ref (acting_as principal approved_by) store
  ]

  pub ack_as : Text → MemStore → Decision GateView × MemStore
  unfolding refreshed acknowledgement is_acknowledged
  ack_as by store =
      if is_empty by
      then (refused missing_field, store)
      else elim (find_run (list_check_runs change.change_key change.head_sha store)
          agent_policy_check_name) [
            | none ↦ (refused nothing_to_acknowledge, store)
            | some run ↦
                if is_acknowledged (standing_of run.status run.conclusion)
                then (refused already_acknowledged, store)
                else refreshed sha256_hex s repo now none change (
                    upsert_check_run change.change_key change.head_sha (acknowledgement by) now
                      store)
          ]

  ack_by : Decision Text → MemStore → Decision GateView × MemStore
  unfolding ack_as
  ack_by (refused e) store = (refused e, store)
  ack_by (decided by) store = ack_as by store

  -- ackPolicyCore
  unfoldable pub ack_policy_core : Text → Option Principal → MemStore → Decision GateView × MemStore
  unfolding ack_by
  ack_policy_core acked_by principal store = elim (require_open_change change) [
    | some e ↦ (refused e, store)
    | none ↦ ack_by (acting_as principal acked_by) store
  ]

  -- the checks that may be rerun
  unfoldable pub rerunnable : Option (List Text)
  rerunnable = elim (compute_affected sha256_hex s repo change) [
    | none ↦ none
    | some (result, indexed) ↦
        some (merge_check_names (required_check_names result indexed) (effective_global_checks s))
  ]

  -- rerunCheckCore
  unfoldable pub rerun_check_core :
      Text → Option Text → Option BotLane → MemStore → Decision GateView × MemStore
  unfolding refreshed enqueue_rerun
  rerun_check_core name envelope lane store = elim (require_open_change change) [
    | some e ↦ (refused e, store)
    | none ↦ elim rerunnable [
      | none ↦ (refused internal, store)
      | some required ↦
          if not (mem name required)
          then (refused (unknown_check required), store)
          else elim (rerun_check change.change_key name now store) [
            | done (run, store') ↦
                refreshed sha256_hex s repo now lane change (enqueue_rerun envelope store')
            | _ ↦ (refused internal, store)
          ]
    ]
  ]
