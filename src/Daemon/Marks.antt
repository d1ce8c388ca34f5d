-- ===== src/Daemon/Marks.antt =====
-- runkod/actions.go: abandonChangeCore; runkod/automerge.go: setAutomergeCore. Signals to the workers
-- and log lines are left out.
use runko.Prelude.{ℕ, Bool, not, ◌&&◌, Option, none, some, [], is_empty, Text, if◌then◌else◌}
use runko.Store.Model.{opened, Change, change_abandoned, MemStore, done}
use runko.Store.Changes.{get_change, mark_change_abandoned, set_change_automerge}
use runko.Store.Listings.{same_state}
use runko.Store.Workspaces.{record_workspace_event}
use runko.Daemon.Config.{Principal, Server}
use runko.Daemon.Aftermath.{blank_event, maybe_close_agent_workspace}
use runko.Daemon.Land.{invalid_state, not_found, internal, Decision, refused, decided}

name_of : Option Principal → Text
name_of none = []
name_of (some p) = p.name

-- the timeline row of an abandoned change that came from a workspace
record_abandoned_event : Change → Text → Option Principal → ℕ → MemStore → MemStore
unfolding name_of
record_abandoned_event change key principal now store =
    if is_empty change.origin_workspace
    then store
    else (record_workspace_event
        (record blank_event {
          event_type = change_abandoned;
          workspace_id = change.origin_workspace;
          branch = change.origin_branch;
          actor = name_of principal;
          sha = change.head_sha;
          change_key = key;
        })
        now store).1

-- abandonChangeCore
unfoldable pub abandon_change_core :
    Server → ℕ → Text → Option Principal → MemStore → Decision Change × MemStore
unfolding record_abandoned_event
abandon_change_core s now key principal store = elim (get_change key store) [
  | none ↦ (refused not_found, store)
  | some c ↦ elim (mark_change_abandoned key store) [
    | done (change, store') ↦ (
      decided change,
      maybe_close_agent_workspace s change.origin_workspace now
          (record_abandoned_event change key principal now store'),
    )
    | _ ↦ (refused invalid_state, store)
  ]
]

-- setAutomergeCore
unfoldable pub set_automerge_core :
    Text → Bool → Option Principal → MemStore → Decision Change × MemStore
unfolding name_of same_state
set_automerge_core key enabled principal store = elim (get_change key store) [
  | none ↦ (refused not_found, store)
  | some change ↦
      if enabled && not (same_state change.state opened)
      then (refused invalid_state, store)
      else elim (set_change_automerge key enabled (name_of principal) store) [
        | done (updated, store') ↦ (decided updated, store')
        | _ ↦ (refused internal, store)
      ]
]
