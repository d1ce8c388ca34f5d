-- ===== src/Daemon/Aftermath.antt =====
-- What follows a land in the store. runkod/workspace.go: maybeCloseAgentWorkspace;
-- runkod/deployimages.go: openDeployRecordForLand; runkod/api.go: enqueueLandedWebhook; and the
-- timeline row of runkod/actions.go: landChangeCore.
pub mod Same
use runko.Prelude.{
  ℕ, ◌-◌, Bool, true, false, not, Option, none, some, List, [], ◌++◌, any, is_empty, Text, codes,
  text_eq, if◌then◌else◌,
}
use runko.Store.Model.{
  opened, Change, WorkspaceStatus, active, detached, closed, WorkspaceEvent, change_landed,
  workspace_closed, MemStore, done,
}
use runko.Store.Listings.{list_changes}
use runko.Store.Deploys.{open_deploy_record, prune_stale_pending_deploy_records}
use runko.Store.Outbox.{enqueue_webhook}
use runko.Store.Workspaces.{get_workspace, set_workspace_status, record_workspace_event}
use runko.Daemon.Config.{Server, is_agent_principal_name}

abbrev pub blank_event : WorkspaceEvent
blank_event = record {
  id = 0;
  event_type = change_landed;
  workspace_id = [];
  branch = [];
  actor = [];
  sha = [];
  change_key = [];
  files_changed = 0;
  additions = 0;
  deletions = 0;
  occurred_at = 0;
}

is_closed : WorkspaceStatus → Bool
is_closed active = false
is_closed detached = false
is_closed closed = true

-- maybeCloseAgentWorkspace
unfoldable pub maybe_close_agent_workspace : Server → Text → ℕ → MemStore → MemStore
unfolding is_closed any text_eq
maybe_close_agent_workspace s id now store =
    if not s.single_use_agent_workspaces
    then store
    else if is_empty id
    then store
    else elim (get_workspace id store) [
      | none ↦ store
      | some ws ↦
          if is_closed ws.status
          then store
          else if not (is_agent_principal_name s store ws.owner)
          then store
          else if any (λ c. text_eq c.origin_workspace id) (list_changes (some opened) store)
          then store
          else elim (set_workspace_status id closed store) [
            | done (ws', store') ↦
                (record_workspace_event
                  (record blank_event {
                    event_type = workspace_closed;
                    workspace_id = id;
                    actor = ws.owner;
                  })
                  now store').1
            | _ ↦ store
          ]
    ]

-- deployRecordTTL, in seconds
abbrev pub deploy_record_ttl : ℕ
deploy_record_ttl = 86400

-- openDeployRecordForLand, over the images that the landed head's tree derives
unfoldable pub open_deploy_record_for_land : List Text → Change → Text → ℕ → MemStore → MemStore
open_deploy_record_for_land images change landed_sha now store =
    if is_empty images
    then store
    else open_deploy_record landed_sha change.change_key
        (codes "runko change " ++ change.change_key) images now
        (prune_stale_pending_deploy_records (now - deploy_record_ttl) store).1

-- enqueueLandedWebhook, over the marshalled envelope; none where it does not marshal
unfoldable pub enqueue_landed_webhook : Option Text → MemStore → MemStore
enqueue_landed_webhook none store = store
enqueue_landed_webhook (some payload) store =
    (enqueue_webhook (codes "change.landed") payload store).1

-- the timeline row of a change that came from a workspace
unfoldable pub record_landed_event : Change → Text → Text → Text → ℕ → MemStore → MemStore
record_landed_event change key by sha now store =
    if is_empty change.origin_workspace
    then store
    else (record_workspace_event
        (record blank_event {
          event_type = change_landed;
          workspace_id = change.origin_workspace;
          branch = change.origin_branch;
          actor = by;
          sha = sha;
          change_key = key;
        })
        now store).1
