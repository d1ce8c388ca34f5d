-- ===== src/Store/Workspaces.antt =====
-- The methods of workspaces, of their event timelines and of their activity feeds. A page's offset
-- below 0 is 0.
pub mod Timeline
use runko.Prelude.{
  ℕ, suc, ◌-◌, ◌==◌, Option, none, some, List, [], ◌∷◌, ◌++◌, length, Text, lookup, put, remove,
  values, sort_by, if◌then◌else◌,
}
use runko.Store.Model.{
  WorkspaceStatus, Workspace, WorkspaceEvent, WorkspaceActivity, MemStore, Answer, name_taken,
  no_such_workspace, done, at_key,
}
use runko.Store.Reviews.{drop, page}

-- CreateWorkspace
unfoldable pub create_workspace : Workspace → ℕ → MemStore → Answer (Workspace × MemStore)
unfolding lookup put
create_workspace ws now s = elim (lookup ws.id s.workspaces) [
  | some taken ↦ name_taken
  | none ↦
      let ws' = record ws { created_at = now } in
      done (ws', record s { workspaces = put ws.id ws' s.workspaces })
]

-- GetWorkspace
unfoldable pub get_workspace : Text → MemStore → Option Workspace
unfolding lookup
get_workspace id s = lookup id s.workspaces

-- ListWorkspaces
unfoldable pub list_workspaces : MemStore → List Workspace
unfolding values sort_by
list_workspaces s = sort_by (λ w. w.id) (values s.workspaces)

-- store what `f` makes of the workspace
alter_workspace : (Workspace → Workspace) → Text → MemStore → Answer (Workspace × MemStore)
unfolding lookup put
alter_workspace f id s = elim (lookup id s.workspaces) [
  | none ↦ no_such_workspace
  | some ws ↦ done (f ws, record s { workspaces = put id (f ws) s.workspaces })
]

-- UpdateWorkspaceBase
unfoldable pub update_workspace_base : Text → Text → MemStore → Answer (Workspace × MemStore)
unfolding alter_workspace
update_workspace_base id base_revision =
    alter_workspace (λ w. record w { base_revision = base_revision }) id

-- SetWorkspaceStatus
unfoldable pub set_workspace_status :
    Text → WorkspaceStatus → MemStore → Answer (Workspace × MemStore)
unfolding alter_workspace
set_workspace_status id status = alter_workspace (λ w. record w { status = status }) id

-- DeleteWorkspace
unfoldable pub delete_workspace : Text → MemStore → Answer MemStore
unfolding lookup remove
delete_workspace id s = elim (lookup id s.workspaces) [
  | none ↦ no_such_workspace
  | some ws ↦ done (record s { workspaces = remove id s.workspaces })
]

-- workspaceEventRetentionCap
abbrev pub workspace_event_retention_cap : ℕ
workspace_event_retention_cap = 500

-- workspaceActivityRetentionCap
abbrev pub workspace_activity_retention_cap : ℕ
workspace_activity_retention_cap = 1000

-- a feed with a row appended, less its oldest rows past the cap
pub retained : {A : Type 0} → ℕ → List A → A → List A
unfolding drop
retained cap rows row = let all = rows ++ row ∷ [] in drop (length all - cap) all

-- RecordWorkspaceEvent
unfoldable pub record_workspace_event : WorkspaceEvent → ℕ → MemStore → WorkspaceEvent × MemStore
unfolding put retained
record_workspace_event ev now s =
    let n = suc s.ws_event_seq in
    let ev' = record ev {
      id = n;
      occurred_at = if ev.occurred_at == 0 then now else ev.occurred_at;
    } in
    (
      ev',
      record s {
        ws_event_seq = n;
        ws_events =
            put ev.workspace_id
              (retained workspace_event_retention_cap (at_key ev.workspace_id s.ws_events) ev')
              s.ws_events;
      },
    )

pub reversed : {A : Type 0} → List A → List A
reversed [] = []
reversed (x ∷ xs) = reversed xs ++ x ∷ []

-- ListWorkspaceEvents
unfoldable pub list_workspace_events : Text → ℕ → ℕ → MemStore → List WorkspaceEvent
unfolding reversed page
list_workspace_events id limit offset s = page (reversed (at_key id s.ws_events)) limit offset

-- DeleteWorkspaceEvents
unfoldable pub delete_workspace_events : Text → MemStore → MemStore
unfolding remove
delete_workspace_events id s = record s { ws_events = remove id s.ws_events }

-- one round of the loop of RecordWorkspaceActivity
record_activity : WorkspaceActivity → ℕ → MemStore → WorkspaceActivity × MemStore
unfolding put retained
record_activity ev now s =
    let n = suc s.ws_activity_seq in
    let ev' = record ev {
      id = n;
      occurred_at = if ev.occurred_at == 0 then now else ev.occurred_at;
    } in
    (
      ev',
      record s {
        ws_activity_seq = n;
        ws_activity =
            put ev.workspace_id
              (retained workspace_activity_retention_cap (at_key ev.workspace_id s.ws_activity) ev')
              s.ws_activity;
      },
    )

-- RecordWorkspaceActivity
unfoldable pub record_workspace_activity :
    List WorkspaceActivity → ℕ → MemStore → List WorkspaceActivity × MemStore
unfolding record_activity
record_workspace_activity [] now s = ([], s)
record_workspace_activity (ev ∷ evs) now s =
    let (ev', s1) = record_activity ev now s in
    let (out, s2) = record_workspace_activity evs now s1 in (ev' ∷ out, s2)

-- ListWorkspaceActivity
unfoldable pub list_workspace_activity : Text → ℕ → ℕ → MemStore → List WorkspaceActivity
unfolding reversed page
list_workspace_activity id limit offset s = page (reversed (at_key id s.ws_activity)) limit offset

newest : List WorkspaceActivity → Option WorkspaceActivity
newest [] = none
newest (e ∷ es) = elim (newest es) [ none ↦ some e | some l ↦ some l ]

-- LatestWorkspaceActivity
unfoldable pub latest_workspace_activity : List Text → MemStore → List (Text × WorkspaceActivity)
unfolding newest put
latest_workspace_activity [] s = []
latest_workspace_activity (id ∷ ids) s =
    let rest = latest_workspace_activity ids s in
    elim (newest (at_key id s.ws_activity)) [ none ↦ rest | some e ↦ put id e rest ]

-- DeleteWorkspaceActivity
unfoldable pub delete_workspace_activity : Text → MemStore → MemStore
unfolding remove
delete_workspace_activity id s = record s { ws_activity = remove id s.ws_activity }
