-- ===== src/Store/Model.antt =====
-- The rows that MemStore keeps, and its maps.
use runko.Prelude.{ℕ, Bool, none, some, List, [], Text, lookup}
use runko.Checks.Runs.{CheckRunView}
use runko.Receive.Policy.{AgentPolicy}

-- "open", "landed" and "abandoned"
pub data ChangeState : Type 0 where
  opened landed abandoned : ChangeState

pub record Change : Type 0 where
  pub change_key : Text
  pub state : ChangeState
  pub base_sha : Text
  pub head_sha : Text
  pub git_ref : Text
  pub title : Text
  pub description : Text
  pub test_plan : Text
  pub landed_sha : Text
  pub landed_at : ℕ
  pub authored_by : Text
  pub landed_by : Text
  pub landed_forced : Bool
  pub origin_workspace : Text
  pub origin_branch : Text
  pub automerge : Bool
  pub automerge_by : Text

pub record Approval : Type 0 where
  pub owner_ref : Text
  pub approved_by : Text
  pub head_sha : Text

-- `id` is the number of the source's "cmt_<number>"
pub record Comment : Type 0 where
  pub id : ℕ
  pub author : Text
  pub author_is_agent : Bool
  pub body : Text
  pub path : Text
  pub side : Text
  pub line : ℕ
  pub head_sha : Text
  pub parent_id : Text
  pub resolved : Bool
  pub created_at : ℕ

pub record ReviewRequest : Type 0 where
  pub reviewer : Text
  pub requested_by : Text
  pub created_at : ℕ

pub record DeployImageRow : Type 0 where
  pub image : Text
  pub image_ref : Text
  pub digest : Text
  pub run_url : Text

-- memDeployRecord; `ready` stands for the state "ready" against "pending"
pub record DeployRecord : Type 0 where
  pub change_key : Text
  pub expected : List Text
  pub provenance : Text
  pub reported : List (Text × DeployImageRow)
  pub ready : Bool
  pub created_at : ℕ

pub record Release : Type 0 where
  pub project_name : Text
  pub project_path : Text
  pub version : Text
  pub tag_ref : Text
  pub tag_sha : Text
  pub target_sha : Text
  pub head_change_key : Text
  pub changelog : Text
  pub created_by : Text
  pub created_at : ℕ

pub record MirrorCursor : Type 0 where
  pub ref : Text
  pub last_synced_sha : Text
  pub frozen : Bool
  pub updated_at : ℕ

pub data DeliveryStatus : Type 0 where
  pending delivered failed dead_letter : DeliveryStatus

-- memDelivery, its number in place of "dlv_<number>"; `attempt` is the counter behind the row's
pub record Delivery : Type 0 where
  pub id : ℕ
  pub event_type : Text
  pub payload : Text
  pub status : DeliveryStatus
  pub attempt : ℕ
  pub next_attempt_at : ℕ
  pub last_error : Text

pub data WorkspaceStatus : Type 0 where
  active detached closed : WorkspaceStatus

pub record Workspace : Type 0 where
  pub id : Text
  pub owner : Text
  pub base_revision : Text
  pub project_affinity : List Text
  pub write_allowlist : List Text
  pub snapshot_ref : Text
  pub status : WorkspaceStatus
  pub created_at : ℕ

pub data WorkspaceEventType : Type 0 where
  snapshot_pushed change_pushed change_landed change_abandoned workspace_closed : WorkspaceEventType

-- a timeline row; `occurred_at` is 0 for the zero time
pub record WorkspaceEvent : Type 0 where
  pub id : ℕ
  pub event_type : WorkspaceEventType
  pub workspace_id : Text
  pub branch : Text
  pub actor : Text
  pub sha : Text
  pub change_key : Text
  pub files_changed : ℕ
  pub additions : ℕ
  pub deletions : ℕ
  pub occurred_at : ℕ

pub record WorkspaceActivity : Type 0 where
  pub id : ℕ
  pub workspace_id : Text
  pub actor : Text
  pub kind : Text
  pub detail : Text
  pub session_id : Text
  pub occurred_at : ℕ

pub record AgentPrincipal : Type 0 where
  pub name : Text
  pub task : Text
  pub token_hash : Text
  pub created_by : Text
  pub created_at : ℕ
  pub expires_at : ℕ
  pub revoked : Bool

pub record StoredPrincipal : Type 0 where
  pub org : Text
  pub name : Text
  pub credential_hash : Text
  pub email : Text

-- "pending", "sent", "failed" and "dead_letter"
pub data InviteStatus : Type 0 where
  waiting sent retrying given_up : InviteStatus

-- `id` is the number of the source's "inv_<number>"
pub record InviteRequest : Type 0 where
  pub id : ℕ
  pub kind : Text
  pub name : Text
  pub email : Text
  pub message : Text
  pub status : InviteStatus
  pub attempt : ℕ
  pub next_attempt_at : ℕ
  pub last_error : Text
  pub created_at : ℕ

-- the settings of an organisation that the daemon's decisions read
pub record OrgSettings : Type 0 where
  pub global_required_checks : List Text
  pub revalidation_policy : Text
  pub public_read : Bool
  pub require_resolved_threads : Bool
  pub enforce_tag_policy : Bool
  pub disable_auto_approve : Bool

pub record MemStore : Type 0 where
  pub changes : List (Text × Change)
  pub check_runs : List (Text × List (Text × CheckRunView))
  pub approvals : List (Text × List (Text × Approval))
  pub comments : List (Text × List Comment)
  pub review_reqs : List (Text × List (Text × ReviewRequest))
  pub releases : List (Text × List Release)
  pub deploy_records : List (Text × DeployRecord)
  pub mirrors : List (Text × MirrorCursor)
  pub workspaces : List (Text × Workspace)
  pub ws_events : List (Text × List WorkspaceEvent)
  pub ws_event_seq : ℕ
  pub ws_activity : List (Text × List WorkspaceActivity)
  pub ws_activity_seq : ℕ
  pub agents : List (Text × AgentPrincipal)
  pub principals : List (Text × StoredPrincipal)
  pub invite_reqs : List InviteRequest
  pub org_names : List Text
  pub org_members : List (Text × List (Text × Text))
  pub org_settings : List (Text × OrgSettings)
  pub org_archived : List (Text × Bool)
  pub agent_policies : List (Text × AgentPolicy)
  pub deliveries : List Delivery
  pub next_id : ℕ

-- NewMemStore
abbrev pub new_mem_store : MemStore
new_mem_store = record {
  changes = [];
  check_runs = [];
  approvals = [];
  comments = [];
  review_reqs = [];
  releases = [];
  deploy_records = [];
  mirrors = [];
  workspaces = [];
  ws_events = [];
  ws_event_seq = 0;
  ws_activity = [];
  ws_activity_seq = 0;
  agents = [];
  principals = [];
  invite_reqs = [];
  org_names = [];
  org_members = [];
  org_settings = [];
  org_archived = [];
  agent_policies = [];
  deliveries = [];
  next_id = 0;
}

-- An error, or what the method returns beside a nil error.
pub data Answer (A : Type 0) : Type 0 where
  no_such_change : Answer A
  already_landed : Answer A
  no_such_comment : Answer A
  no_such_delivery : Answer A
  release_exists : Answer A
  name_taken : Answer A
  no_such_workspace : Answer A
  no_such_principal : Answer A
  no_such_invite : Answer A
  no_such_org : Answer A
  done : A → Answer A

-- a map of maps at a key: a nil map reads as an empty one
abbrev pub at_key : {V : Type 0} → Text → List (Text × List V) → List V
at_key k d = elim (lookup k d) [ none ↦ [] | some m ↦ m ]
