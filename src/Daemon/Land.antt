-- ===== src/Daemon/Land.antt =====
-- runkod/actions.go: authorizeForceLand and landChangeCore; runkod/land.go: refuseUnlandedParent.
-- What a land does to the workspace, the deploy record and the webhooks is in Daemon/Aftermath.
-- An API error is a value that its message is printed from.
-- Signals to the workers, log lines and the in-memory event bus are left out.
pub mod Cases
pub mod Sound
pub mod Steps
mod Examples
use runko.Prelude.{
  ℕ, suc, ◌-◌, Bool, true, false, not, ◌&&◌, Option, none, some, List, [], ◌∷◌, ◌++◌, any, is_empty,
  Text, codes, text_eq, if◌then◌else◌,
}
use runko.Affected.Types.{Result}
use runko.Land.Revalidation.{RevalidationScope, never}
use runko.Land.Attempt.{Outcome}
use runko.Land.Attempt.Retry.{attempt_land}
use runko.Store.Model.{
  ChangeState, opened, landed, abandoned, Change, Workspace, WorkspaceStatus, active, detached,
  closed, WorkspaceEvent, WorkspaceEventType, change_landed, workspace_closed, MemStore, Answer,
  no_such_change, already_landed, no_such_comment, no_such_delivery, release_exists, name_taken,
  no_such_workspace, no_such_principal, no_such_invite, no_such_org, done,
}
use runko.Store.Changes.{mark_change_landed}
use runko.Store.Listings.{list_changes}
use runko.Store.Deploys.{open_deploy_record, prune_stale_pending_deploy_records}
use runko.Store.Outbox.{enqueue_webhook}
use runko.Store.Workspaces.{get_workspace, set_workspace_status, record_workspace_event}
use runko.Daemon.Config.{
  Principal, BotLane, Server, paths_outside_allowlist, effective_revalidation_scope,
  is_agent_principal_name,
}
use runko.Daemon.Repo.{Repo, compute_affected}
use runko.Daemon.Gate.{GateBlocker, GateView, merge_requirements}
use runko.Daemon.Aftermath.{
  maybe_close_agent_workspace, open_deploy_record_for_land, enqueue_landed_webhook,
  record_landed_event,
}

pub data ApiError : Type 0 where
  force_denied invalid_state not_found internal land_failed not_recorded : ApiError
  agent_denied name_mismatch missing_field self_approval_denied : ApiError
  nothing_to_acknowledge already_acknowledged invalid_task_slug : ApiError
  not_a_required_owner unknown_check : List Text → ApiError
  parent_change_not_landed : Text → ApiError
  bot_lane_path_denied : List Text → ApiError
  not_mergeable : List GateBlocker → ApiError

-- what a decision core returns beside the store
pub data Decision (A : Type 0) : Type 0 where
  refused : ApiError → Decision A
  decided : A → Decision A

pub record LandDecision : Type 0 where
  pub has_landed : Bool
  pub landed_sha : Text
  pub requires_revalidation : Bool
  pub conflicts : List Text
  pub race_retry_exhausted : Bool
  pub forced : Bool

abbrev pub no_decision : LandDecision
no_decision = record {
  has_landed = false;
  landed_sha = [];
  requires_revalidation = false;
  conflicts = [];
  race_retry_exhausted = false;
  forced = false;
}

-- authorizeForceLand: whether the force is denied
pub force_denied_to : Option Principal → Option BotLane → Bool
force_denied_to p (some lane) = true
force_denied_to none none = false
force_denied_to (some p) none = if p.is_agent then true else not p.admin

-- refuseUnlandedParent: the open change whose head is the base, where the trunk lacks the base
unlanded_parent : Text → List Change → Option ApiError
unfolding text_eq
unlanded_parent base [] = none
unlanded_parent base (c ∷ cs) =
    if text_eq c.head_sha base
    then some (parent_change_not_landed c.change_key)
    else unlanded_parent base cs

unfoldable pub refuse_unlanded_parent : Repo → MemStore → Change → Option ApiError
unfolding unlanded_parent
refuse_unlanded_parent repo store change =
    if is_empty change.base_sha
    then none
    else if repo.is_ancestor_of_trunk change.base_sha
    then none
    else unlanded_parent change.base_sha (list_changes (some opened) store)

-- the lane's refusal of a change that leaves its allowlist
unfoldable pub lane_refusal :
    (Text → Text) → Server → Repo → Option BotLane → Change → Option ApiError
lane_refusal sha256_hex s repo none change = none
lane_refusal sha256_hex s repo (some lane) change =
    elim (compute_affected sha256_hex s repo change) [
      | none ↦ some internal
      | some (result, indexed) ↦
          let outside = paths_outside_allowlist lane result.paths in
          if is_empty outside then none else some (bot_lane_path_denied outside)
    ]

-- who the land is recorded under
pub lander : Option Principal → Option BotLane → Text
lander (some p) lane = p.name
lander none (some lane) = lane.name
lander none none = []

-- What the daemon calls outside of the store: the land attempts for a scope, the marshalling of the
-- change.landed envelope, and the images that a landed commit derives.
pub record World : Type 0 where
  pub repo : Repo
  pub attempts : Change → RevalidationScope → ℕ → Option Outcome
  pub landed_envelope : Change → Text → Option Text
  pub images_of : Text → List Text
  pub now : ℕ

-- the store's changes once the change is marked landed
pub after_land : Server → World → Text → Change → Text → Text → MemStore → MemStore
unfolding record_landed_event
after_land s w key change by sha store =
    maybe_close_agent_workspace s change.origin_workspace w.now (
      record_landed_event change key by sha w.now (
        open_deploy_record_for_land (w.images_of sha) change sha w.now
          (enqueue_landed_webhook (w.landed_envelope change sha) store)))

-- the switch over what the attempt returned
pub conclude :
    Server
    → World
    → Text
    → Change
    → Text
    → Bool
    → Option Outcome
    → MemStore
    → Decision LandDecision × MemStore
conclude s w key change by forced none store = (refused land_failed, store)
conclude s w key change by forced (some o) store =
    if o.landed
    then (elim (mark_change_landed key o.landed_sha by forced w.now store) [
      | done (c, store') ↦ (
        decided
            (record no_decision { has_landed = true; landed_sha = o.landed_sha; forced = forced }),
        after_land s w key change by o.landed_sha store',
      )
      | _ ↦ (refused not_recorded, store)
    ])
    else if o.requires_revalidation
    then (decided (record no_decision { requires_revalidation = true }), store)
    else if not (is_empty o.conflicts)
    then (decided (record no_decision { conflicts = o.conflicts }), store)
    else (decided (record no_decision { race_retry_exhausted = true }), store)

-- the attempts, under the tier of the server or none where the land is forced; their state is the
-- number of the attempt, by which the world gives the outcome
pub attempt_under : Server → World → Change → Bool → Option Outcome
attempt_under s w change force =
    let scope = if force then never else effective_revalidation_scope s in
    (attempt_land (λ i. (w.attempts change scope i, suc i)) 0).0

-- the gate's answer, and the land if it lets the change through
pub gated :
    Server
    → World
    → Option BotLane
    → Option Principal
    → Text
    → Change
    → Bool
    → Option GateView
    → MemStore
    → Decision LandDecision × MemStore
unfolding lander
gated s w lane principal key change force none store = (refused internal, store)
gated s w lane principal key change force (some g) store =
    if not g.mergeable && not force
    then (refused (not_mergeable g.blockers), store)
    else conclude s w key change (lander principal lane) (force && not g.mergeable)
        (attempt_under s w change force) store

module _ (sha256_hex : Text → Text) (s : Server) (w : World) (key : Text) (change : Change)
    (lane : Option BotLane) (principal : Option Principal) (force : Bool) where
  -- the change by its state
  pub land_in : ChangeState → MemStore → Decision LandDecision × MemStore
  unfolding lane_refusal
  land_in landed store =
      (decided (record no_decision { has_landed = true; landed_sha = change.landed_sha }), store)
  land_in abandoned store = (refused invalid_state, store)
  land_in opened store = elim (refuse_unlanded_parent w.repo store change) [
    | some e ↦ (refused e, store)
    | none ↦ elim (lane_refusal sha256_hex s w.repo lane change) [
      | some e ↦ (refused e, store)
      | none ↦
          gated s w lane principal key change force
            (merge_requirements sha256_hex lane s w.repo store w.now change) store
    ]
  ]

  -- landChangeCore
  unfoldable pub land_change_core : MemStore → Decision LandDecision × MemStore
  unfolding land_in
  land_change_core store =
      if force && force_denied_to principal lane
      then (refused force_denied, store)
      else land_in change.state store
