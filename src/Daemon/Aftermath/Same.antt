-- ===== src/Daemon/Aftermath/Same.antt =====
-- What follows a land leaves the changes as they are.
use runko.Prelude.{ℕ, ◌≡◌, refl, Option, none, some, List, arith, Text}
use runko.Store.Model.{Change, MemStore}
use runko.Store.Deploys.{open_deploy_record, prune_stale_pending_deploy_records}
use runko.Store.Outbox.{enqueue_webhook}
use runko.Store.Workspaces.{set_workspace_status, record_workspace_event}
use runko.Daemon.Config.{Server}
use runko.Daemon.Aftermath.{
  maybe_close_agent_workspace, open_deploy_record_for_land, enqueue_landed_webhook,
  record_landed_event,
}

pub open_deploy_record_for_land-same :
    (images : List Text) (change : Change) (sha : Text) (now : ℕ) (s : MemStore)
    → (open_deploy_record_for_land images change sha now s).changes ≡ s.changes
unfolding open_deploy_record_for_land open_deploy_record prune_stale_pending_deploy_records
open_deploy_record_for_land-same images change sha now s = ground arith

pub enqueue_landed_webhook-same :
    (payload : Option Text) (s : MemStore) → (enqueue_landed_webhook payload s).changes ≡ s.changes
unfolding enqueue_landed_webhook enqueue_webhook
enqueue_landed_webhook-same none s = refl
enqueue_landed_webhook-same (some p) s = refl

pub record_landed_event-same :
    (change : Change) (key by sha : Text) (now : ℕ) (s : MemStore)
    → (record_landed_event change key by sha now s).changes ≡ s.changes
unfolding record_landed_event record_workspace_event
record_landed_event-same change key by sha now s = ground arith

pub maybe_close_agent_workspace-same :
    (s : Server) (id : Text) (now : ℕ) (store : MemStore)
    → (maybe_close_agent_workspace s id now store).changes ≡ store.changes
unfolding maybe_close_agent_workspace record_workspace_event set_workspace_status
maybe_close_agent_workspace-same s id now store = ground arith
