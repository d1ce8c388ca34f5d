-- ===== src/Store/Examples.antt =====
-- A store with one change on which the results of the store apply.
use runko.Prelude.{
  ◌≤◌, ◌<◌, ◌≡◌, refl, ap, ◌↔◌, ◌⊎◌, inl, inr, true, false, none, some, [], ◌∷◌, arith, all, All,
  Text, codes, mem, lookup,
}
use runko.Checks.Runs.{completed, success, CheckRunView}
use runko.Store.Model.{
  snapshot_pushed, landed, Change, Approval, DeployImageRow, MemStore, DeliveryStatus,
  new_mem_store,
}
use runko.Store.Changes.{Push, create_or_update_change}
use runko.Store.Lifecycle.{none_yet, and_then, pushed, Steps-landed}
use runko.Store.Lifecycle.Refines.{view, SpecSteps, Steps-SpecSteps}
use runko.Store.CheckRuns.{check_run_key, copy_passing_check_runs}
use runko.Store.CheckRuns.Carry.{run_at, IsCopy, copy_passing_check_runs-carries}
use runko.Store.Deploys.{open_deploy_record}
use runko.Store.Deploys.Ready.{announcements, announcements_once}
use runko.Store.Outbox.{
  enqueue_webhook, record_delivery_result, list_due_webhook_deliveries, retried,
}
use runko.Store.Outbox.Attempts.{start, enqueued, resulted, list_due_webhook_deliveries-bounded}
use runko.Store.Workspaces.{record_workspace_event}
use runko.Store.Workspaces.Timeline.{IsTimeline, nothing_yet, one_more, Recorded-IsTimeline}
use runko.Checks.Delivery.{max_delivery_attempts}

abbrev key : Text
key = codes "I1"

abbrev first_push : Push
first_push = record {
  change_key = key;
  base_sha = codes "b";
  head_sha = codes "h";
  git_ref = codes "r";
  title = codes "t";
  authored_by = codes "ann";
  origin_workspace = [];
  origin_branch = [];
}

abbrev landed_change : Change
landed_change = record {
  change_key = key;
  state = landed;
  base_sha = codes "b";
  head_sha = codes "h";
  git_ref = codes "r";
  title = codes "t";
  description = [];
  test_plan = [];
  landed_sha = codes "c";
  landed_at = 7;
  authored_by = codes "ann";
  landed_by = codes "ben";
  landed_forced = false;
  origin_workspace = [];
  origin_branch = [];
  automerge = false;
  automerge_by = [];
}

abbrev landed_store : MemStore
landed_store = record new_mem_store { changes = (key, landed_change) ∷ [] }

Steps-landed_example :
    (c : Change) × (lookup key (create_or_update_change first_push landed_store).1.changes ≡ some c)
    × (c.state ≡ landed)
unfolding lookup
Steps-landed_example =
    Steps-landed key landed_change (and_then none_yet (pushed {s = landed_store} first_push)) refl
      refl

abbrev approved_store : MemStore
approved_store = record landed_store {
  approvals =
      (
        key,
        (
          codes "lib",
          record { owner_ref = codes "lib"; approved_by = codes "ann"; head_sha = codes "h" },
        )
            ∷ [],
      )
      ∷ [];
}

abbrev lib_approval : Approval
lib_approval = record { owner_ref = codes "lib"; approved_by = codes "ann"; head_sha = codes "h" }

abbrev build_run : CheckRunView
build_run = record {
  name = codes "build";
  status = completed;
  conclusion = success;
  last_seen_at = 1;
  ttl_seconds = 60;
  details_url = [];
  copied_from_head_sha = [];
  reporter = codes "ci";
}

abbrev checked_store : MemStore
checked_store = record landed_store {
  check_runs = (codes "I1|h", (codes "build", build_run) ∷ []) ∷ [];
}

abbrev copied_run : CheckRunView
copied_run = record build_run { copied_from_head_sha = codes "h" }

copy_passing_check_runs-carries_example :
    (run_at key
        (codes "h2")
        (codes "build")
        (copy_passing_check_runs key (codes "h") (codes "h2") checked_store).1
      ≡ some copied_run)
    ↔ ((run_at key (codes "h2") (codes "build") checked_store ≡ some copied_run)
        ⊎ ((run_at key (codes "h2") (codes "build") checked_store ≡ none)
            × IsCopy key (codes "h") (codes "build") checked_store copied_run))
unfolding check_run_key lookup
copy_passing_check_runs-carries_example =
    copy_passing_check_runs-carries key (codes "h") (codes "h2") (codes "build") checked_store
      copied_run
      (λ b i. elim i [ inl e ↦ ap (λ (z : Text × CheckRunView). some z.1) e | inr n ↦ absurd n ])

abbrev image : Text → DeployImageRow
image name = record { image = name; image_ref = name; digest = codes "d"; run_url = [] }

announcements_once_example :
    announcements
      (codes "c")
      (image (codes "web") ∷ image (codes "api") ∷ image (codes "web") ∷ [])
      (open_deploy_record (codes "c") key [] (codes "api" ∷ codes "web" ∷ []) 5 new_mem_store)
    ≡ 1
unfolding lookup mem all
announcements_once_example =
    announcements_once (codes "c") key [] (codes "api" ∷ codes "web" ∷ []) 5 new_mem_store
      (image (codes "web") ∷ image (codes "api") ∷ image (codes "web") ∷ []) refl
      (λ e. ground arith)

abbrev queued_store : MemStore
queued_store = record new_mem_store {
  next_id = 1;
  deliveries =
      record {
        id = 1;
        event_type = codes "change.updated";
        payload = [];
        status = DeliveryStatus.failed;
        attempt = 1;
        next_attempt_at = 15;
        last_error = codes "refused";
      }
      ∷ [];
}

list_due_webhook_deliveries-bounded_example :
    All
      (λ d.
        (retried d.status ≡ true) × (d.attempt < max_delivery_attempts) × (d.next_attempt_at ≤ 20))
      (list_due_webhook_deliveries 20 queued_store)
unfolding record_delivery_result enqueue_webhook runko.Checks.Delivery.next_backoff
list_due_webhook_deliveries-bounded_example = list_due_webhook_deliveries-bounded 20 (
    resulted 1 (record { success = false; err = some (codes "refused") }) 10 60 5
      (enqueued (codes "change.updated") [] start) refl)

Steps-SpecSteps_example :
    SpecSteps (view landed_store) (view (create_or_update_change first_push landed_store).1)
Steps-SpecSteps_example = Steps-SpecSteps (and_then none_yet (pushed {s = landed_store} first_push))

abbrev one_event : MemStore
one_event =
    (record_workspace_event
      (record {
        id = 0;
        event_type = snapshot_pushed;
        workspace_id = codes "w";
        branch = [];
        actor = codes "ann";
        sha = codes "h";
        change_key = [];
        files_changed = 1;
        additions = 2;
        deletions = 0;
        occurred_at = 0;
      })
      7 new_mem_store).1

Recorded-IsTimeline_example : IsTimeline one_event
Recorded-IsTimeline_example = Recorded-IsTimeline (one_more _ 7 nothing_yet)
