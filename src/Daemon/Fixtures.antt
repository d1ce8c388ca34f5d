-- ===== src/Daemon/Fixtures.antt =====
-- A daemon with one project, its check and its owner, and a stack of two changes on it.
use runko.Prelude.{true, false, none, some, [], ◌∷◌, Text, codes, text_eq}
use runko.Receive.Policy.{default_agent_policy}
use runko.Land.Revalidation.{conflict_only}
use runko.Land.Attempt.{Outcome}
use runko.Checks.Runs.{completed, success}
use runko.Index.Types.{affected, IndexedProject, bare_project}
use runko.Store.Model.{opened, Change, MemStore, new_mem_store}
use runko.Daemon.Config.{Principal, Server}
use runko.Daemon.Repo.{Repo}
use runko.Daemon.Land.{World}

abbrev pub ann : Principal
ann = record {
  name = codes "ann";
  is_agent = false;
  admin = true;
  policy = default_agent_policy;
  stored = false;
}

abbrev pub test_server : Server
test_server = record {
  global_required_checks = [];
  root_invalidation_patterns = [];
  revalidation = conflict_only;
  allow_unpoliced_land = false;
  single_use_agent_workspaces = true;
  principals = ann ∷ [];
  directory = none;
}

abbrev pub lib : IndexedProject
lib = record (bare_project (codes "l")) {
  checks = record { name = codes "u"; command = codes "go"; run_when = affected } ∷ [];
  owners = codes "ann" ∷ [];
}

abbrev pub test_repo : Repo
test_repo = record {
  scan = λ rev. some (lib ∷ []);
  diff_names = λ from to. some (codes "l/f" ∷ []);
  trunk_tip = some (codes "b");
  left_right = λ base tip. none;
  is_ancestor_of_trunk = λ base. text_eq base (codes "b");
}

abbrev pub bottom : Change
bottom = record {
  change_key = codes "I1";
  state = opened;
  base_sha = codes "b";
  head_sha = codes "h";
  git_ref = codes "r";
  title = codes "t";
  description = [];
  test_plan = [];
  landed_sha = [];
  landed_at = 0;
  authored_by = codes "ann";
  landed_by = [];
  landed_forced = false;
  origin_workspace = [];
  origin_branch = [];
  automerge = false;
  automerge_by = [];
}

abbrev pub child : Change
child = record bottom { change_key = codes "I2"; base_sha = codes "h"; head_sha = codes "k" }

abbrev pub test_store : MemStore
test_store = record new_mem_store {
  changes = (codes "I1", bottom) ∷ (codes "I2", child) ∷ [];
  check_runs =
      (
        codes "I1|h",
        (
          codes "u",
          record {
            name = codes "u";
            status = completed;
            conclusion = success;
            last_seen_at = 1;
            ttl_seconds = 60;
            details_url = [];
            copied_from_head_sha = [];
            reporter = codes "ci";
          },
        )
            ∷ [],
      )
      ∷ [];
}

abbrev pub lands_as : Text → Outcome
lands_as sha = record {
  landed = true;
  landed_sha = sha;
  requires_revalidation = false;
  conflicts = [];
  race_retry = false;
}

abbrev pub test_world : World
test_world = record {
  repo = test_repo;
  attempts = λ change scope i. some (lands_as (codes "c"));
  landed_envelope = λ change sha. some sha;
  images_of = λ sha. [];
  now = 7;
}
