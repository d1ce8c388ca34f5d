-- ===== src/Store/CheckRuns.antt =====
-- The methods of check runs: UpsertCheckRun, CopyPassingCheckRuns, RerunCheck, ListCheckRuns.
pub mod Carry
use runko.Prelude.{
  ℕ, Bool, true, false, not, Option, none, some, List, [], ◌∷◌, ◌++◌, ◌==◌, is_empty, Text, lookup,
  put, values, if◌then◌else◌,
}
use runko.Checks.Runs.{
  CheckStatus, queued, in_progress, completed, CheckConclusion, success, unset, CheckRunView,
  Standing, passed, standing_of,
}
use runko.Store.Model.{MemStore, Answer, no_such_change, done, at_key}

-- checkRunKey
unfoldable pub check_run_key : Text → Text → Text
check_run_key change_key head_sha = change_key ++ (b'|' ∷ head_sha)

abbrev pub default_ttl_seconds : ℕ
default_ttl_seconds = 86400

link_of : Option CheckRunView → Text
link_of none = []
link_of (some r) = r.details_url

-- the run as it is stored: a time, a TTL and a link where the report gave none
filled_in : CheckRunView → Option CheckRunView → ℕ → CheckRunView
unfolding link_of
filled_in run earlier now = record run {
  last_seen_at = if run.last_seen_at == 0 then now else run.last_seen_at;
  ttl_seconds = if run.ttl_seconds == 0 then default_ttl_seconds else run.ttl_seconds;
  details_url = if is_empty run.details_url then link_of earlier else run.details_url;
}

-- UpsertCheckRun; a report with a negative TTL, which the source would store, is not modelled
unfoldable pub upsert_check_run : Text → Text → CheckRunView → ℕ → MemStore → MemStore
unfolding check_run_key filled_in put lookup
upsert_check_run change_key head_sha run now s =
    let key = check_run_key change_key head_sha in
    let runs = at_key key s.check_runs in
    record s {
      check_runs =
          put key (put run.name (filled_in run (lookup run.name runs) now) runs) s.check_runs;
    }

is_passed : Standing → Bool
is_passed passed = true
is_passed _ = false

-- completed with success
passing : CheckRunView → Bool
unfolding standing_of is_passed
passing run = is_passed (standing_of run.status run.conclusion)

-- what one run of the old head adds to the new head's runs, if anything
copy_one : Text → Text → CheckRunView → List (Text × CheckRunView) → Option CheckRunView
unfolding passing lookup
copy_one from_head name run to = if not (passing run) then none else elim (lookup name to) [
  | some taken ↦ none
  | none ↦ some (record run { copied_from_head_sha = from_head })
]

-- the loop over the old head's runs: the new head's runs and the names that were copied
copy_passing :
    Text
    → List (Text × CheckRunView)
    → List (Text × CheckRunView)
    → List (Text × CheckRunView) × List Text
unfolding copy_one put
copy_passing from_head [] to = (to, [])
copy_passing from_head ((name, run) ∷ from) to = elim (copy_one from_head name run to) [
  | none ↦ copy_passing from_head from to
  | some copy ↦
      let (to', names) = copy_passing from_head from (put name copy to) in (to', name ∷ names)
]

-- CopyPassingCheckRuns
unfoldable pub copy_passing_check_runs : Text → Text → Text → MemStore → List Text × MemStore
unfolding copy_passing check_run_key put
copy_passing_check_runs change_key from_head to_head s =
    let to_key = check_run_key change_key to_head in
    let (to, names) =
      copy_passing from_head (at_key (check_run_key change_key from_head) s.check_runs)
        (at_key to_key s.check_runs) in
    (names, record s { check_runs = put to_key to s.check_runs })

-- RerunCheck: the run is queued again.
unfoldable pub rerun_check : Text → Text → ℕ → MemStore → Answer (CheckRunView × MemStore)
unfolding lookup put check_run_key
rerun_check change_key name now s = elim (lookup change_key s.changes) [
  | none ↦ no_such_change
  | some change ↦
      let key = check_run_key change_key change.head_sha in
      let run : CheckRunView = record {
        name = name;
        status = queued;
        conclusion = unset;
        last_seen_at = now;
        ttl_seconds = default_ttl_seconds;
        details_url = [];
        copied_from_head_sha = [];
        reporter = [];
      } in
      done (
        run,
        record s { check_runs = put key (put name run (at_key key s.check_runs)) s.check_runs },
      )
]

-- ListCheckRuns
unfoldable pub list_check_runs : Text → Text → MemStore → List CheckRunView
unfolding values check_run_key
list_check_runs change_key head_sha s =
    values (at_key (check_run_key change_key head_sha) s.check_runs)
