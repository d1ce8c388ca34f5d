-- ===== src/Checks/Requirements/Examples.antt =====
-- A change with runs and owners on which the results of platform/checks apply.
use runko.Prelude.{◌≡◌, ◌↔◌, true, List, [], ◌∷◌, ◌++◌, All, Text, codes, mem}
use runko.Checks.Runs.{completed, success, CheckRunView}
use runko.Checks.Sets.{CheckSetPolicy}
use runko.Checks.Requirements.{
  OwnerRequirement, CheckSet, MergeRequirements, compute_merge_requirements,
}
use runko.Checks.Requirements.Partition.{
  Sorted, Accounted, set_names, compute_merge_requirements-Accounted,
}
use runko.Checks.Requirements.Gate.{AllPass, SetPasses, compute_merge_requirements-mergeable}

abbrev run_named : Text → CheckRunView
run_named name = record {
  name = name;
  status = completed;
  conclusion = success;
  last_seen_at = 0;
  ttl_seconds = 86400;
  details_url = [];
  copied_from_head_sha = [];
  reporter = codes "ci";
}

abbrev runs : List CheckRunView
runs = run_named (codes "build") ∷ run_named (codes "test/lib") ∷ []

abbrev owners : List OwnerRequirement
owners = record { owner_ref = codes "group:lib"; satisfied = true } ∷ []

abbrev test_policy : CheckSetPolicy
test_policy = record { pattern = codes "test/*"; scope = codes "affected" }

abbrev sets : List CheckSet
sets = record { policy = test_policy; projects = codes "lib" ∷ [] } ∷ []

abbrev nothing : List Text
nothing = []

compute_merge_requirements-mergeable_example :
    ((compute_merge_requirements
        (codes "I1")
        owners
        (codes "build" ∷ [])
        runs
        sets
        nothing
        nothing).mergeable
      ≡ true)
    ↔ (All (λ o. o.satisfied ≡ true) owners
        × AllPass runs (codes "build" ∷ [])
        × All (SetPasses runs) sets
        × (nothing ≡ [])
        × (nothing ≡ []))
compute_merge_requirements-mergeable_example =
    compute_merge_requirements-mergeable (codes "I1") owners (codes "build" ∷ []) runs sets nothing
      nothing

abbrev computed : MergeRequirements
computed =
    compute_merge_requirements (codes "I1") owners (codes "lint" ∷ []) runs sets nothing nothing

compute_merge_requirements-Accounted_example :
    Sorted runs computed.passing_checks computed.failing_checks computed.pending_checks
    × Accounted computed.required_checks computed.passing_checks computed.failing_checks
        computed.pending_checks
    × ((x : Text) → mem x computed.required_checks ≡ mem x ((codes "lint" ∷ []) ++ set_names sets))
compute_merge_requirements-Accounted_example =
    compute_merge_requirements-Accounted (codes "I1") owners (codes "lint" ∷ []) runs sets nothing
      nothing
