-- ===== src/Daemon/Carry/Examples.antt =====
-- A trivial rebase of a change with one approval and one check.
use runko.Prelude.{
  ◌≡◌, refl, ◌⊎◌, inl, true, false, Option, none, some, List, [], ◌∷◌, In, Text, codes, lookup,
}
use runko.Affected.Types.{Result}
use runko.Land.Revalidation.{conflict_only, always}
use runko.Store.Model.{Change, Approval, MemStore, at_key}
use runko.Store.Reviews.{list_approvals}
use runko.Store.CheckRuns.{list_check_runs}
use runko.Daemon.Config.{resolve_revalidation}
use runko.Daemon.Carry.{Processor, carry_required, carry_forward_trivial_rebase}
use runko.Daemon.Carry.Approvals.{IsCarried, carry_forward_trivial_rebase-approvals}
use runko.Daemon.Carry.Covered.{HasPassed, carry_forward_trivial_rebase-covered}
use runko.Daemon.Fixtures.{bottom, test_store}

abbrev strict : Processor
strict = record { global_required_checks = codes "u" ∷ []; revalidation = always; settings = none }

abbrev lenient : Processor
lenient = record strict { revalidation = conflict_only }

abbrev rebased : Change
rebased = record bottom { base_sha = codes "c"; head_sha = codes "n" }

abbrev old_approval : Approval
old_approval = record { owner_ref = codes "lib"; approved_by = codes "ben"; head_sha = codes "h" }

abbrev approved_store : MemStore
approved_store = record test_store {
  approvals = (codes "I1", (codes "lib", old_approval) ∷ []) ∷ [];
}

abbrev no_result : Result
no_result = record {
  computation_id = [];
  run_everything = false;
  paths = [];
  projects = [];
  reason_codes = [];
  escalation_refinable_only = false;
}

carry_forward_trivial_rebase-approvals_example :
    (lookup (codes "lib") (at_key (codes "I1") approved_store.approvals)
      ≡ some (record old_approval { head_sha = codes "n" }))
    ⊎ IsCarried
        (codes "h")
        (codes "n")
        (list_approvals (codes "I1") approved_store)
        (codes "lib")
        (record old_approval { head_sha = codes "n" })
unfolding lookup carry_forward_trivial_rebase resolve_revalidation list_approvals
    runko.Store.Reviews.record_approval
carry_forward_trivial_rebase-approvals_example =
    carry_forward_trivial_rebase-approvals strict bottom rebased no_result [] approved_store
      (codes "lib") (record old_approval { head_sha = codes "n" }) refl

carry_forward_trivial_rebase-covered_example :
    (resolve_revalidation none conflict_only ≡ conflict_only)
    × ((n : Text)
        → In n (carry_required lenient no_result [])
        → HasPassed
            (list_check_runs
              (codes "I1")
              (codes "n")
              (carry_forward_trivial_rebase lenient bottom rebased no_result [] approved_store).1)
            n)
unfolding carry_forward_trivial_rebase resolve_revalidation runko.Daemon.Carry.covers carry_required
    runko.Daemon.Gate.Names.required_check_names runko.Prelude.all list_check_runs
    runko.Store.CheckRuns.copy_passing_check_runs list_approvals runko.Store.Reviews.record_approval
    runko.Daemon.Carry.org_global_required_checks
carry_forward_trivial_rebase-covered_example =
    carry_forward_trivial_rebase-covered lenient bottom rebased no_result [] approved_store refl
