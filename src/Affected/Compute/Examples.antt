-- ===== src/Affected/Compute/Examples.antt =====
-- A small workspace on which the results of platform/affected apply.
use runko.Prelude.{
  ◌≡◌, refl, ◌↔◌, inl, Bool, true, false, List, [], ◌∷◌, In, Text, codes, text_eq, mem, Some,
  dedup_sorted,
}
use runko.Affected.Types.{ProjectInfo, Options, conservative}
use runko.Affected.Owner.{owns}
use runko.Affected.Closure.{close_over_dependents, final}
use runko.Affected.Closure.Ends.{final_ends}
use runko.Affected.Closure.Reach.{Reached, close_over_dependents_correct}
use runko.Affected.Compute.{classify, attributed, compute}
use runko.Affected.Compute.Verdicts.{Escalates}
use runko.Affected.Compute.Escalation.{compute-run_everything}
use runko.Affected.Compute.Listing.{Lists}
use runko.Affected.Compute.Members.{compute_fail_closed, compute_covers_dependents}

abbrev project : Text → List Text → List Text → ProjectInfo
project name deps tests = record {
  name = name;
  path = name;
  declared_dependencies = deps;
  test_dependencies = tests;
  consumes = [];
  contract_paths = [];
}

abbrev lib : Text
lib = codes "lib"

abbrev app : Text
app = codes "app"

abbrev e2e : Text
e2e = codes "e2e"

abbrev workspace : List ProjectInfo
workspace = project lib [] [] ∷ project app (lib ∷ []) [] ∷ project e2e [] (app ∷ []) ∷ []

abbrev options : Options
options = record {
  root_invalidation_patterns = codes "go.mod" ∷ codes "**/*.bazel" ∷ [];
  refinable_patterns = codes "go.mod" ∷ [];
  refinable_handled = false;
  strictness = conservative;
  prose_patterns = [];
}

abbrev source_file : Text
source_file = codes "lib/a.go"

abbrev digest : Text → Text
digest text = text

final_ends_example : (final workspace (lib ∷ [])).queue ≡ []
final_ends_example = final_ends workspace (lib ∷ [])

close_over_dependents_correct_example :
    (mem e2e (close_over_dependents workspace (lib ∷ [])).0 ≡ true)
    ↔ Reached workspace (lib ∷ []) e2e
close_over_dependents_correct_example = close_over_dependents_correct workspace (lib ∷ []) e2e

compute_fail_closed_example :
    (p : ProjectInfo) × In p workspace
    × (owns p source_file ≡ true)
    × Lists (compute digest workspace (source_file ∷ []) options) p.name true
unfolding compute mem runko.Affected.Compute.scan_paths dedup_sorted
    runko.Affected.Compute.note_path classify runko.Glob.match_ordered_which
    runko.Affected.Compute.attribute
compute_fail_closed_example =
    compute_fail_closed digest workspace (source_file ∷ []) options source_file refl refl refl

compute_covers_dependents_example :
    (direct : Bool) × Lists (compute digest workspace (source_file ∷ []) options) e2e direct
unfolding classify mem close_over_dependents text_eq runko.Glob.match_ordered_which
    runko.Affected.Compute.attribute
compute_covers_dependents_example =
    compute_covers_dependents digest workspace (source_file ∷ []) options source_file
      (project lib [] []) e2e refl (inl refl) refl
      ((close_over_dependents_correct workspace (lib ∷ []) e2e).0 refl)

compute-run_everything_example :
    ((compute digest workspace (codes "go.mod" ∷ []) options).run_everything ≡ true)
    ↔ Some (Escalates workspace options) (codes "go.mod" ∷ [])
compute-run_everything_example =
    compute-run_everything digest workspace (codes "go.mod" ∷ []) options
