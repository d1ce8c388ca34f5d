-- ===== src/Checks/Sets.antt =====
-- platform/checks/checkset.go: check-set policies, their expansion and the aggregated row.
use runko.Prelude.{
  ℕ, suc, ◌+◌, ◌≡◌, refl, List, [], ◌∷◌, ◌++◌, arith, ◌==◌, length, Text, if◌then◌else◌,
}
use runko.Checks.Runs.{CheckRunView, Standing, absent, running, passed, failed, standing}

pub record CheckSetPolicy : Type 0 where
  pub pattern : Text
  pub scope : Text

pub record CheckSetStatus : Type 0 where
  pub pattern : Text
  pub scope : Text
  pub total : ℕ
  pub passed_count : ℕ
  pub failed_count : ℕ
  pub pending_count : ℕ
  pub missing : List Text

-- ExpandCheckName: every "*" becomes the project name
unfoldable pub expand_check_name : Text → Text → Text
expand_check_name [] project = []
expand_check_name (c ∷ pattern) project =
    if c == b'*'
    then project ++ expand_check_name pattern project
    else c ∷ expand_check_name pattern project

-- the four results of expandCheckSet
pub record Expansion : Type 0 where
  pub passing : List Text
  pub failing : List Text
  pub pending : List Text
  pub missing : List Text

-- what one project adds: its check name, or the project itself where no run is posted
unfoldable pub sort_in : Standing → Text → Text → Expansion → Expansion
sort_in absent check project e = record e { missing = project ∷ e.missing }
sort_in running check project e = record e { pending = check ∷ e.pending }
sort_in passed check project e = record e { passing = check ∷ e.passing }
sort_in failed check project e = record e { failing = check ∷ e.failing }

-- expandCheckSet
unfoldable pub expand_check_set : CheckSetPolicy → List Text → List CheckRunView → Expansion
unfolding expand_check_name standing sort_in
expand_check_set policy [] runs = record { passing = []; failing = []; pending = []; missing = [] }
expand_check_set policy (project ∷ projects) runs =
    let check = expand_check_name policy.pattern project in
    sort_in (standing runs check) check project (expand_check_set policy projects runs)

-- EvaluateCheckSet
pub evaluate_check_set : CheckSetPolicy → List Text → List CheckRunView → CheckSetStatus
unfolding expand_check_set
evaluate_check_set policy projects runs =
    let e = expand_check_set policy projects runs in
    record {
      pattern = policy.pattern;
      scope = policy.scope;
      total = length projects;
      passed_count = length e.passing;
      failed_count = length e.failing;
      pending_count = length e.pending;
      missing = e.missing;
    }

sort_in-count :
    (s : Standing) (check project : Text) (e : Expansion)
    → length (sort_in s check project e).passing
        + length (sort_in s check project e).failing
        + length (sort_in s check project e).pending
        + length (sort_in s check project e).missing
      ≡ suc (length e.passing + length e.failing + length e.pending + length e.missing)
unfolding sort_in
sort_in-count absent check project e = omega arith
sort_in-count running check project e = omega arith
sort_in-count passed check project e = omega arith
sort_in-count failed check project e = omega arith

expand_check_set-count :
    (policy : CheckSetPolicy) (projects : List Text) (runs : List CheckRunView)
    → length (expand_check_set policy projects runs).passing
        + length (expand_check_set policy projects runs).failing
        + length (expand_check_set policy projects runs).pending
        + length (expand_check_set policy projects runs).missing
      ≡ length projects
unfolding expand_check_set
expand_check_set-count policy [] runs = refl
expand_check_set-count policy (p ∷ ps) runs =
    let check = expand_check_name policy.pattern p in
    omega (
      arith,
      sort_in-count (standing runs check) check p (expand_check_set policy ps runs),
      expand_check_set-count policy ps runs,
    )

-- The row accounts for every expected project: passed, failed, pending or missing.
evaluate_check_set-total :
    (policy : CheckSetPolicy) (projects : List Text) (runs : List CheckRunView)
    → (evaluate_check_set policy projects runs).passed_count
        + (evaluate_check_set policy projects runs).failed_count
        + (evaluate_check_set policy projects runs).pending_count
        + length (evaluate_check_set policy projects runs).missing
      ≡ (evaluate_check_set policy projects runs).total
unfolding evaluate_check_set
evaluate_check_set-total policy projects runs = expand_check_set-count policy projects runs
