-- ===== src/Land/Attempt/Examples.antt =====
-- A repository of two commits on which the results of platform/land apply.
use runko.Prelude.{
  ℕ, suc, ◌<◌, ◌≡◌, refl, sym, ap, ◌↔◌, ◌⊎◌, true, false, Option, none, some, List, [], ◌∷◌, arith,
  ◌==◌, if◌then◌else◌, Text, codes, text_eq, mem,
}
use runko.Affected.Types.{Result, aggressive, ProjectRef}
use runko.Land.Revalidation.{
  conflict_only, affected_intersection, needs_revalidation, needs_revalidation_intersection,
}
use runko.Land.Attempt.{Git, Request, Outcome, zero_outcome, zero_oid, land}
use runko.Land.Attempt.Planned.{FastForward, Rebased, IsRef}
use runko.Land.Attempt.Safety.{land-landed, land-unlanded}
use runko.Land.Attempt.History.{
  CommitLaws, parent_ref, Descends, IsTrunk, attempt, start, then_land, History-Descends,
}
use runko.Land.Attempt.Retry.{
  attempt_land, raced, state_before, AllRaced, IsLast, max_land_race_retries, attempt_land_cases,
}

abbrev base : Text
base = codes "base"

abbrev other_tip : Text
other_tip = codes "other"

abbrev git : Git
git = record {
  tree_of = λ commit. some commit;
  commit_tree = λ tree parent. some (b'c' ∷ parent);
  diff_paths = λ from to. some [];
  merge_tree = λ ancestor tip head. (0, head ∷ []);
}

abbrev nothing_affected : Result
nothing_affected = record {
  computation_id = [];
  projects = [];
  paths = [];
  reason_codes = [];
  run_everything = false;
  escalation_refinable_only = false;
}

abbrev request : Request
request = record {
  old_base = base;
  change_head = codes "head";
  scope = conflict_only;
  change_affected = nothing_affected;
  projects = [];
  affected_opts = record {
    root_invalidation_patterns = [];
    refinable_patterns = [];
    refinable_handled = false;
    strictness = aggressive;
    prose_patterns = [];
  };
}

abbrev digest : Text → Text
digest text = text

base-IsRef : IsRef (some base)
base-IsRef tip e k = ground arith

other_tip-IsRef : IsRef (some other_tip)
other_tip-IsRef tip e k = ground arith

base-IsTrunk : IsTrunk (some base)
base-IsTrunk tip e = (λ k. ground arith, λ k. ground arith)

parent_of_id : Text → Option Text
parent_of_id [] = none
parent_of_id (c ∷ parent) = parent_ref parent

git-CommitLaws : CommitLaws git
unfolding parent_of_id
git-CommitLaws = record {
  parent_of = parent_of_id;
  parent = λ tree p c e.
      ap (λ (o : Option Text). elim o [ none ↦ parent_ref p | some i ↦ parent_of_id i ]) (sym e);
  has_id = λ tree p c e. (λ k. ground arith, λ k. ground arith);
}

abbrev landed_outcome : Outcome
landed_outcome = record zero_outcome { landed = true; landed_sha = b'c' ∷ base }

land-landed_example :
    (some base ≡ some base)
    × ((land git digest request (some base) (some base)).1 ≡ some (b'c' ∷ base))
    × (FastForward git request (some base) (b'c' ∷ base)
        ⊎ Rebased git digest request (some base) (b'c' ∷ base))
unfolding land runko.Land.Attempt.finish runko.Land.Attempt.plan text_eq
    runko.Land.Attempt.plan_fast_forward
land-landed_example =
    land-landed git digest request (some base) (some base) landed_outcome base-IsRef base-IsRef refl
      refl

land-unlanded_example : (land git digest request (some base) (some other_tip)).1 ≡ some other_tip
unfolding land runko.Land.Attempt.finish runko.Land.Attempt.plan text_eq
    runko.Land.Attempt.plan_fast_forward
land-unlanded_example =
    land-unlanded git digest request (some base) (some other_tip) base-IsRef other_tip-IsRef
      λ o e. raced-not-landed o e
  where
    raced-not-landed :
        (o : Outcome) → some (record zero_outcome { race_retry = true }) ≡ some o → o.landed ≡ false
    raced-not-landed o e = ground arith

History-Descends_example :
    IsTrunk (land git digest request (some base) (some base)).1
    × Descends parent_of_id (some base) (land git digest request (some base) (some base)).1
unfolding git-CommitLaws
History-Descends_example =
    History-Descends git digest git-CommitLaws base-IsTrunk
      (then_land start (attempt request (some base) base-IsTrunk refl))

-- an attempt that loses its race once; the state is the number of attempts that were made
abbrev second_try : ℕ → Option Outcome × ℕ
second_try k = (if k == 0 then some raced_outcome else some landed_outcome, suc k)
  where
    raced_outcome : Outcome
    raced_outcome = record zero_outcome { race_retry = true }

attempt_land_cases_example :
    ((attempt_land second_try 0 ≡ (some raced, state_before second_try max_land_race_retries 0))
      × AllRaced second_try 0 max_land_race_retries)
    ⊎ ((k : ℕ) × (k < max_land_race_retries)
        × AllRaced second_try 0 k
        × IsLast second_try 0 k
        × (attempt_land second_try 0 ≡ second_try (state_before second_try k 0)))
attempt_land_cases_example = attempt_land_cases second_try 0

abbrev scoped : List ProjectRef → Result
scoped projects = record nothing_affected { projects = projects }

abbrev lib_ref : ProjectRef
lib_ref = record { name = codes "lib"; path = codes "lib"; direct = true }

needs_revalidation_intersection_example :
    (needs_revalidation affected_intersection (scoped (lib_ref ∷ [])) (scoped []) ≡ false) ↔ (
      (false ≡ false)
      × (false ≡ false)
      × ((x : Text) → mem x [] ≡ true → mem x (codes "lib" ∷ []) ≡ false))
needs_revalidation_intersection_example =
    needs_revalidation_intersection (scoped (lib_ref ∷ [])) (scoped [])

abbrev conflict_exit : ℕ
conflict_exit = 1

abbrev conflict_line : Text
conflict_line = codes "CONFLICT (content): Merge conflict in a.txt"
