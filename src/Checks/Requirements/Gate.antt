-- ===== src/Checks/Requirements/Gate.antt =====
-- What the gate demands, and that its check lists account for every required check.
use runko.Prelude.{
  ℕ, ◌≡◌, refl, ap, ◌∙◌, ◌↔◌, Bool, true, false, ◌&&◌, List, [], ◌∷◌, ◌++◌, map, arith, length,
  is_empty, is_empty_iff, emptiness, is_empty-append, is_empty-map, All, Text,
}
use mathlib.Core.List.{append-nil}
use runko.Checks.Runs.{CheckRunView, Standing, absent, running, passed, failed, standing}
use runko.Checks.Sets.{CheckSetPolicy, Expansion, expand_check_name, expand_check_set, sort_in}
use runko.Checks.Requirements.{
  OwnerRequirement, CheckSet, Blocker, owners_with, name_tally, names_tally, set_blockers,
  join_tally, set_tally, sets_tally, require_build_binding_blockers, compute_merge_requirements,
  waiting_on_owner, stale_reporter, no_build_binding,
}

-- Every required name has a completed, successful run.
abbrev pub AllPass : List CheckRunView → List Text → Type 0
AllPass runs names = All (λ name. standing runs name ≡ passed) names

-- So has every expected member of the set.
abbrev pub SetPasses : List CheckRunView → CheckSet → Type 0
SetPasses runs cs =
    All (λ project. standing runs (expand_check_name cs.policy.pattern project) ≡ passed)
      cs.projects

name_tally_iff :
    (s : Standing) (name : Text) (rest : List Blocker)
    → (is_empty ((name_tally s name).blockers ++ rest) ≡ true)
      ↔ (s ≡ passed) × (is_empty rest ≡ true)
unfolding name_tally
name_tally_iff absent name rest = (λ h. cc, λ (e, _). cc)
name_tally_iff running name rest = (λ h. cc, λ (e, _). cc)
name_tally_iff passed name rest = (λ h. (refl, h), λ (_, h). h)
name_tally_iff failed name rest = (λ h. cc, λ (e, _). cc)

names_tally_iff :
    (runs : List CheckRunView) (names : List Text)
    → (is_empty (names_tally runs names).blockers ≡ true) ↔ AllPass runs names
unfolding names_tally
names_tally_iff runs [] = (λ h. tt, λ h. refl)
names_tally_iff runs (name ∷ names) =
    let (f, g) = names_tally_iff runs names in
    let (to, from) = name_tally_iff (standing runs name) name (names_tally runs names).blockers in
    (λ h. let (e, r) = to h in (e, f r), λ (e, r). from (e, g r))

-- The expansion has passing members only.
abbrev clean : Expansion → Bool
clean e = is_empty e.failing && (is_empty e.missing && is_empty e.pending)

clean-sort_in :
    (s : Standing) (check project : Text) (e : Expansion)
    → (clean (sort_in s check project e) ≡ true) ↔ (s ≡ passed) × (clean e ≡ true)
unfolding sort_in
clean-sort_in absent check project e = (λ h. ground arith, λ (k, _). cc)
clean-sort_in running check project e = (λ h. ground arith, λ (k, _). cc)
clean-sort_in passed check project e = (λ h. (refl, h), λ (_, h). h)
clean-sort_in failed check project e = (λ h. cc, λ (k, _). cc)

clean_iff :
    (policy : CheckSetPolicy) (projects : List Text) (runs : List CheckRunView)
    → (clean (expand_check_set policy projects runs) ≡ true)
      ↔ All (λ project. standing runs (expand_check_name policy.pattern project) ≡ passed) projects
unfolding expand_check_set
clean_iff policy [] runs = (λ h. tt, λ h. refl)
clean_iff policy (p ∷ ps) runs =
    let check = expand_check_name policy.pattern p in
    let (f, g) = clean_iff policy ps runs in
    let (to, from) =
      clean-sort_in (standing runs check) check p (expand_check_set policy ps runs) in
    (λ h. let (e, r) = to h in (e, f r), λ (e, r). from (e, g r))

set_blockers-clean :
    (pattern : Text) (total : ℕ) (e : Expansion)
    → is_empty
        (set_blockers pattern total e (e.pending ++ map (expand_check_name pattern) e.missing))
      ≡ clean e
unfolding set_blockers
set_blockers-clean pattern total e = ground (
  arith,
  is_empty-append e.pending (map (expand_check_name pattern) e.missing),
  is_empty-map (expand_check_name pattern) e.missing,
)

sets_tally_iff :
    (runs : List CheckRunView) (sets : List CheckSet)
    → (is_empty (sets_tally runs sets).blockers ≡ true) ↔ All (SetPasses runs) sets
unfolding sets_tally
sets_tally_iff runs [] = (λ h. tt, λ h. refl)
sets_tally_iff runs (cs ∷ css) =
    let (f, g) = sets_tally_iff runs css in
    let (to, from) = clean_iff cs.policy cs.projects runs in
    let here =
      set_blockers-clean cs.policy.pattern (length cs.projects)
        (expand_check_set cs.policy cs.projects runs) in
    let split = is_empty-append (set_tally runs cs).blockers (sets_tally runs css).blockers in
    (
      λ h. (to (ground arith), f (ground arith)),
      λ (e, r). let k = from e in let l = g r in ground arith,
    )

owners_with_iff :
    (owners : List OwnerRequirement)
    → (is_empty (owners_with false owners) ≡ true) ↔ All (λ o. o.satisfied ≡ true) owners
unfolding owners_with
owners_with_iff [] = (λ h. tt, λ h. refl)
owners_with_iff (o ∷ os) =
    let (f, g) = owners_with_iff os in
    (λ h. (ground arith, f (ground arith)), λ (e, r). let k = g r in ground arith)

-- No blocker is left exactly if each of the five sources gives none.
blockers_iff {ℓ} :
    {B : Type ℓ} (a b : List B) (outstanding stale unbound : List Text) (f g h : Text → B)
    → is_empty ((a ++ b) ++ (map f outstanding ++ (map g stale ++ map h unbound))) ≡ (
        (is_empty a && is_empty b)
        && (is_empty outstanding && (is_empty stale && is_empty unbound)))
blockers_iff a b outstanding stale unbound f g h = simp emptiness

required-names_tally :
    (runs : List CheckRunView) (names : List Text) → (names_tally runs names).required ≡ names
unfolding names_tally name_tally
required-names_tally runs [] = refl
required-names_tally runs (n ∷ ns) =
    elim (standing runs n)
      as (λ w. (join_tally (name_tally w n) (names_tally runs ns)).required ≡ n ∷ ns) [
        | absent ↦ ap (λ (r : List Text). n ∷ r) (required-names_tally runs ns)
        | running ↦ ap (λ (r : List Text). n ∷ r) (required-names_tally runs ns)
        | passed ↦ ap (λ (r : List Text). n ∷ r) (required-names_tally runs ns)
        | failed ↦ ap (λ (r : List Text). n ∷ r) (required-names_tally runs ns)
      ]

-- Without check sets the required checks are the names that were asked for.
pub compute_merge_requirements-required_checks :
    (change_id : Text) (owners : List OwnerRequirement) (names : List Text)
    (runs : List CheckRunView) (stale unbound : List Text)
    → (compute_merge_requirements change_id owners names runs [] stale unbound).required_checks
      ≡ names
unfolding compute_merge_requirements sets_tally
compute_merge_requirements-required_checks change_id owners names runs stale unbound =
    append-nil (names_tally runs names).required ∙ required-names_tally runs names

pub compute_merge_requirements-required_owners :
    (change_id : Text) (owners : List OwnerRequirement) (names : List Text)
    (runs : List CheckRunView) (sets : List CheckSet) (stale unbound : List Text)
    → (compute_merge_requirements change_id owners names runs sets stale unbound).required_owners
      ≡ map (λ o. o.owner_ref) owners
unfolding compute_merge_requirements
compute_merge_requirements-required_owners change_id owners names runs sets stale unbound = refl

-- The change is mergeable exactly if every required owner has approved, every required check has a
-- completed, successful run, every expected member of every check set has one, no required run is
-- stale, and no project lacks a build binding.
pub compute_merge_requirements-mergeable :
    (change_id : Text) (owners : List OwnerRequirement) (names : List Text)
    (runs : List CheckRunView) (sets : List CheckSet) (stale unbound : List Text)
    → ((compute_merge_requirements change_id owners names runs sets stale unbound).mergeable ≡ true)
      ↔ (All (λ o. o.satisfied ≡ true) owners
          × AllPass runs names
          × All (SetPasses runs) sets
          × (stale ≡ [])
          × (unbound ≡ []))
unfolding compute_merge_requirements require_build_binding_blockers
compute_merge_requirements-mergeable change_id owners names runs sets stale unbound =
    let (out, owned) = owners_with_iff owners in
    let (names_to, names_from) = names_tally_iff runs names in
    let (sets_to, sets_from) = sets_tally_iff runs sets in
    let (stale_to, stale_from) = is_empty_iff stale in
    let (unbound_to, unbound_from) = is_empty_iff unbound in
    let sources =
      blockers_iff (names_tally runs names).blockers (sets_tally runs sets).blockers
        (owners_with false owners) stale unbound waiting_on_owner stale_reporter no_build_binding in
    (
      λ h. (
        out (ground arith),
        names_to (ground arith),
        sets_to (ground arith),
        stale_to (ground arith),
        unbound_to (ground arith),
      ),
      λ (o, n, s, t, u).
          let a = owned o in
          let b = names_from n in
          let c = sets_from s in let d = stale_from t in let e = unbound_from u in ground arith,
    )
