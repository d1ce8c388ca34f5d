-- ===== src/Checks/Requirements/Partition.antt =====
-- The check lists account for every required check.
use runko.Prelude.{
  ◌≡◌, refl, ap, ◌∙◌, subst, ◌⊎◌, inl, inr, true, List, [], ◌∷◌, ◌++◌, map, arith, Bool-cases, Text,
  text_eq, text_eq_iff, mem, mem-append, ◌||◌, if◌then◌else◌,
}
use runko.Checks.Runs.{CheckRunView, Standing, absent, running, passed, failed, standing}
use runko.Checks.Sets.{CheckSetPolicy, Expansion, expand_check_name, expand_check_set, sort_in}
use runko.Checks.Requirements.{
  OwnerRequirement, CheckSet, Tally, no_tally, join_tally, name_tally, names_tally, set_tally,
  sets_tally, compute_merge_requirements,
}

-- no run, or one that is not completed
abbrev pub Waiting : Standing → Type 0
Waiting s = (s ≡ absent) ⊎ (s ≡ running)

-- Each list holds names of its standing only.
abbrev pub Sorted : List CheckRunView → List Text → List Text → List Text → Type 0
Sorted runs passing failing pending =
    ((x : Text) → mem x passing ≡ true → standing runs x ≡ passed)
    × ((x : Text) → mem x failing ≡ true → standing runs x ≡ failed)
    × ((x : Text) → mem x pending ≡ true → Waiting (standing runs x))

-- The required names are the names of the three lists.
abbrev pub Accounted : List Text → List Text → List Text → List Text → Type 0
Accounted required passing failing pending =
    (x : Text) → mem x required ≡ (mem x passing || (mem x failing || mem x pending))

-- The check names of the sets, one for each expected project.
abbrev pub set_names : List CheckSet → List Text
set_names [] = []
set_names (cs ∷ css) = map (expand_check_name cs.policy.pattern) cs.projects ++ set_names css

abbrev Sound : List CheckRunView → List Text → Tally → Type 0
Sound runs owed t =
    Sorted runs t.passing t.failing t.pending
    × Accounted t.required t.passing t.failing t.pending
    × ((x : Text) → mem x t.required ≡ mem x owed)

either :
    {P : Text → Type 0} (xs ys : List Text)
    → ((x : Text) → mem x xs ≡ true → P x)
    → ((x : Text) → mem x ys ≡ true → P x)
    → (x : Text) → mem x (xs ++ ys) ≡ true
    → P x
either xs ys f g x m = elim (Bool-cases (mem x xs)) [
  | inl e ↦ f x e
  | inr e ↦ g x (ground (arith, mem-append x xs ys))
]

join_tally-Sound :
    (runs : List CheckRunView) (xs ys : List Text) (s t : Tally)
    → Sound runs xs s
    → Sound runs ys t
    → Sound runs (xs ++ ys) (join_tally s t)
join_tally-Sound runs xs ys s t ((a, b, c), d, e) ((a', b', c'), d', e') = (
  (
    either s.passing t.passing a a',
    either s.failing t.failing b b',
    either s.pending t.pending c c',
  ),
  λ x. ground (
    arith,
    d x,
    d' x,
    mem-append x s.required t.required,
    mem-append x s.passing t.passing,
    mem-append x s.failing t.failing,
    mem-append x s.pending t.pending,
  ),
  λ x. ground (arith, e x, e' x, mem-append x s.required t.required, mem-append x xs ys),
)

no_tally-Sound : (runs : List CheckRunView) → Sound runs [] no_tally
unfolding mem
no_tally-Sound runs =
    ((λ x m. ground arith, λ x m. ground arith, λ x m. ground arith), λ x. refl, λ x. refl)

-- A list of one name.
one : (P : Text → Type 0) (name : Text) → P name → (x : Text) → mem x (name ∷ []) ≡ true → P x
unfolding mem
one P name p x m =
    let e : text_eq name x ≡ true = ground arith in subst P ((text_eq_iff name x).0 e) p

name_tally-Sound :
    (runs : List CheckRunView) (s : Standing) (name : Text)
    → standing runs name ≡ s
    → Sound runs (name ∷ []) (name_tally s name)
unfolding name_tally mem
name_tally-Sound runs absent name e = (
  (λ x m. ground arith, λ x m. ground arith, one (λ z. Waiting (standing runs z)) name (inl e)),
  λ x. ground arith,
  λ x. refl,
)
name_tally-Sound runs running name e = (
  (λ x m. ground arith, λ x m. ground arith, one (λ z. Waiting (standing runs z)) name (inr e)),
  λ x. ground arith,
  λ x. refl,
)
name_tally-Sound runs passed name e = (
  (one (λ z. standing runs z ≡ passed) name e, λ x m. ground arith, λ x m. ground arith),
  λ x. ground arith,
  λ x. refl,
)
name_tally-Sound runs failed name e = (
  (λ x m. ground arith, one (λ z. standing runs z ≡ failed) name e, λ x m. ground arith),
  λ x. ground arith,
  λ x. refl,
)

names_tally-Sound :
    (runs : List CheckRunView) (names : List Text) → Sound runs names (names_tally runs names)
unfolding names_tally
names_tally-Sound runs [] = no_tally-Sound runs
names_tally-Sound runs (name ∷ names) =
    join_tally-Sound runs (name ∷ []) names (name_tally (standing runs name) name)
      (names_tally runs names) (name_tally-Sound runs (standing runs name) name refl)
      (names_tally-Sound runs names)

-- The expansion, its missing members under their check names.
abbrev Expanded : List CheckRunView → Text → Expansion → Type 0
Expanded runs pattern e =
    Sorted runs e.passing e.failing e.pending
    × ((x : Text)
        → mem x (map (expand_check_name pattern) e.missing) ≡ true
        → standing runs x ≡ absent)

two :
    {P : Text → Type 0} (name : Text) (xs : List Text)
    → P name
    → ((x : Text) → mem x xs ≡ true → P x)
    → (x : Text) → mem x (name ∷ xs) ≡ true
    → P x
unfolding mem
two {P} name xs p f x m = elim (Bool-cases (text_eq name x)) [
  | inl e ↦ subst P ((text_eq_iff name x).0 e) p
  | inr e ↦ f x (ground arith)
]

sort_in-Expanded :
    (runs : List CheckRunView) (pattern project : Text) (s : Standing) (e : Expansion)
    → standing runs (expand_check_name pattern project) ≡ s
    → Expanded runs pattern e
    → Expanded runs pattern (sort_in s (expand_check_name pattern project) project e)
unfolding sort_in
sort_in-Expanded runs pattern project absent e h ((a, b, c), d) = ((a, b, c), two _ _ h d)
sort_in-Expanded runs pattern project running e h ((a, b, c), d) = ((a, b, two _ _ (inr h) c), d)
sort_in-Expanded runs pattern project passed e h ((a, b, c), d) = ((two _ _ h a, b, c), d)
sort_in-Expanded runs pattern project failed e h ((a, b, c), d) = ((a, two _ _ h b, c), d)

expand_check_set-Expanded :
    (policy : CheckSetPolicy) (projects : List Text) (runs : List CheckRunView)
    → Expanded runs policy.pattern (expand_check_set policy projects runs)
unfolding expand_check_set mem
expand_check_set-Expanded policy [] runs =
    ((λ x m. ground arith, λ x m. ground arith, λ x m. ground arith), λ x m. ground arith)
expand_check_set-Expanded policy (p ∷ ps) runs =
    sort_in-Expanded runs policy.pattern p _ (expand_check_set policy ps runs) refl
      (expand_check_set-Expanded policy ps runs)

-- what sorting one project in does to the names of the expansion
sort_in-mem :
    (s : Standing) (pattern project x : Text) (e : Expansion)
    → mem x (sort_in s (expand_check_name pattern project) project e).passing
        || (mem x (sort_in s (expand_check_name pattern project) project e).failing
            || (mem x (sort_in s (expand_check_name pattern project) project e).pending
                || mem x (
                    map
                      (expand_check_name pattern)
                      (sort_in s (expand_check_name pattern project) project e).missing)))
      ≡ (if text_eq (expand_check_name pattern project) x
          then true
          else mem x e.passing
            || (mem x e.failing
                || (mem x e.pending || mem x (map (expand_check_name pattern) e.missing))))
unfolding sort_in mem
sort_in-mem absent pattern project x e = ground arith
sort_in-mem running pattern project x e = ground arith
sort_in-mem passed pattern project x e = ground arith
sort_in-mem failed pattern project x e = ground arith

-- The expansion has the check name of every expected project, and no other.
expand_check_set-names :
    (policy : CheckSetPolicy) (projects : List Text) (runs : List CheckRunView) (x : Text)
    → mem x (expand_check_set policy projects runs).passing
        || (mem x (expand_check_set policy projects runs).failing
            || (mem x (expand_check_set policy projects runs).pending
                || mem x (
                    map
                      (expand_check_name policy.pattern)
                      (expand_check_set policy projects runs).missing)))
      ≡ mem x (map (expand_check_name policy.pattern) projects)
unfolding expand_check_set mem
expand_check_set-names policy [] runs x = refl
expand_check_set-names policy (p ∷ ps) runs x =
    sort_in-mem _ policy.pattern p x (expand_check_set policy ps runs)
    ∙ ap (λ b. if text_eq (expand_check_name policy.pattern p) x then true else b)
        (expand_check_set-names policy ps runs x)

set_tally-Sound :
    (runs : List CheckRunView) (cs : CheckSet)
    → Sound runs (map (expand_check_name cs.policy.pattern) cs.projects) (set_tally runs cs)
unfolding set_tally
set_tally-Sound runs cs =
    let ((a, b, c), d) = expand_check_set-Expanded cs.policy cs.projects runs in
    let e = expand_check_set cs.policy cs.projects runs in
    let missing = map (expand_check_name cs.policy.pattern) e.missing in
    let listed : (x : Text)
        → mem x (e.passing ++ (e.failing ++ (e.pending ++ missing)))
          ≡ (mem x e.passing || (mem x e.failing || (mem x e.pending || mem x missing))) =
      λ x. ground (
        arith,
        mem-append x e.passing (e.failing ++ (e.pending ++ missing)),
        mem-append x e.failing (e.pending ++ missing),
        mem-append x e.pending missing,
      ) in
    (
      (a, b, either e.pending missing c (λ x m. inl (d x m))),
      λ x. ground (arith, listed x, mem-append x e.pending missing),
      λ x. listed x ∙ expand_check_set-names cs.policy cs.projects runs x,
    )

sets_tally-Sound :
    (runs : List CheckRunView) (sets : List CheckSet)
    → Sound runs (set_names sets) (sets_tally runs sets)
unfolding sets_tally
sets_tally-Sound runs [] = no_tally-Sound runs
sets_tally-Sound runs (cs ∷ css) =
    join_tally-Sound runs (map (expand_check_name cs.policy.pattern) cs.projects) (set_names css)
      (set_tally runs cs) (sets_tally runs css) (set_tally-Sound runs cs)
      (sets_tally-Sound runs css)

-- Required are the individually required names and, for each set, the check name of each of its
-- projects, and nothing else. Every required check is listed as passing, failing or pending and
-- nothing else is, and each list tells the truth: passing checks have a completed, successful run,
-- failing ones a completed run without success, and pending ones no run or one not completed.
pub compute_merge_requirements-Accounted :
    (change_id : Text) (owners : List OwnerRequirement) (names : List Text)
    (runs : List CheckRunView) (sets : List CheckSet) (stale unbound : List Text)
    → Sorted runs
        (compute_merge_requirements change_id owners names runs sets stale unbound).passing_checks
        (compute_merge_requirements change_id owners names runs sets stale unbound).failing_checks
        (compute_merge_requirements change_id owners names runs sets stale unbound).pending_checks
      × Accounted
          (compute_merge_requirements change_id owners names runs sets stale
            unbound).required_checks
          (compute_merge_requirements change_id owners names runs sets stale unbound).passing_checks
          (compute_merge_requirements change_id owners names runs sets stale unbound).failing_checks
          (compute_merge_requirements change_id owners names runs sets stale unbound).pending_checks
      × ((x : Text)
          → mem x
              (compute_merge_requirements change_id owners names runs sets stale
                unbound).required_checks
            ≡ mem x (names ++ set_names sets))
unfolding compute_merge_requirements
compute_merge_requirements-Accounted change_id owners names runs sets stale unbound =
    join_tally-Sound runs names (set_names sets) (names_tally runs names) (sets_tally runs sets)
      (names_tally-Sound runs names) (sets_tally-Sound runs sets)
