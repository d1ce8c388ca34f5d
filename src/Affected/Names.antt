-- ===== src/Affected/Names.antt =====
-- platform/affected/compute.go: CloseOverDependentNames, which starts the closure from given names.
mod Examples
use runko.Prelude.{
  ◌≡◌, refl, sym, ap, ◌∙◌, ◌↔◌, inl, inr, Bool, true, false, ◌&&◌, none, some, List, [], ◌∷◌, map,
  arith, Bool-cases, Option-cases, Text, text_eq, text_eq_iff, mem, dedup_sorted, mem-dedup_sorted,
  keep,
}
use runko.Affected.Types.{ProjectInfo, ProjectRef}
use runko.Affected.Closure.{close_over_dependents}
use runko.Affected.Closure.Reach.{Reached, close_over_dependents_correct}
use runko.Affected.Compute.{by_name}

known_name : List ProjectInfo → Text → Bool
unfolding by_name
known_name projects name = elim (by_name projects name) [ none ↦ false | some p ↦ true ]

-- the seed: the names that some project has
unfoldable pub known_names : List ProjectInfo → List Text → List Text
unfolding keep known_name
known_names projects names = keep (known_name projects) names

path_of : List ProjectInfo → Text → Text
unfolding by_name
path_of projects name = elim (by_name projects name) [ none ↦ [] | some p ↦ p.path ]

-- CloseOverDependentNames
pub close_over_dependent_names : List ProjectInfo → List Text → List ProjectRef
unfolding path_of known_names mem dedup_sorted
close_over_dependent_names projects names =
    let seed = known_names projects names in
    map (λ name. record { name = name; path = path_of projects name; direct = mem name seed })
      (dedup_sorted (close_over_dependents projects seed).0)

mem-names :
    (f : Text → ProjectRef) (xs : List Text) (x : Text)
    → ((y : Text) → (f y).name ≡ y)
    → mem x (map (λ r. r.name) (map f xs)) ≡ mem x xs
unfolding mem
mem-names f [] x h = refl
mem-names f (y ∷ ys) x h = ground (arith, mem-names f ys x h, ap (λ (t : Text). text_eq t x) (h y))

mem-known_names :
    (projects : List ProjectInfo) (names : List Text) (x : Text)
    → mem x (known_names projects names) ≡ (mem x names && known_name projects x)
unfolding known_names keep mem
mem-known_names projects [] x = refl
mem-known_names projects (n ∷ names) x = elim (Bool-cases (text_eq n x)) [
  | inl e ↦
      let same = ap (known_name projects) ((text_eq_iff n x).0 e) in
      ground (arith, mem-known_names projects names x)
  | inr e ↦ ground (arith, mem-known_names projects names x)
]

known-by_name :
    (projects : List ProjectInfo) (x : Text)
    → (known_name projects x ≡ true) ↔ ((p : ProjectInfo) × (by_name projects x ≡ some p))
unfolding known_name
known-by_name projects x = elim (Option-cases (by_name projects x)) [
  | inl e ↦ (λ h. ground arith, λ k. ground arith)
  | inr (p, e) ↦ (λ h. (p, e), λ k. rw (e, known_name) refl)
]

-- A project is listed exactly if the declared edges reach it from one of the seeds; and the seeds
-- are exactly the given names that some project has, so that unknown names bring in nothing.
pub close_over_dependent_names-Reached :
    (projects : List ProjectInfo) (names : List Text) (x : Text)
    → ((mem x (map (λ r. r.name) (close_over_dependent_names projects names)) ≡ true)
        ↔ Reached projects (known_names projects names) x)
      × ((mem x (known_names projects names) ≡ true)
          ↔ ((mem x names ≡ true) × ((p : ProjectInfo) × (by_name projects x ≡ some p))))
unfolding close_over_dependent_names
close_over_dependent_names-Reached projects names x =
    let seed = known_names projects names in
    let (to, from) = close_over_dependents_correct projects seed x in
    let (known, knows) = known-by_name projects x in
    let same =
      mem-names
        (λ name. record { name = name; path = path_of projects name; direct = mem name seed })
        (dedup_sorted (close_over_dependents projects seed).0) x (λ y. refl)
      ∙ mem-dedup_sorted (close_over_dependents projects seed).0 x in
    let k = mem-known_names projects names x in
    (
      (λ h. to (sym same ∙ h), λ r. same ∙ from r),
      (λ m. (ground arith, known (ground arith)), λ (m, q). let n = knows q in ground arith),
    )
