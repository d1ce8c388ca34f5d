-- ===== src/Land/Revalidation.antt =====
-- platform/land/revalidate.go: RevalidationScope, NeedsRevalidation, NeedsTrunkDelta.
use runko.Prelude.{
  ◌≡◌, refl, ◌≢◌, ◌↔◌, inl, inr, Bool, true, false, List, map, arith, Text, mem, any, any_iff,
  Bool-cases, if◌then◌else◌, ◌||◌,
}
use runko.Affected.Types.{ProjectRef, Result}

-- `unset` is the empty scope, `other` a value that no constant names.
pub data RevalidationScope : Type 0 where
  conflict_only affected_intersection always never unset other : RevalidationScope

ref_names : List ProjectRef → List Text
ref_names = map (λ r. r.name)

-- intersectsProjects
intersects_projects : List ProjectRef → List ProjectRef → Bool
unfolding ref_names any mem
intersects_projects a b = any (λ y. mem y (ref_names a)) (ref_names b)

by_sets : Result → Result → Bool
unfolding intersects_projects
by_sets change delta =
    if change.run_everything || delta.run_everything
    then true
    else intersects_projects change.projects delta.projects

-- NeedsRevalidation
unfoldable pub needs_revalidation : RevalidationScope → Result → Result → Bool
unfolding by_sets
needs_revalidation never change delta = false
needs_revalidation conflict_only change delta = false
needs_revalidation unset change delta = false
needs_revalidation always change delta = true
needs_revalidation affected_intersection change delta = by_sets change delta
needs_revalidation other change delta = by_sets change delta

-- NeedsTrunkDelta
unfoldable pub needs_trunk_delta : RevalidationScope → Bool
needs_trunk_delta affected_intersection = true
needs_trunk_delta always = true
needs_trunk_delta conflict_only = false
needs_trunk_delta never = false
needs_trunk_delta unset = false
needs_trunk_delta other = false

-- Under the affected-intersection tier a land goes on without new checks exactly if neither side
-- runs everything and no project is in both sets.
pub needs_revalidation_intersection :
    (change delta : Result)
    → (needs_revalidation affected_intersection change delta ≡ false) ↔ (
        (change.run_everything ≡ false)
        × (delta.run_everything ≡ false)
        × ((x : Text)
            → mem x (map (λ r. r.name) delta.projects) ≡ true
            → mem x (map (λ r. r.name) change.projects) ≡ false))
unfolding needs_revalidation
needs_revalidation_intersection change delta = (sound, complete)
  where
    common :
        (x : Text)
        → mem x (ref_names delta.projects) ≡ true
        → mem x (ref_names change.projects) ≡ true
        → intersects_projects change.projects delta.projects ≡ true
    common x d c = (any_iff _ (ref_names delta.projects)).1 (x, d, c)

    sound :
        by_sets change delta ≡ false
        → (change.run_everything ≡ false)
          × (delta.run_everything ≡ false)
          × ((x : Text)
              → mem x (ref_names delta.projects) ≡ true
              → mem x (ref_names change.projects) ≡ false)
    sound h = (
      ground arith,
      ground arith,
      λ x d. elim (Bool-cases (mem x (ref_names change.projects))) [
        | inr out ↦ out
        | inl both ↦ ground (arith, common x d both)
      ],
    )

    complete :
        (change.run_everything ≡ false)
          × (delta.run_everything ≡ false)
          × ((x : Text)
              → mem x (ref_names delta.projects) ≡ true
              → mem x (ref_names change.projects) ≡ false)
        → by_sets change delta ≡ false
    complete (c, d, apart) =
        elim (Bool-cases (intersects_projects change.projects delta.projects)) [
          | inr e ↦ ground arith
          | inl e ↦
              let (x, m, k) =
                (any_iff (λ y. mem y (ref_names change.projects)) (ref_names delta.projects)).0 e in
              ground (arith, apart x m)
        ]

-- A tier that is not `other` and does not consult the trunk delta never asks for new checks, so
-- Land may skip computing the delta.
pub needs_revalidation_skip :
    (scope : RevalidationScope) (change delta : Result)
    → scope ≢ other
    → needs_trunk_delta scope ≡ false
    → needs_revalidation scope change delta ≡ false
unfolding needs_revalidation needs_trunk_delta
needs_revalidation_skip never change delta known h = refl
needs_revalidation_skip conflict_only change delta known h = refl
needs_revalidation_skip unset change delta known h = refl
needs_revalidation_skip always change delta known h = cc
needs_revalidation_skip affected_intersection change delta known h = cc
needs_revalidation_skip other change delta known h = absurd (known refl)
