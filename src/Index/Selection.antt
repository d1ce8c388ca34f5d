-- ===== src/Index/Selection.antt =====
-- platform/index/scan.go: ChecksFor and PostLandChecks, which checks of a project a run owes.
use runko.Prelude.{◌≡◌, refl, ◌⊎◌, inl, inr, Bool, true, false, List, keep, In, In-keep}
use runko.Index.Types.{RunWhen, affected, direct, post_land, CheckDef, IndexedProject}

pub is_post_land : RunWhen → Bool
is_post_land post_land = true
is_post_land affected = false
is_post_land direct = false

-- whether the loop keeps a check of that class
pub gates : Bool → RunWhen → Bool
gates is_direct post_land = false
gates is_direct affected = true
gates is_direct direct = is_direct

-- ChecksFor
unfoldable pub checks_for : IndexedProject → Bool → List CheckDef
unfolding keep gates
checks_for p is_direct = keep (λ c. gates is_direct c.run_when) p.checks

-- PostLandChecks
unfoldable pub post_land_checks : IndexedProject → List CheckDef
unfolding keep is_post_land
post_land_checks p = keep (λ c. is_post_land c.run_when) p.checks

gates_cases :
    (w : RunWhen)
    → ((gates true w ≡ true) ⊎ (is_post_land w ≡ true))
      × ¬ ((gates true w ≡ true) × (is_post_land w ≡ true))
      × (gates false w ≡ true → gates true w ≡ true)
unfolding gates is_post_land
gates_cases affected = (inl refl, λ (a, b). cc, λ h. h)
gates_cases direct = (inl refl, λ (a, b). cc, λ h. refl)
gates_cases post_land = (inr refl, λ (a, b). cc, λ h. h)

-- A check gates a change, or runs after the land, never both; with the paths of its project touched
-- it does one of them.
pub checks_for-post_land_checks :
    (p : IndexedProject) (c : CheckDef)
    → In c p.checks
    → (In c (checks_for p true) ⊎ In c (post_land_checks p))
      × ¬ (In c (checks_for p true) × In c (post_land_checks p))
      × (In c (checks_for p false) → In c (checks_for p true))
unfolding checks_for post_land_checks
checks_for-post_land_checks p c i =
    let (either, not_both, less) = gates_cases c.run_when in
    let (f, g) = In-keep (λ (d : CheckDef). gates true d.run_when) c p.checks in
    let (f', g') = In-keep (λ (d : CheckDef). is_post_land d.run_when) c p.checks in
    let (h, _) = In-keep (λ (d : CheckDef). gates false d.run_when) c p.checks in
    (
      elim either [ inl a ↦ inl (g (i, a)) | inr b ↦ inr (g' (i, b)) ],
      λ (a, b). not_both ((f a).1, (f' b).1),
      λ a. g (i, less (h a).1),
    )
