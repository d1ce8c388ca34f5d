-- ===== src/Affected/Owner.antt =====
-- platform/affected/compute.go: findOwner and findRootProject.
use runko.Prelude.{
  ◌≤◌, ◌≡◌, refl, ◌⊎◌, inl, inr, Bool, true, false, Option, none, some, List, [], ◌∷◌, arith, ltb,
  Text, length, In, is_empty, sym, ◌∙◌, Bool-cases, if◌then◌else◌, ◌||◌,
}
use runko.Glob.{under}
use runko.Affected.Types.{ProjectInfo}

-- the `matches` of the loop
unfoldable pub owns : ProjectInfo → Text → Bool
unfolding under
owns p changed = is_empty p.path || under changed p.path

-- the `best` and `found` after one project
better : Option ProjectInfo → ProjectInfo → Bool
better none p = true
better (some best) p = ltb (length best.path) (length p.path)

owner_from : Option ProjectInfo → List ProjectInfo → Text → Option ProjectInfo
unfolding owns better
owner_from best [] changed = best
owner_from best (p ∷ ps) changed =
    owner_from (if owns p changed then (if better best p then some p else best) else best) ps
      changed

-- findOwner
unfoldable pub find_owner : List ProjectInfo → Text → Option ProjectInfo
unfolding owner_from
find_owner projects changed = owner_from none projects changed

-- findRootProject
unfoldable pub find_root_project : List ProjectInfo → Option ProjectInfo
find_root_project [] = none
find_root_project (p ∷ ps) = if is_empty p.path then some p else find_root_project ps

-- `p` owns the path, and no listed project that owns it has a longer path.
pub record IsOwner (projects : List ProjectInfo) (changed : Text) (p : ProjectInfo) : Type 0 where
  pub listed : In p projects
  pub holds : owns p changed ≡ true
  pub longest :
      (q : ProjectInfo) → In q projects → owns q changed ≡ true → length q.path ≤ length p.path

record Search (best : Option ProjectInfo) (ps : List ProjectInfo) (changed : Text) (p : ProjectInfo)
    : Type 0 where
  source : (best ≡ some p) ⊎ (In p ps × (owns p changed ≡ true))
  over_best : (b : ProjectInfo) → best ≡ some b → length b.path ≤ length p.path
  over_rest : (q : ProjectInfo) → In q ps → owns q changed ≡ true → length q.path ≤ length p.path

-- what one project makes of the best so far
next_best : Option ProjectInfo → ProjectInfo → Text → Option ProjectInfo
unfolding owns better
next_best best p changed = if owns p changed then (if better best p then some p else best) else best

-- Either the project takes the place of the best so far, or that stays, and is as long.
next_best_cases :
    (best : Option ProjectInfo) (p : ProjectInfo) (changed : Text)
    → ((next_best best p changed ≡ some p)
        × (owns p changed ≡ true)
        × ((b : ProjectInfo) → best ≡ some b → length b.path ≤ length p.path))
      ⊎ ((next_best best p changed ≡ best)
          × (owns p changed ≡ true
              → (b : ProjectInfo) × (best ≡ some b) × (length p.path ≤ length b.path)))
unfolding next_best
next_best_cases best p changed = elim (Bool-cases (owns p changed)) [
  | inr out ↦ inr (ground arith, λ h. ground arith)
  | inl own ↦ pick best own
]
  where
    pick :
        (best : Option ProjectInfo)
        → owns p changed ≡ true
        → ((next_best best p changed ≡ some p)
            × (owns p changed ≡ true)
            × ((b : ProjectInfo) → best ≡ some b → length b.path ≤ length p.path))
          ⊎ ((next_best best p changed ≡ best)
              × (owns p changed ≡ true
                  → (b : ProjectInfo) × (best ≡ some b) × (length p.path ≤ length b.path)))
    pick none own = inl (ground arith, own, λ b e. ground arith)
    pick (some b) own = elim (Bool-cases (ltb (length b.path) (length p.path))) [
      | inl lt ↦ inl (ground arith, own, λ b' e. ground arith)
      | inr ge ↦ inr (ground arith, λ _. (b, refl, ground arith))
    ]

Search-next :
    (best : Option ProjectInfo) (p : ProjectInfo) (ps : List ProjectInfo) (changed : Text)
    {r : ProjectInfo}
    → Search (next_best best p changed) ps changed r
    → Search best (p ∷ ps) changed r
Search-next best p ps changed {r} h = elim (next_best_cases best p changed) [
  | inl (e, own, longer) ↦ record {
    source = elim h.source [
      | inl e' ↦ inr (inl (ground arith), ground arith)
      | inr (m, o) ↦ inr (inr m, o)
    ];
    over_best = λ b eb. omega (arith, longer b eb, h.over_best p e);
    over_rest =
        λ q m o. elim m [ inl eq ↦ rw (← eq) (h.over_best p e) | inr m' ↦ h.over_rest q m' o ];
  }
  | inr (e, covered) ↦ record {
    source = elim h.source [ inl e' ↦ inl (sym e ∙ e') | inr (m, o) ↦ inr (inr m, o) ];
    over_best = λ b eb. h.over_best b (e ∙ eb);
    over_rest = λ q m o. elim m [
      | inr m' ↦ h.over_rest q m' o
      | inl eq ↦
          let (b, eb, le) = covered (rw eq o) in rw (← eq) (omega (arith, h.over_best b (e ∙ eb)))
    ];
  }
]

owner_from-Search :
    (best : Option ProjectInfo) (ps : List ProjectInfo) (changed : Text) (r : ProjectInfo)
    → owner_from best ps changed ≡ some r
    → Search best ps changed r
unfolding owner_from next_best
owner_from-Search best [] changed r h = record {
  source = inl h;
  over_best = λ b e. ground arith;
  over_rest = λ q m. elim m [ ];
}
owner_from-Search best (p ∷ ps) changed r h =
    Search-next best p ps changed (owner_from-Search (next_best best p changed) ps changed r h)

-- The project found is listed, owns the path, and no listed owner of the path has a longer path.
pub find_owner-IsOwner :
    (projects : List ProjectInfo) (changed : Text) (p : ProjectInfo)
    → find_owner projects changed ≡ some p
    → IsOwner projects changed p
unfolding find_owner
find_owner-IsOwner projects changed p h =
    let s = owner_from-Search none projects changed p h in
    elim s.source [
      | inl e ↦ ground arith
      | inr (m, o) ↦ record { listed = m; holds = o; longest = s.over_rest }
    ]

owner_from-none :
    (best : Option ProjectInfo) (ps : List ProjectInfo) (changed : Text)
    → owner_from best ps changed ≡ none
    → (best ≡ none) × ((q : ProjectInfo) → In q ps → owns q changed ≡ false)
unfolding owner_from next_best
owner_from-none best [] changed h = (h, λ q m. elim m [ ])
owner_from-none best (p ∷ ps) changed h =
    let (e, none_own) = owner_from-none (next_best best p changed) ps changed h in
    elim (next_best_cases best p changed) [
      | inl (e', _, _) ↦ ground arith
      | inr (e', covered) ↦
          let empty : best ≡ none = sym e' ∙ e in
          (
            empty,
            λ q m. elim m [
              | inr m' ↦ none_own q m'
              | inl eq ↦ elim (Bool-cases (owns p changed)) [
                | inl o ↦ let (b, eb, _) = covered o in ground arith
                | inr o ↦ rw (← eq) o
              ]
            ],
          )
    ]

-- No owner is found only where no listed project owns the path.
pub find_owner-eq-none :
    (projects : List ProjectInfo) (changed : Text)
    → find_owner projects changed ≡ none
    → (q : ProjectInfo) → In q projects
    → owns q changed ≡ false
unfolding find_owner
find_owner-eq-none projects changed h = (owner_from-none none projects changed h).1
