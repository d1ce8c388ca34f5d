-- ===== src/Daemon/Gate/Names/Owed.antt =====
-- Which checks the gate requires of a change.
use runko.Prelude.{
  ◌≡◌, refl, sym, ap, subst, ◌∙◌, ◌↔◌, ◌⊎◌, inl, inr, Bool, true, false, not, ◌&&◌, some, List, [],
  ◌∷◌, map, arith, Bool-cases, Option-cases, In, In-keep, Text, text_eq, text_eq_iff, mem,
  mem-append, mem-map_iff, mem-sort_texts,
}
use runko.Affected.Types.{ProjectRef, Result}
use runko.Index.Types.{IndexedProject, CheckDef}
use runko.Index.Selection.{checks_for, gates}
use runko.Daemon.Gate.Names.{
  project_named, scoped_refs, scoped, owed_names, distinct_names, required_check_names,
}

-- The project's checks are looked at: under run_everything as a direct one, else with the mark that
-- the affected set gives it.
abbrev pub InScope : Result → List IndexedProject → IndexedProject → Bool → Type 0
InScope result indexed p is_direct =
    ((result.run_everything ≡ true) × In p indexed × (is_direct ≡ true))
    ⊎ ((result.run_everything ≡ false)
        × ((ref : ProjectRef) × In ref result.projects
            × (project_named ref.name indexed ≡ some p)
            × (is_direct ≡ ref.direct)))

mem-distinct_names :
    (n : Text) (seen xs : List Text)
    → mem n (distinct_names seen xs) ≡ (mem n xs && not (mem n seen))
unfolding mem distinct_names
mem-distinct_names n seen [] = refl
mem-distinct_names n seen (x ∷ xs) = elim (Bool-cases (text_eq x n)) [
  | inl e ↦
      let same : mem x seen ≡ mem n seen = ap (λ (z : Text). mem z seen) ((text_eq_iff x n).0 e) in
      ground (arith, mem-distinct_names n seen xs, mem-distinct_names n (x ∷ seen) xs)
  | inr e ↦ ground (arith, mem-distinct_names n seen xs, mem-distinct_names n (x ∷ seen) xs)
]

mem-owed_names :
    (n : Text) (ps : List (IndexedProject × Bool))
    → (mem n (owed_names ps) ≡ true) ↔ (
        (p : IndexedProject) × (d : Bool) × (c : CheckDef) × In (p, d) ps
        × In c (checks_for p d)
        × (c.name ≡ n))
unfolding owed_names mem
mem-owed_names n [] = (λ h. ground arith, λ (p, d, c, i, j, e). elim i [ ])
mem-owed_names n ((q, b) ∷ ps) =
    let (to, from) = mem-owed_names n ps in
    let (here, here') = mem-map_iff (λ (c : CheckDef). c.name) n (checks_for q b) in
    let split = mem-append n (map (λ (c : CheckDef). c.name) (checks_for q b)) (owed_names ps) in
    elim (Bool-cases (mem n (map (λ (c : CheckDef). c.name) (checks_for q b)))) [
      | inl e ↦ (λ h. let (c, j, k) = here e in (q, b, c, inl refl, j, k), λ h. ground arith)
      | inr e ↦ (
        λ h. let (p, d, c, i, j, k) = to (ground arith) in (p, d, c, inr i, j, k),
        λ (p, d, c, i, j, k). elim i [
          | inl s ↦ absurd (
              ground (
                arith,
                here' (
                  c,
                  subst (λ (z : IndexedProject × Bool). In c (checks_for z.0 z.1)) (sym s) j,
                  k,
                ),
              ))
          | inr i' ↦ ground (arith, from (p, d, c, i', j, k))
        ],
      )
    ]

In-scoped_refs :
    (refs : List ProjectRef) (indexed : List IndexedProject) (p : IndexedProject) (d : Bool)
    → In {A = IndexedProject × Bool} (p, d) (scoped_refs refs indexed) ↔ (
        (ref : ProjectRef) × In ref refs
        × (project_named ref.name indexed ≡ some p)
        × (d ≡ ref.direct))
unfolding scoped_refs
In-scoped_refs [] indexed p d = (λ h. elim h [ ], λ (ref, i, a, b). elim i [ ])
In-scoped_refs (r ∷ refs) indexed p d =
    let (to, from) = In-scoped_refs refs indexed p d in
    elim (Option-cases (project_named r.name indexed)) [
      | inl e ↦
          rw (e, scoped_refs)
            (
              λ h. let (ref, i, a, b) = to h in (ref, inr i, a, b),
              λ (ref, i, a, b). elim i [
                | inl s ↦ absurd (cc (ap (λ (z : ProjectRef). project_named z.name indexed) s))
                | inr j ↦ from (ref, j, a, b)
              ],
            )
      | inr (q, e) ↦
          rw (e, scoped_refs)
            (
              λ h. elim h [
                | inl s ↦ (
                  r,
                  inl refl,
                  e ∙ ap (λ (z : IndexedProject × Bool). some z.0) s,
                  sym (ap (λ (z : IndexedProject × Bool). z.1) s),
                )
                | inr i ↦ let (ref, j, a, b) = to i in (ref, inr j, a, b)
              ],
              λ (ref, i, a, b). elim i [
                | inl s ↦
                    let x : some q ≡ some p =
                      sym e ∙ (ap (λ (z : ProjectRef). project_named z.name indexed) s ∙ a) in
                    let y : r.direct ≡ d = ap (λ (z : ProjectRef). z.direct) s ∙ sym b in
                    inl (ground arith)
                | inr j ↦ inr (from (ref, j, a, b))
              ],
            )
    ]

In-direct :
    (indexed : List IndexedProject) (p : IndexedProject) (d : Bool)
    → In {A = IndexedProject × Bool} (p, d) (map (λ q. (q, true)) indexed)
      ↔ (In p indexed × (d ≡ true))
In-direct [] p d = (λ h. elim h [ ], λ (i, e). elim i [ ])
In-direct (q ∷ qs) p d =
    let (to, from) = In-direct qs p d in
    (
      λ h. elim h [
        | inl s ↦ (
          inl (ap (λ (z : IndexedProject × Bool). z.0) s),
          sym (ap (λ (z : IndexedProject × Bool). z.1) s),
        )
        | inr i ↦ let (j, e) = to i in (inr j, e)
      ],
      λ (i, e). elim i [ inl s ↦ inl (ground arith) | inr j ↦ inr (from (j, e)) ],
    )

In-scoped :
    (result : Result) (indexed : List IndexedProject) (p : IndexedProject) (d : Bool)
    → In {A = IndexedProject × Bool} (p, d) (scoped result indexed) ↔ InScope result indexed p d
unfolding scoped
In-scoped result indexed p d =
    let (to, from) = In-direct indexed p d in
    let (to', from') = In-scoped_refs result.projects indexed p d in
    elim (Bool-cases result.run_everything) [
      | inl e ↦
          rw (e, scoped)
            (
              λ h. let (j, t) = to h in inl (refl, j, t),
              λ h. elim h [ inl (_, i, t) ↦ from (i, t) | inr (n, _) ↦ absurd (cc) ],
            )
      | inr e ↦
          rw (e, scoped)
            (
              λ h. inr (refl, to' h),
              λ h. elim h [ inl (n, _, _) ↦ absurd (cc) | inr (_, k) ↦ from' k ],
            )
    ]

-- The gate requires a check exactly if a project in the change's scope declares it in a class that
-- gates: of every project under run_everything, else of the projects in the affected set, where a
-- check of the class `direct` counts only if the project's own paths are touched, and a check that
-- runs after the land never does.
pub required_check_names-Owed :
    (result : Result) (indexed : List IndexedProject) (n : Text)
    → (mem n (required_check_names result indexed) ≡ true) ↔ (
        (p : IndexedProject) × (d : Bool) × (c : CheckDef) × InScope result indexed p d
        × In c p.checks
        × (gates d c.run_when ≡ true)
        × (c.name ≡ n))
unfolding required_check_names checks_for mem
required_check_names-Owed result indexed n =
    let owed = owed_names (scoped result indexed) in
    let names : mem n (required_check_names result indexed) ≡ mem n owed =
      mem-sort_texts (distinct_names [] owed) n ∙ (mem-distinct_names n [] owed ∙ ground arith) in
    let (to, from) = mem-owed_names n (scoped result indexed) in
    (
      λ h.
          let (p, d, c, i, j, e) = to (sym names ∙ h) in
          let (k, g) = (In-keep (λ (c : CheckDef). gates d c.run_when) c p.checks).0 j in
          (p, d, c, (In-scoped result indexed p d).0 i, k, g, e),
      λ (p, d, c, i, k, g, e).
          names
          ∙ from (
            p,
            d,
            c,
            (In-scoped result indexed p d).1 i,
            (In-keep (λ (c : CheckDef). gates d c.run_when) c p.checks).1 (k, g),
            e,
          ),
    )
