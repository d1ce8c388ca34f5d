-- ===== src/Daemon/Gate/Owners/Rows.antt =====
-- Which owners the gate requires, and what satisfies one.
use runko.Prelude.{
  ◌≡◌, refl, sym, ap, subst, ◌∙◌, ◌≢◌, ◌↔◌, ◌⊎◌, inl, inr, Bool, true, false, ◌||◌, none, some,
  List, [], ◌∷◌, arith, Bool-cases, Bool-ext, In, Text, text_eq, text_eq_iff, mem, mem-sort_texts,
  sort_texts, lookup, is_empty, is_empty_iff, In-map, mem_iff,
}
use runko.Index.Types.{IndexedProject}
use runko.Checks.Requirements.{OwnerRequirement}
use runko.Store.Model.{Approval}
use runko.Daemon.Gate.Owners.{
  owner_map, keys, approved_refs, reads_true, row_of, owner_requirements,
}
use runko.Daemon.Gate.Owners.Entries.{
  entry_after, lookup-owner_map, AllAuto, IsRequired, entry_after-none,
}

lookup-keys :
    (k : Text) (m : List (Text × Bool))
    → ((mem k (keys m) ≡ true) × ((b : Bool) × (lookup k m ≡ some b)))
      ⊎ ((mem k (keys m) ≡ false) × (lookup k m ≡ none))
unfolding keys mem lookup
lookup-keys k [] = inr (refl, refl)
lookup-keys k ((j, b) ∷ m) = elim (Bool-cases (text_eq j k)) [
  | inl e ↦ inl (ground arith, (b, ground arith))
  | inr e ↦ elim (lookup-keys k m) [
    | inl (h, found) ↦ let (c, l) = found in inl (ground arith, (c, ground arith))
    | inr (h, l) ↦ inr (ground arith, ground arith)
  ]
]

-- An owner is approved by an approval of the head, or by being its author and no agent.
abbrev pub IsApproved : Text → Text → Bool → List Approval → Text → Type 0
IsApproved head_sha authored_by is_agent approvals ref =
    ((a : Approval) × In a approvals × (a.head_sha ≡ head_sha) × (a.owner_ref ≡ ref))
    ⊎ ((authored_by ≡ ref) × (authored_by ≢ []) × (is_agent ≡ false))

mem-approved_refs :
    (head_sha authored_by : Text) (is_agent : Bool) (required : List (Text × Bool))
    (approvals : List Approval) (ref : Text)
    → mem ref (keys required) ≡ true
    → (mem ref (approved_refs head_sha authored_by is_agent required approvals) ≡ true)
      ↔ IsApproved head_sha authored_by is_agent approvals ref
unfolding approved_refs mem
mem-approved_refs head_sha authored_by is_agent required [] ref r =
    let (same, same') = text_eq_iff authored_by ref in
    let (emp, emp') = is_empty_iff authored_by in
    (
      λ h. inr (same (ground arith), λ z. ground (arith, emp' z), ground arith),
      λ h. elim h [
        | inl (a, i, _, _) ↦ elim i [ ]
        | inr (e, n, g) ↦
            let known : mem authored_by (keys required) ≡ true =
              ap (λ (z : Text). mem z (keys required)) e ∙ r in
            let hit = same' e in
            elim (Bool-cases (is_empty authored_by)) [
              | inl k ↦ absurd (n (emp k))
              | inr k ↦ ground arith
            ]
      ],
    )
mem-approved_refs head_sha authored_by is_agent required (a ∷ approvals) ref r =
    let (to, from) = mem-approved_refs head_sha authored_by is_agent required approvals ref r in
    let (same, same') = text_eq_iff a.head_sha head_sha in
    let (named, named') = text_eq_iff a.owner_ref ref in
    let later : IsApproved head_sha authored_by is_agent approvals ref
        → IsApproved head_sha authored_by is_agent (a ∷ approvals) ref =
      λ k. elim k [ inl (q, i, h, o) ↦ inl (q, inr i, h, o) | inr k' ↦ inr k' ] in
    let earlier : IsApproved head_sha authored_by is_agent (a ∷ approvals) ref
        → ((a.head_sha ≡ head_sha) × (a.owner_ref ≡ ref))
          ⊎ IsApproved head_sha authored_by is_agent approvals ref =
      λ k. elim k [
        | inr k' ↦ inr (inr k')
        | inl (q, i, h, o) ↦ elim i [
          | inl e ↦
              inl
                (ap (λ (z : Approval). z.head_sha) e ∙ h, ap (λ (z : Approval). z.owner_ref) e ∙ o)
          | inr j ↦ inr (inl (q, j, h, o))
        ]
      ] in
    elim (Bool-cases (text_eq a.head_sha head_sha)) [
      | inr e ↦ (
        λ h. later (to (ground arith)),
        λ k. elim (earlier k) [
          | inl (h, o) ↦ absurd (cc (same' h))
          | inr k' ↦ ground (arith, from k')
        ],
      )
      | inl e ↦ elim (Bool-cases (text_eq a.owner_ref ref)) [
        | inl e' ↦ (λ h. inl (a, inl refl, same e, named e'), λ k. ground arith)
        | inr e' ↦ (
          λ h. later (to (ground arith)),
          λ k. elim (earlier k) [
            | inl (h, o) ↦ absurd (cc (named' o))
            | inr k' ↦ ground (arith, from k')
          ],
        )
      ]
    ]

either_iff :
    {P Q : Type 0} (a b : Bool) → (a ≡ true) ↔ P → (b ≡ true) ↔ Q → ((a || b) ≡ true) ↔ (P ⊎ Q)
either_iff true b p q = (λ h. inl (p.0 refl), λ h. refl)
either_iff false b p q =
    (λ h. inr (q.0 h), λ h. elim h [ inl x ↦ absurd (cc (p.1 x)) | inr y ↦ q.1 y ])

entry_cases :
    (indexed zones : List IndexedProject) (ref : Text) (paths : List Text)
    → ((mem ref (keys (owner_map indexed zones paths [])) ≡ false)
        × ¬ IsRequired indexed zones ref paths)
      ⊎ ((mem ref (keys (owner_map indexed zones paths [])) ≡ true)
          × IsRequired indexed zones ref paths
          × ((reads_true ref (owner_map indexed zones paths []) ≡ true)
              ↔ AllAuto indexed zones ref paths))
unfolding reads_true lookup
entry_cases indexed zones ref paths =
    let e : lookup ref (owner_map indexed zones paths [])
        ≡ entry_after indexed zones ref paths none =
      lookup-owner_map indexed zones ref paths [] in
    elim (lookup-keys ref (owner_map indexed zones paths [])) [
      | inl (m, found) ↦
          let (b, l) = found in
          elim (entry_after-none indexed zones ref paths) [
            | inl (n, _) ↦ absurd (cc)
            | inr (c, k, r, both) ↦
                let (to, from) = both in
                let v : reads_true ref (owner_map indexed zones paths []) ≡ c =
                  rw (e, k, reads_true) refl in
                inr (m, r, (λ h. to (sym v ∙ h), λ all. v ∙ from all))
          ]
      | inr (m, l) ↦ elim (entry_after-none indexed zones ref paths) [
        | inl (n, none_requires) ↦ inl (m, none_requires)
        | inr (c, k, _, _) ↦ absurd (cc)
      ]
    ]

-- The gate has a row for an owner exactly if some changed path is owned by a project that lists
-- them, and the row is satisfied exactly if they approved the head, or are its author and no agent,
-- or every such path lies in an auto-approve zone.
pub owner_requirements-Rows :
    (head_sha authored_by : Text) (is_agent : Bool) (approvals : List Approval) (paths : List Text)
    (indexed zones : List IndexedProject) (ref : Text) (b : Bool)
    → In
        (record { owner_ref = ref; satisfied = b })
        (owner_requirements head_sha authored_by is_agent approvals paths indexed zones).0
      ↔ (IsRequired indexed zones ref paths
          × ((b ≡ true) ↔ (
              IsApproved head_sha authored_by is_agent approvals ref
              ⊎ AllAuto indexed zones ref paths)))
unfolding owner_requirements row_of reads_true
owner_requirements-Rows head_sha authored_by is_agent approvals paths indexed zones ref b =
    let required = owner_map indexed zones paths [] in
    let approved = approved_refs head_sha authored_by is_agent required approvals in
    let (to, from) =
      In-map (row_of approved required) (record { owner_ref = ref; satisfied = b })
        (sort_texts (keys required)) in
    let sorted = mem-sort_texts (keys required) in
    let (has, has') = mem_iff ref (sort_texts (keys required)) in
    let value : (mem ref (keys required) ≡ true)
        → IsRequired indexed zones ref paths
          × (((mem ref approved || reads_true ref required) ≡ true) ↔ (
              IsApproved head_sha authored_by is_agent approvals ref
              ⊎ AllAuto indexed zones ref paths)) =
      λ m. elim (entry_cases indexed zones ref paths) [
        | inl (n, _) ↦ absurd (cc)
        | inr (_, r, zone) ↦ (
          r,
          either_iff _ _ (mem-approved_refs head_sha authored_by is_agent required approvals ref m)
              zone,
        )
      ] in
    (
      λ i.
          let (x, j, e) = to i in
          let same : x ≡ ref = ap (λ (o : OwnerRequirement). o.owner_ref) e in
          let m : mem ref (keys required) ≡ true =
            sym (sorted ref)
            ∙ (has' (subst (λ (z : Text). In z (sort_texts (keys required))) same j)) in
          let (r, iff) = value m in
          let v : (mem ref approved || reads_true ref required) ≡ b =
            ap (λ (z : Text). (row_of approved required z).satisfied) (sym same)
            ∙ ap (λ (o : OwnerRequirement). o.satisfied) e in
          (
            r,
            subst
                (λ (z : Bool). (z ≡ true) ↔ (
                  IsApproved head_sha authored_by is_agent approvals ref
                  ⊎ AllAuto indexed zones ref paths))
                v iff,
          ),
      λ (r, iff). elim (entry_cases indexed zones ref paths) [
        | inl (_, n) ↦ absurd (n r)
        | inr (m, _, _) ↦
            let (_, iff') = value m in
            let v : (mem ref approved || reads_true ref required) ≡ b =
              Bool-ext _ _ (λ h. iff.1 (iff'.0 h)) (λ h. iff'.1 (iff.0 h)) in
            from (ref, has (sorted ref ∙ m), ground arith)
      ],
    )
