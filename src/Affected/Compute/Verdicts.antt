-- ===== src/Affected/Compute/Verdicts.antt =====
-- What the classification of a path answers, and which flags the scan sets from it.
use runko.Prelude.{
  ◌≡◌, refl, ◌∙◌, ◌⊎◌, inl, inr, Bool, true, false, ◌&&◌, some, List, [], ◌∷◌, arith, Text, mem, In,
  any, Bool-cases, Option-cases, is_empty, ◌||◌,
}
use runko.Glob.{match_ordered_which, match_ordered}
use runko.Affected.Types.{ProjectInfo, Options, conservative}
use runko.Affected.Owner.{
  find_owner, find_root_project, owns, find_owner-eq-none, find_owner-IsOwner,
}
use runko.Affected.Compute.{
  Verdict, refinable_escalation, blunt_escalation, dropped, attributed, is_conservative, unowned,
  by_owner, attribute, classify, Scan, note_path, scan_paths,
}

-- A root-invalidation pattern matches, and no successful snapshot diff stands in for it.
abbrev pub RootInvalidated : Options → Text → Type 0
RootInvalidated opts changed =
    ((match_ordered_which opts.root_invalidation_patterns changed).1 ≡ true)
    × ((mem (match_ordered_which opts.root_invalidation_patterns changed).0 opts.refinable_patterns
          && opts.refinable_handled)
        ≡ false)

-- No project owns the path, under conservative strictness.
abbrev pub Unscoped : List ProjectInfo → Options → Text → Type 0
Unscoped projects opts changed =
    (opts.strictness ≡ conservative) × ((q : ProjectInfo) → In q projects → owns q changed ≡ false)

abbrev pub Escalates : List ProjectInfo → Options → Text → Type 0
Escalates projects opts changed = RootInvalidated opts changed ⊎ Unscoped projects opts changed

abbrev pub is_escalation : Verdict → Bool
is_escalation refinable_escalation = true
is_escalation blunt_escalation = true
is_escalation dropped = false
is_escalation (attributed name) = false

abbrev pub is_blunt : Verdict → Bool
is_blunt blunt_escalation = true
is_blunt refinable_escalation = false
is_blunt dropped = false
is_blunt (attributed name) = false

find_root_project-owns :
    (projects : List ProjectInfo) (r : ProjectInfo) (changed : Text)
    → find_root_project projects ≡ some r
    → In r projects × (owns r changed ≡ true)
unfolding find_root_project owns
find_root_project-owns [] r changed h = ground arith
find_root_project-owns (p ∷ ps) r changed h = elim (Bool-cases (is_empty p.path)) [
  | inl e ↦ (inl (ground arith), ground arith)
  | inr e ↦ let (m, o) = find_root_project-owns ps r changed (ground arith) in (inr m, o)
]

-- What attribution answers, case by case.
pub attribute_cases :
    (projects : List ProjectInfo) (opts : Options) (changed : Text)
    → ((p : ProjectInfo) × In p projects
        × (owns p changed ≡ true)
        × (attribute projects opts changed ≡ attributed p.name))
      ⊎ (((q : ProjectInfo) → In q projects → owns q changed ≡ false)
          × (attribute projects opts changed ≡ unowned opts))
unfolding attribute by_owner
attribute_cases projects opts changed = elim (Option-cases (find_root_project projects)) [
  | inl no_root ↦ owner (ground arith)
  | inr (r, root) ↦ elim (Bool-cases (match_ordered opts.prose_patterns changed)) [
    | inl prose ↦
        let (m, o) = find_root_project-owns projects r changed root in inl (r, m, o, ground arith)
    | inr other ↦ owner (ground arith)
  ]
]
  where
    owner :
        attribute projects opts changed ≡ by_owner projects opts changed
        → ((p : ProjectInfo) × In p projects
            × (owns p changed ≡ true)
            × (attribute projects opts changed ≡ attributed p.name))
          ⊎ (((q : ProjectInfo) → In q projects → owns q changed ≡ false)
              × (attribute projects opts changed ≡ unowned opts))
    owner e = elim (Option-cases (find_owner projects changed)) [
      | inl no_owner ↦
          inr (find_owner-eq-none projects changed no_owner, rw e (rw (no_owner, by_owner) refl))
      | inr (p, found) ↦
          let own = find_owner-IsOwner projects changed p found in
          inl (p, own.listed, own.holds, rw e (rw (found, by_owner) refl))
    ]

note_path-flags :
    (s : Scan) (v : Verdict)
    → ((note_path s v).run_everything ≡ (s.run_everything || is_escalation v))
      × ((note_path s v).escalated_blunt ≡ (s.escalated_blunt || is_blunt v))
unfolding note_path
note_path-flags s refinable_escalation = ground arith
note_path-flags s blunt_escalation = ground arith
note_path-flags s dropped = ground arith
note_path-flags s (attributed name) = ground arith

pub scan_paths-flags :
    (projects : List ProjectInfo) (opts : Options) (s : Scan) (ps : List Text)
    → ((scan_paths projects opts s ps).run_everything
        ≡ (s.run_everything || any (λ p. is_escalation (classify projects opts p)) ps))
      × ((scan_paths projects opts s ps).escalated_blunt
          ≡ (s.escalated_blunt || any (λ p. is_blunt (classify projects opts p)) ps))
unfolding scan_paths any
scan_paths-flags projects opts s [] = ground arith
scan_paths-flags projects opts s (p ∷ ps) =
    let v = classify projects opts p in
    ground (arith, note_path-flags s v, scan_paths-flags projects opts (note_path s v) ps)

-- A path escalates bluntly by a pattern that is not refinable, or for want of an owner.
abbrev pub Blunt : List ProjectInfo → Options → Text → Type 0
Blunt projects opts changed =
    (((match_ordered_which opts.root_invalidation_patterns changed).1 ≡ true)
      × (mem (match_ordered_which opts.root_invalidation_patterns changed).0 opts.refinable_patterns
          ≡ false))
    ⊎ (Unscoped projects opts changed
        × ((match_ordered_which opts.root_invalidation_patterns changed).1 ≡ true
            → opts.refinable_handled ≡ true))

unowned-conservative :
    (opts : Options) → is_escalation (unowned opts) ≡ true → opts.strictness ≡ conservative
unfolding unowned is_conservative
unowned-conservative opts h = ground arith

unowned-blunt : (opts : Options) → opts.strictness ≡ conservative → unowned opts ≡ blunt_escalation
unfolding unowned is_conservative
unowned-blunt opts h = ground arith

pub classify-Escalates :
    (projects : List ProjectInfo) (opts : Options) (changed : Text)
    → is_escalation (classify projects opts changed) ≡ true
    → Escalates projects opts changed
unfolding classify
classify-Escalates projects opts changed h =
    elim (Bool-cases (match_ordered_which opts.root_invalidation_patterns changed).1) [
      | inr no_match ↦ unscoped (ground arith)
      | inl m ↦
          elim (Bool-cases (
            mem (match_ordered_which opts.root_invalidation_patterns changed).0
              opts.refinable_patterns
            && opts.refinable_handled)) [
              | inr unhandled ↦ inl (m, unhandled)
              | inl handled ↦ unscoped (ground arith)
            ]
    ]
  where
    unscoped :
        classify projects opts changed ≡ attribute projects opts changed
        → Escalates projects opts changed
    unscoped e = elim (attribute_cases projects opts changed) [
      | inl (p, m, o, a) ↦ ground arith
      | inr (none_own, a) ↦ inr (unowned-conservative opts (ground arith), none_own)
    ]

pub classify_quiet :
    (projects : List ProjectInfo) (opts : Options) (changed : Text)
    → is_escalation (classify projects opts changed) ≡ false
    → classify projects opts changed ≡ attribute projects opts changed
unfolding classify
classify_quiet projects opts changed h = ground arith

Unscoped-attribute :
    (projects : List ProjectInfo) (opts : Options) (changed : Text)
    → Unscoped projects opts changed
    → attribute projects opts changed ≡ blunt_escalation
Unscoped-attribute projects opts changed (strict, none_own) =
    elim (attribute_cases projects opts changed) [
      | inl (p, m, o, a) ↦ ground (arith, none_own p m)
      | inr (_, a) ↦ a ∙ unowned-blunt opts strict
    ]

pub Escalates-classify :
    (projects : List ProjectInfo) (opts : Options) (changed : Text)
    → Escalates projects opts changed
    → is_escalation (classify projects opts changed) ≡ true
unfolding classify
Escalates-classify projects opts changed (inl (m, unhandled)) = ground arith
Escalates-classify projects opts changed (inr u) =
    ground (arith, Unscoped-attribute projects opts changed u)

pub Blunt-classify :
    (projects : List ProjectInfo) (opts : Options) (changed : Text)
    → Blunt projects opts changed
    → is_blunt (classify projects opts changed) ≡ true
unfolding classify
Blunt-classify projects opts changed (inl (m, plain)) = ground arith
Blunt-classify projects opts changed (inr (u, handled)) =
    ground (arith, Unscoped-attribute projects opts changed u, handled)
