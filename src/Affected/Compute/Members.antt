-- ===== src/Affected/Compute/Members.antt =====
-- Which projects Compute lists, and which of them it marks direct.
use runko.Prelude.{
  ◌≡◌, refl, ap, ◌∙◌, inl, inr, Bool, true, false, some, List, [], ◌∷◌, ◌++◌, arith, Text, mem,
  mem-append, text_eq_iff, In, Some, any_iff, Bool-cases, dedup_sorted, mem-dedup_sorted,
  dedup_sorted_canonical, SameMembers,
}
use runko.Affected.Types.{ProjectInfo, Options, Result, conservative}
use runko.Affected.Owner.{owns}
use runko.Affected.Closure.{close_over_dependents}
use runko.Affected.Closure.Reach.{seed, Reached, walked, close_over_dependents_correct}
use runko.Affected.Compute.{
  attributed, attribute, classify, Scan, fresh, scan_paths, contract_touched, consumers, by_name,
  ref_of, compute, compute_sorted,
}
use runko.Affected.Compute.Verdicts.{
  classify_quiet, is_escalation, classify-Escalates, attribute_cases,
}
use runko.Affected.Compute.Escalation.{compute-run_everything}
use runko.Affected.Compute.Listing.{
  names_it, scan_paths-direct, by_name_found, mem-map, Lists, Reached-mono, IsName, Reached-IsName,
}

module _ (sha256_hex : Text → Text) (projects : List ProjectInfo) (changed : List Text)
    (opts : Options) where
  abbrev result : Result
  result = compute sha256_hex projects changed opts

  abbrev scanned : Scan
  scanned = scan_paths projects opts fresh (dedup_sorted changed)

  abbrev seeds : List Text
  seeds =
      scanned.direct
      ++ consumers projects (contract_touched projects (dedup_sorted changed)) scanned.direct

  ref_of-name : {x : Text} → IsName projects x → (ref_of projects scanned.direct x).name ≡ x
  unfolding ref_of
  ref_of-name {x} (p, m, n) =
      let (q, e, qn, _) = by_name_found projects p m in
      let found : by_name projects x ≡ some q = rw (← n) e in rw (found, ref_of) (qn ∙ n)

  ref_of-direct : (x : Text) → (ref_of projects scanned.direct x).direct ≡ mem x scanned.direct
  unfolding ref_of
  ref_of-direct x = ground arith

  Lists-Reached :
      {x : Text}
      → IsName projects x
      → Reached projects seeds x
      → Lists result x (mem x scanned.direct)
  unfolding compute compute_sorted
  Lists-Reached {x} named r =
      let closed = (close_over_dependents_correct projects seeds x).1 r in
      (
        ref_of projects scanned.direct x,
        mem-map (ref_of projects scanned.direct)
            (dedup_sorted (close_over_dependents projects seeds).0) x
            (mem-dedup_sorted (close_over_dependents projects seeds).0 x ∙ closed),
        ref_of-name named,
        ref_of-direct x,
      )

  scanned-direct :
      (x : Text)
      → Some (λ p. names_it x (classify projects opts p) ≡ true) changed
      → mem x scanned.direct ≡ true
  scanned-direct x (p, m, h) =
      let found =
        (any_iff (λ p. names_it x (classify projects opts p)) (dedup_sorted changed)).1
          (p, mem-dedup_sorted changed p ∙ m, h) in
      ground (arith, found, scan_paths-direct projects opts fresh (dedup_sorted changed) x)

  -- A path that does not escalate takes the attribution steps.
  calm :
      (path : Text)
      → result.run_everything ≡ false
      → mem path changed ≡ true
      → classify projects opts path ≡ attribute projects opts path
  calm path scoped m = elim (Bool-cases (is_escalation (classify projects opts path))) [
    | inr quiet ↦ classify_quiet projects opts path quiet
    | inl loud ↦ ground (
      arith,
      (compute-run_everything sha256_hex projects changed opts).1
          (path, m, classify-Escalates projects opts path loud),
    )
  ]

  -- A project that the loop marked is listed with the mark.
  Lists-direct :
      (p : ProjectInfo)
      → In p projects
      → mem p.name scanned.direct ≡ true
      → Lists result p.name true
  Lists-direct p k direct =
      let seeded : mem p.name seeds ≡ true = ground (
        arith,
        mem-append p.name scanned.direct
            (consumers projects (contract_touched projects (dedup_sorted changed)) scanned.direct),
      ) in
      rw direct at (Lists-Reached (p, k, refl) (walked (seed seeded)))

  -- Without run_everything and under conservative strictness, every changed path lies in a project
  -- that the result lists and marks direct: no change is dropped.
  pub compute_fail_closed :
      (path : Text)
      → opts.strictness ≡ conservative
      → (compute sha256_hex projects changed opts).run_everything ≡ false
      → mem path changed ≡ true
      → (p : ProjectInfo) × In p projects
        × (owns p path ≡ true)
        × Lists (compute sha256_hex projects changed opts) p.name true
  compute_fail_closed path strict scoped m = elim (attribute_cases projects opts path) [
    | inr (none_own, _) ↦ ground (
      arith,
      (compute-run_everything sha256_hex projects changed opts).1 (path, m, inr (strict, none_own)),
    )
    | inl (p, k, o, e) ↦
        let names : names_it p.name (classify projects opts path) ≡ true =
          rw (calm path scoped m ∙ e) ((text_eq_iff p.name p.name).1 refl) in
        (p, k, o, Lists-direct p k (scanned-direct p.name (path, m, names)))
  ]

  -- A changed path that is attributed to a project brings in every project that the declared edges
  -- reach from there, at any distance.
  pub compute_covers_dependents :
      (path : Text) (p : ProjectInfo) (x : Text)
      → mem path changed ≡ true
      → In p projects
      → classify projects opts path ≡ attributed p.name
      → Reached projects (p.name ∷ []) x
      → (direct : Bool) × Lists (compute sha256_hex projects changed opts) x direct
  unfolding mem
  compute_covers_dependents path p x m k e r =
      let names : names_it p.name (classify projects opts path) ≡ true =
        rw e ((text_eq_iff p.name p.name).1 refl) in
      let direct = scanned-direct p.name (path, m, names) in
      (
        mem x scanned.direct,
        Lists-Reached (Reached-IsName projects p k r) (
            Reached-mono projects
              (λ z h. ground (
                arith,
                mem-append z scanned.direct (
                    consumers projects (contract_touched projects (dedup_sorted changed))
                      scanned.direct),
                direct,
                text_eq_iff p.name z,
                ap (λ (t : Text). mem t scanned.direct) ((text_eq_iff p.name z).0 (ground arith)),
              ))
              r),
      )

-- The result depends on the set of changed paths alone, not on their order or on repetitions.
pub compute_canonical :
    (sha256_hex : Text → Text) (projects : List ProjectInfo) (xs ys : List Text) (opts : Options)
    → SameMembers xs ys
    → compute sha256_hex projects xs opts ≡ compute sha256_hex projects ys opts
unfolding compute
compute_canonical sha256_hex projects xs ys opts s = rw (dedup_sorted_canonical xs ys s)
