-- ===== src/Land/Attempt/Safety.antt =====
-- What a land puts on the trunk, and when it leaves the trunk alone.
use runko.Prelude.{◌≡◌, refl, ◌⊎◌, inl, inr, true, false, Option, some, arith, Text, Bool-cases}
use runko.Land.Attempt.{
  Git, Request, Outcome, zero_outcome, Plan, failure, stop, advance, plan, ref_matches, finish,
  land,
}
use runko.Land.Attempt.Planned.{
  FastForward, Rebased, IsRef, is_quiet, plan-inv, ref_matches-eq, is_quiet-plan,
}

module _ (git : Git) (sha256_hex : Text → Text) (r : Request) where
  -- What a land leaves: success moves the observed trunk to the commit, all else leaves the trunk.
  pub land_cases :
      (observed now : Option Text)
      → IsRef observed
      → IsRef now
      → ((n : Text) × (now ≡ observed)
          × (land git sha256_hex r observed now
              ≡ (some (record zero_outcome { landed = true; landed_sha = n }), some n))
          × (FastForward git r now n ⊎ Rebased git sha256_hex r now n))
        ⊎ (((land git sha256_hex r observed now).1 ≡ now)
            × ((o : Outcome) → (land git sha256_hex r observed now).0 ≡ some o → o.landed ≡ false))
  unfolding land finish
  land_cases observed now a b = from (plan git sha256_hex r observed) refl
    where
      from :
          (p : Plan)
          → plan git sha256_hex r observed ≡ p
          → ((n : Text) × (now ≡ observed)
              × (finish now (plan git sha256_hex r observed)
                  ≡ (some (record zero_outcome { landed = true; landed_sha = n }), some n))
              × (FastForward git r now n ⊎ Rebased git sha256_hex r now n))
            ⊎ (((finish now (plan git sha256_hex r observed)).1 ≡ now)
                × ((o : Outcome)
                    → (finish now (plan git sha256_hex r observed)).0 ≡ some o
                    → o.landed ≡ false))
      from failure e = rw e (inr (refl, λ o k. ground arith))
      from (stop o') e =
          let quiet : is_quiet (stop o') ≡ true =
            rw e at (is_quiet-plan git sha256_hex r observed) in
          rw e (inr (refl, λ o k. ground arith))
      from (advance x n) e = elim (Bool-cases (ref_matches now x)) [
        | inr lost ↦ rw e (inr (ground arith, λ o k. ground arith))
        | inl won ↦
            let (ex, built) = plan-inv git sha256_hex r observed x n e in
            let same : now ≡ observed = ref_matches-eq observed now a b (rw (← ex) won) in
            rw e (inl (n, same, ground arith, rw same built))
      ]

  -- A land that reports success found the trunk as it had read it, moved it to the commit it
  -- reports, and that commit holds the change: its own tree on an unmoved trunk, else the clean
  -- merge over the change's base on the tip, where the revalidation policy allows it.
  pub land-landed :
      (observed now : Option Text) (o : Outcome)
      → IsRef observed
      → IsRef now
      → (land git sha256_hex r observed now).0 ≡ some o
      → o.landed ≡ true
      → (now ≡ observed)
        × ((land git sha256_hex r observed now).1 ≡ some o.landed_sha)
        × (FastForward git r now o.landed_sha ⊎ Rebased git sha256_hex r now o.landed_sha)
  land-landed observed now o a b h l = elim (land_cases observed now a b) [
    | inr (_, unlanded) ↦ ground (arith, unlanded o h)
    | inl (n, same, e, built) ↦
        let sha : o.landed_sha ≡ n = ground arith in (same, ground arith, rw sha built)
  ]

  -- A land that fails, or that reports no success, leaves the trunk as it is.
  pub land-unlanded :
      (observed now : Option Text)
      → IsRef observed
      → IsRef now
      → ((o : Outcome) → (land git sha256_hex r observed now).0 ≡ some o → o.landed ≡ false)
      → (land git sha256_hex r observed now).1 ≡ now
  land-unlanded observed now a b unlanded = elim (land_cases observed now a b) [
    | inr (kept, _) ↦ kept
    | inl (n, same, e, built) ↦
        ground (arith, unlanded (record zero_outcome { landed = true; landed_sha = n }))
  ]
