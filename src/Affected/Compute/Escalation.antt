-- ===== src/Affected/Compute/Escalation.antt =====
-- When Compute answers run_everything, and when it calls the escalation refinable.
use runko.Prelude.{
  ◌≡◌, ◌∙◌, ◌↔◌, true, List, arith, Text, mem, Some, any_iff, dedup_sorted, mem-dedup_sorted,
}
use runko.Affected.Types.{ProjectInfo, Options}
use runko.Affected.Compute.{classify, fresh, compute, compute_sorted}
use runko.Affected.Compute.Verdicts.{
  Escalates, is_escalation, is_blunt, scan_paths-flags, Blunt, classify-Escalates,
  Escalates-classify, Blunt-classify,
}

module _ (sha256_hex : Text → Text) (projects : List ProjectInfo) (changed : List Text)
    (opts : Options) where
  -- run_everything is answered exactly if some changed path escalates: a root-invalidation pattern
  -- decides it and no snapshot diff stands in, or it is unowned under conservative strictness.
  pub compute-run_everything :
      ((compute sha256_hex projects changed opts).run_everything ≡ true)
      ↔ Some (Escalates projects opts) changed
  unfolding compute compute_sorted
  compute-run_everything = (sound, complete)
    where
      sound :
          (compute sha256_hex projects changed opts).run_everything ≡ true
          → Some (Escalates projects opts) changed
      sound h =
          let (p, m, e) =
            (any_iff (λ p. is_escalation (classify projects opts p)) (dedup_sorted changed)).0
              (ground (arith, scan_paths-flags projects opts fresh (dedup_sorted changed))) in
          (p, ground (arith, mem-dedup_sorted changed p), classify-Escalates projects opts p e)

      complete :
          Some (Escalates projects opts) changed
          → (compute sha256_hex projects changed opts).run_everything ≡ true
      complete (p, m, e) =
          let found =
            (any_iff (λ p. is_escalation (classify projects opts p)) (dedup_sorted changed)).1
              (p, mem-dedup_sorted changed p ∙ m, Escalates-classify projects opts p e) in
          ground (arith, found, scan_paths-flags projects opts fresh (dedup_sorted changed))

  -- Where the escalation is called refinable, it is one, and no changed path escalates bluntly.
  pub compute-refinable_only :
      (compute sha256_hex projects changed opts).escalation_refinable_only ≡ true
      → ((compute sha256_hex projects changed opts).run_everything ≡ true)
        × ((p : Text) → mem p changed ≡ true → ¬ Blunt projects opts p)
  unfolding compute compute_sorted
  compute-refinable_only h = (ground arith, no_blunt)
    where
      no_blunt : (p : Text) → mem p changed ≡ true → ¬ Blunt projects opts p
      no_blunt p m b =
          let found =
            (any_iff (λ p. is_blunt (classify projects opts p)) (dedup_sorted changed)).1
              (p, mem-dedup_sorted changed p ∙ m, Blunt-classify projects opts p b) in
          ground (arith, found, scan_paths-flags projects opts fresh (dedup_sorted changed))
