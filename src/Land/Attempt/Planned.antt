-- ===== src/Land/Attempt/Planned.antt =====
-- Which commit a plan of a land advances the trunk to, and that a plan alone reports no land.
use runko.Prelude.{
  ◌≡◌, refl, sym, ap, ◌≢◌, ◌⊎◌, inl, inr, Bool, true, false, not, Option, none, some, List, [],
  arith, Text, text_eq, text_eq_iff, Bool-cases, Option-cases,
}
use runko.Affected.Compute.{compute}
use runko.Land.Revalidation.{needs_revalidation, needs_trunk_delta}
use runko.Land.Rebase.{RebaseResult, clean, conflicting, rebase}
use runko.Land.Attempt.{
  Git, Request, zero_oid, Plan, failure, stop, advance, tip_text, expected_text, advance_to,
  plan_fast_forward, plan_merged, plan_rebase, plan_moved, plan, ref_matches,
}

-- What the change becomes on a trunk that is still its base: its own tree, committed again.
abbrev pub FastForward : Git → Request → Option Text → Text → Type 0
FastForward git r trunk commit =
    (tip_text trunk ≡ r.old_base)
    × ((tree : Text) × (git.tree_of r.change_head ≡ some tree)
        × (git.commit_tree tree (tip_text trunk) ≡ some commit))

-- The revalidation policy lets the change land on the tip without new checks.
abbrev pub Permitted : Git → (Text → Text) → Request → Text → Type 0
Permitted git sha256_hex r tip =
    needs_trunk_delta r.scope ≡ true
    → (paths : List Text) × (git.diff_paths r.old_base tip ≡ some paths)
      × (needs_revalidation r.scope r.change_affected
            (compute sha256_hex r.projects paths r.affected_opts)
          ≡ false)

-- What it becomes on a trunk that moved: the clean merge over its base, committed on the tip.
abbrev pub Rebased : Git → (Text → Text) → Request → Option Text → Text → Type 0
Rebased git sha256_hex r trunk commit =
    (tip : Text) × (trunk ≡ some tip)
    × (tip ≢ r.old_base)
    × Permitted git sha256_hex r tip
    × ((tree : Text) × (rebase (git.merge_tree r.old_base tip r.change_head).0
            (git.merge_tree r.old_base tip r.change_head).1
          ≡ some (clean tree))
        × (git.commit_tree tree tip ≡ some commit))

-- A ref that points somewhere points at no all-zero object id.
abbrev pub IsRef : Option Text → Type 0
IsRef trunk = (tip : Text) → trunk ≡ some tip → tip ≢ zero_oid

advance_to-inv :
    (e e' n : Text) (o : Option Text) → advance_to e o ≡ advance e' n → (e ≡ e') × (o ≡ some n)
unfolding advance_to
advance_to-inv e e' n none h = ground arith
advance_to-inv e e' n (some c) h = ground arith

pub ref_matches-eq :
    (trunk now : Option Text)
    → IsRef trunk
    → IsRef now
    → ref_matches now (expected_text trunk) ≡ true
    → now ≡ trunk
unfolding ref_matches
ref_matches-eq none none a b h = refl
ref_matches-eq none (some tip) a b h = absurd (b tip refl ((text_eq_iff tip zero_oid).0 h))
ref_matches-eq (some tip) none a b h = absurd (
    a tip refl (
      sym (
        (text_eq_iff zero_oid tip).0
          (ground (arith, text_eq_iff tip zero_oid, text_eq_iff zero_oid tip)))))
ref_matches-eq (some tip) (some tip') a b h = ap some ((text_eq_iff tip' tip).0 h)

-- Only the ref update reports a land.
abbrev pub is_quiet : Plan → Bool
is_quiet failure = true
is_quiet (stop o) = not o.landed
is_quiet (advance e n) = true

is_quiet-advance_to : (e : Text) (c : Option Text) → is_quiet (advance_to e c) ≡ true
unfolding advance_to
is_quiet-advance_to e none = refl
is_quiet-advance_to e (some c) = refl

module _ (git : Git) (sha256_hex : Text → Text) (r : Request) where
  plan_fast_forward-inv :
      (trunk : Option Text) (e n : Text)
      → plan_fast_forward git r trunk ≡ advance e n
      → (e ≡ expected_text trunk)
        × ((tree : Text) × (git.tree_of r.change_head ≡ some tree)
            × (git.commit_tree tree (tip_text trunk) ≡ some n))
  unfolding plan_fast_forward
  plan_fast_forward-inv trunk e n h = elim (Option-cases (git.tree_of r.change_head)) [
    | inl e' ↦ ground arith
    | inr (tree, e') ↦
        let (same, c) =
          advance_to-inv (expected_text trunk) e n (git.commit_tree tree (tip_text trunk))
            (rw (e', plan_fast_forward) at h) in
        (sym same, (tree, e', c))
  ]

  plan_merged-inv :
      (tip : Text) (m : Option RebaseResult) (e n : Text)
      → plan_merged git tip m ≡ advance e n
      → (e ≡ tip) × ((tree : Text) × (m ≡ some (clean tree)) × (git.commit_tree tree tip ≡ some n))
  unfolding plan_merged
  plan_merged-inv tip none e n h = ground arith
  plan_merged-inv tip (some (conflicting paths)) e n h = ground arith
  plan_merged-inv tip (some (clean tree)) e n h =
      let (same, c) = advance_to-inv tip e n (git.commit_tree tree tip) h in
      (sym same, (tree, refl, c))

  plan_rebase-inv :
      (tip e n : Text)
      → plan_rebase git r tip ≡ advance e n
      → (e ≡ tip)
        × ((tree : Text) × (rebase
                (git.merge_tree r.old_base tip r.change_head).0
                (git.merge_tree r.old_base tip r.change_head).1
              ≡ some (clean tree))
            × (git.commit_tree tree tip ≡ some n))
  unfolding plan_rebase
  plan_rebase-inv tip e n h = plan_merged-inv tip _ e n h

  plan_moved-inv :
      (tip e n : Text)
      → plan_moved git sha256_hex r tip ≡ advance e n
      → (plan_rebase git r tip ≡ advance e n) × Permitted git sha256_hex r tip
  unfolding plan_moved
  plan_moved-inv tip e n h = elim (Bool-cases (needs_trunk_delta r.scope)) [
    | inr skips ↦ (ground arith, λ asks. ground arith)
    | inl asks ↦ elim (Option-cases (git.diff_paths r.old_base tip)) [
      | inl fails ↦ ground arith
      | inr (paths, d) ↦
          elim (Bool-cases (
            needs_revalidation r.scope r.change_affected
              (compute sha256_hex r.projects paths r.affected_opts))) [
                | inl again ↦ ground arith
                | inr fine ↦ (ground arith, λ _. (paths, d, fine))
              ]
    ]
  ]

  pub plan-inv :
      (trunk : Option Text) (e n : Text)
      → plan git sha256_hex r trunk ≡ advance e n
      → (e ≡ expected_text trunk) × (FastForward git r trunk n ⊎ Rebased git sha256_hex r trunk n)
  unfolding plan
  plan-inv none e n h = elim (Bool-cases (text_eq [] r.old_base)) [
    | inr stale ↦ ground arith
    | inl same ↦
        let (x, built) = plan_fast_forward-inv none e n (ground arith) in
        (x, inl ((text_eq_iff [] r.old_base).0 same, built))
  ]
  plan-inv (some tip) e n h = elim (Bool-cases (text_eq tip r.old_base)) [
    | inl same ↦
        let (x, built) = plan_fast_forward-inv (some tip) e n (ground arith) in
        (x, inl ((text_eq_iff tip r.old_base).0 same, built))
    | inr moved ↦
        let (rebases, allowed) = plan_moved-inv tip e n (ground arith) in
        let (x, built) = plan_rebase-inv tip e n rebases in
        (
          x,
          inr (tip, refl, λ eq. ground (arith, (text_eq_iff tip r.old_base).1 eq), allowed, built),
        )
  ]

  is_quiet-plan_fast_forward :
      (trunk : Option Text) → is_quiet (plan_fast_forward git r trunk) ≡ true
  unfolding plan_fast_forward
  is_quiet-plan_fast_forward trunk = elim (Option-cases (git.tree_of r.change_head)) [
    | inl e ↦ ground arith
    | inr (tree, e) ↦
        rw (e, plan_fast_forward)
          (is_quiet-advance_to (expected_text trunk) (git.commit_tree tree (tip_text trunk)))
  ]

  is_quiet-plan_merged :
      (tip : Text) (m : Option RebaseResult) → is_quiet (plan_merged git tip m) ≡ true
  unfolding plan_merged
  is_quiet-plan_merged tip none = refl
  is_quiet-plan_merged tip (some (conflicting paths)) = refl
  is_quiet-plan_merged tip (some (clean tree)) = is_quiet-advance_to tip (git.commit_tree tree tip)

  is_quiet-plan_rebase : (tip : Text) → is_quiet (plan_rebase git r tip) ≡ true
  unfolding plan_rebase
  is_quiet-plan_rebase tip = is_quiet-plan_merged tip _

  pub is_quiet-plan : (trunk : Option Text) → is_quiet (plan git sha256_hex r trunk) ≡ true
  unfolding plan plan_moved
  is_quiet-plan none = ground (arith, is_quiet-plan_fast_forward none)
  is_quiet-plan (some tip) =
      ground (arith, is_quiet-plan_fast_forward (some tip), is_quiet-plan_rebase tip)
