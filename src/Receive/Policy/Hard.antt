-- ===== src/Receive/Policy/Hard.antt =====
-- Which findings refuse a push: exactly those on affinity and on land requests.
use runko.Prelude.{
  ◌≡◌, refl, ◌≢◌, ◌↔◌, inl, inr, Bool, true, false, not, ◌&&◌, List, [], ◌∷◌, ◌++◌, arith,
  Bool-cases, Option-cases, is_empty, is_empty_iff, all, Text, text_eq, text_eq_iff, mem,
  if◌then◌else◌, ◌||◌,
}
use runko.Receive.Policy.{
  AgentPolicy, PushSummary, Code, PolicyViolation, path_outside_affinity, hard_violation,
  ackable_violation, within_affinity, match_any, when, outside_affinity, denylisted,
  denied_capabilities, evaluate_policy, split_ackable,
}

-- Nothing refuses the push.
lenient : List PolicyViolation → Bool
unfolding split_ackable
lenient vs = is_empty (split_ackable vs).0

lenient-append : (vs ws : List PolicyViolation) → lenient (vs ++ ws) ≡ (lenient vs && lenient ws)
unfolding lenient split_ackable
lenient-append [] ws = refl
lenient-append (v ∷ vs) ws = elim (Bool-cases v.ackable) [
  | inl e ↦ rw e (lenient-append vs ws)
  | inr e ↦ rw e refl
]

lenient-ackable : (b : Bool) (c : Code) → lenient (when b (ackable_violation c)) ≡ true
unfolding lenient split_ackable
lenient-ackable true c = refl
lenient-ackable false c = refl

lenient-hard : (b : Bool) (c : Code) → lenient (when b (hard_violation c)) ≡ not b
unfolding lenient split_ackable
lenient-hard true c = refl
lenient-hard false c = refl

lenient-denylisted : (patterns fs : List Text) → lenient (denylisted patterns fs) ≡ true
unfolding lenient denylisted split_ackable
lenient-denylisted patterns [] = refl
lenient-denylisted patterns (f ∷ fs) = elim (Option-cases (match_any patterns f)) [
  | inl e ↦ rw e (lenient-denylisted patterns fs)
  | inr (p, e) ↦ rw e (lenient-denylisted patterns fs)
]

lenient-denied_capabilities :
    (allowed cs : List Text) → lenient (denied_capabilities allowed cs) ≡ true
unfolding lenient denied_capabilities split_ackable
lenient-denied_capabilities allowed [] = refl
lenient-denied_capabilities allowed (c ∷ cs) = ground (
  arith,
  lenient-append (when (not (mem c allowed)) (ackable_violation (Code.capability_denied c)))
      (denied_capabilities allowed cs),
  lenient-ackable (not (mem c allowed)) (Code.capability_denied c),
  lenient-denied_capabilities allowed cs,
)

lenient-outside_affinity :
    (affinity fs : List Text)
    → lenient (outside_affinity affinity fs) ≡ all (λ f. within_affinity f affinity) fs
unfolding lenient outside_affinity all split_ackable
lenient-outside_affinity affinity [] = refl
lenient-outside_affinity affinity (f ∷ fs) = ground (
  arith,
  lenient-append
      (when (not (within_affinity f affinity)) (hard_violation (path_outside_affinity f)))
      (outside_affinity affinity fs),
  lenient-hard (not (within_affinity f affinity)) (path_outside_affinity f),
  lenient-outside_affinity affinity fs,
)

-- A push within the affinity that the policy asks for, which requests no land it may not do.
abbrev pub Unrefused : AgentPolicy → PushSummary → Type 0
Unrefused p s =
    (p.require_workspace_affinity ≡ true → s.workspace_affinity ≢ [])
    × (s.workspace_affinity ≢ []
        → (f : Text) → mem f s.changed_files ≡ true
        → within_affinity f s.workspace_affinity ≡ true)
    × (s.is_land_request ≡ true → p.can_land_changes ≡ true)

all-mem :
    (f : Text → Bool) (xs : List Text)
    → (all f xs ≡ true) ↔ ((x : Text) → mem x xs ≡ true → f x ≡ true)
unfolding all mem
all-mem f [] = (λ h x m. ground arith, λ h. refl)
all-mem f (y ∷ ys) =
    let (to, from) = all-mem f ys in
    (
      λ h x m. elim (Bool-cases (text_eq y x)) [
        | inl e ↦ rw (← (text_eq_iff y x).0 e) (ground arith)
        | inr e ↦ to (ground arith) x (ground arith)
      ],
      λ h.
          let here : f y ≡ true = h y (ground (arith, text_eq_iff y y)) in
          let there = from (λ x m. h x (ground arith)) in ground arith,
    )

skip_ackable :
    (b : Bool) (c : Code) (vs : List PolicyViolation)
    → lenient (when b (ackable_violation c) ++ vs) ≡ lenient vs
unfolding lenient split_ackable
skip_ackable true c vs = refl
skip_ackable false c vs = refl

guard_hard :
    (b : Bool) (c : Code) (vs : List PolicyViolation)
    → lenient (when b (hard_violation c) ++ vs) ≡ (not b && lenient vs)
unfolding lenient split_ackable
guard_hard true c vs = refl
guard_hard false c vs = refl

skip_denylisted :
    (patterns fs : List Text) (vs : List PolicyViolation)
    → lenient (denylisted patterns fs ++ vs) ≡ lenient vs
skip_denylisted patterns fs vs =
    ground (arith, lenient-append (denylisted patterns fs) vs, lenient-denylisted patterns fs)

guard_affinity :
    (affinity fs : List Text) (vs : List PolicyViolation)
    → lenient ((if is_empty affinity then [] else outside_affinity affinity fs) ++ vs)
      ≡ ((is_empty affinity || all (λ f. within_affinity f affinity) fs) && lenient vs)
guard_affinity [] fs vs = refl
guard_affinity (a ∷ rest) fs vs = ground (
  arith,
  lenient-append (outside_affinity (a ∷ rest) fs) vs,
  lenient-outside_affinity (a ∷ rest) fs,
)

ruleset lenient_rules =
    (guard_hard, skip_ackable, guard_affinity, skip_denylisted, lenient-denied_capabilities)

-- The hard findings are none exactly if the three structural guards give none.
lenient-evaluate_policy :
    (p : AgentPolicy) (s : PushSummary)
    → lenient (evaluate_policy p s) ≡ (
        not (p.require_workspace_affinity && is_empty s.workspace_affinity)
        && ((is_empty s.workspace_affinity
              || all (λ f. within_affinity f s.workspace_affinity) s.changed_files)
            && (not (s.is_land_request && not p.can_land_changes) && true)))
unfolding evaluate_policy
lenient-evaluate_policy p s = simp lenient_rules

-- Under an agent policy, what refuses a push is exactly this: no affinity where the policy asks for
-- one, a changed path outside the affinity, or a land request that the policy denies. The size
-- caps, the denylist, the owners, project, self-grant and capability findings never refuse it.
pub evaluate_policy-hard :
    (p : AgentPolicy) (s : PushSummary)
    → ((split_ackable (evaluate_policy p s)).0 ≡ []) ↔ Unrefused p s
unfolding lenient
evaluate_policy-hard p s =
    let (every, each) = all-mem (λ f. within_affinity f s.workspace_affinity) s.changed_files in
    let same = lenient-evaluate_policy p s in
    let (gone, empty) = is_empty_iff (split_ackable (evaluate_policy p s)).0 in
    let (bare, none_set) = is_empty_iff s.workspace_affinity in
    (
      λ h.
          let k = empty h in
          (
            λ r e. let b = none_set e in ground arith,
            λ n f m. elim (Bool-cases (is_empty s.workspace_affinity)) [
              | inl b ↦ absurd (n (bare b))
              | inr b ↦ every (ground arith) f m
            ],
            λ l. ground arith,
          ),
      λ (required, inside, landing). elim (Bool-cases (is_empty s.workspace_affinity)) [
        | inl b ↦
            let r : p.require_workspace_affinity ≡ false =
              elim (Bool-cases p.require_workspace_affinity) [
                | inl r ↦ absurd (required r (bare b))
                | inr r ↦ r
              ] in
            gone (ground arith)
        | inr b ↦ let a = each (inside λ e. ground (arith, none_set e)) in gone (ground arith)
      ],
    )
