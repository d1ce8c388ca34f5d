-- ===== src/Receive/Funnel/Accepts.antt =====
-- Which pushes the funnel accepts.
use runko.Prelude.{
  ◌≡◌, refl, ap, ◌≢◌, ◌↔◌, inl, inr, Bool, true, Option, none, some, List, [], ◌∷◌, ◌++◌, arith,
  Bool-cases, Option-cases, is_empty, is_empty_iff, Text,
}
use runko.Contract.{File, check}
use runko.Receive.Policy.{PolicyViolation, evaluate_policy, split_ackable}
use runko.Receive.Policy.Hard.{Unrefused, evaluate_policy-hard}
use runko.Receive.MagicRef.{
  magic_ref_prefix, parse_magic_ref, is_direct_trunk_push, parse_magic_ref_iff,
  is_direct_trunk_push-not-magic,
}
use runko.Receive.Funnel.{
  SecretFinding, PushRequest, summary_of, agent_violations, decide_contract, decide_scan,
  decide_policy, decide,
}

module _ (scan : List File → Option (List SecretFinding)) (imports_of : File → Option (List Text))
    (sha1_hex : Text → Text) where
  -- What a push has to meet.
  abbrev pub Admissible : PushRequest → Type 0
  Admissible req =
      ((trunk : Text) × (req.ref ≡ magic_ref_prefix ++ trunk) × (trunk ≢ []))
      × (req.principal.is_agent ≡ true → Unrefused req.principal.policy (summary_of req))
      × (scan req.files ≡ some [])
      × (req.projects ≢ []
          → check imports_of req.module_path req.projects req.files req.changed_paths ≡ [])

  hard-Unrefused :
      (req : PushRequest)
      → (is_empty (agent_violations req).0 ≡ true)
        ↔ (req.principal.is_agent ≡ true → Unrefused req.principal.policy (summary_of req))
  unfolding agent_violations
  hard-Unrefused req = elim (Bool-cases req.principal.is_agent) [
    | inl a ↦
        let (to, from) = evaluate_policy-hard req.principal.policy (summary_of req) in
        let (gone, empty) =
          is_empty_iff (split_ackable (evaluate_policy req.principal.policy (summary_of req))).0 in
        rw (a, agent_violations) (λ h _. to (gone h), λ u. empty (from (u refl)))
    | inr a ↦ rw (a, agent_violations) (λ h e. ground arith, λ u. refl)
  ]

  contract-accepts :
      (req : PushRequest) (ackable : List PolicyViolation)
      → ((decide_contract scan imports_of sha1_hex req ackable).accepted ≡ true) ↔ (
          req.projects ≢ []
          → check imports_of req.module_path req.projects req.files req.changed_paths ≡ [])
  unfolding decide_contract
  contract-accepts req ackable =
      let violations = check imports_of req.module_path req.projects req.files req.changed_paths in
      let (gone, empty) = is_empty_iff violations in
      let (bare, none_given) = is_empty_iff req.projects in
      (
        λ h n. elim (Bool-cases (is_empty req.projects)) [
          | inl b ↦ absurd (n (bare b))
          | inr b ↦ gone (ground arith)
        ],
        λ c. elim (Bool-cases (is_empty req.projects)) [
          | inl b ↦ rw (b, decide_contract) refl
          | inr b ↦
              let k = empty (c λ e. ground (arith, none_given e)) in rw (b, k, decide_contract) refl
        ],
      )

  not_nil : {f : SecretFinding} {fs : List SecretFinding} → some (f ∷ fs) ≢ some []
  not_nil e = let k = ap flat e in ground arith
    where
      flat : Option (List SecretFinding) → Bool
      flat none = true
      flat (some xs) = is_empty xs

  scan-accepts :
      (req : PushRequest) (ackable : List PolicyViolation) (found : Option (List SecretFinding))
      → ((decide_scan scan imports_of sha1_hex req ackable found).accepted ≡ true) ↔ (
          (found ≡ some [])
          × ((decide_contract scan imports_of sha1_hex req ackable).accepted ≡ true))
  unfolding decide_scan
  scan-accepts req ackable none = (λ h. ground arith, λ (e, _). ground arith)
  scan-accepts req ackable (some []) = (λ h. (refl, h), λ (_, h). h)
  scan-accepts req ackable (some (f ∷ fs)) = (λ h. ground arith, λ (e, _). absurd (not_nil e))

  policy-accepts :
      (req : PushRequest)
      → ((decide_policy scan imports_of sha1_hex req (agent_violations req)).accepted ≡ true) ↔ (
          (req.principal.is_agent ≡ true → Unrefused req.principal.policy (summary_of req))
          × (scan req.files ≡ some [])
          × (req.projects ≢ []
              → check imports_of req.module_path req.projects req.files req.changed_paths ≡ []))
  unfolding decide_policy
  policy-accepts req =
      let (to, from) = hard-Unrefused req in
      let (scanned, scans) = scan-accepts req (agent_violations req).1 (scan req.files) in
      let (checked, checks) = contract-accepts req (agent_violations req).1 in
      (
        λ h. elim (Bool-cases (is_empty (agent_violations req).0)) [
          | inl b ↦ let (s, k) = scanned (rw (b, decide_policy) at h) in (to b, s, checked k)
          | inr b ↦ ground arith
        ],
        λ (u, s, c). let b = from u in rw (b, decide_policy) (scans (s, checks c)),
      )

  -- The funnel accepts a push exactly if it targets a magic ref with a trunk name, no structural part
  -- of the agent policy refuses it, the scan succeeds and finds nothing, and the contract checks find
  -- nothing where projects are given. A direct push to the trunk, or a failed scan, is never accepted.
  pub decide-accepted :
      (req : PushRequest) → ((decide scan imports_of sha1_hex req).accepted ≡ true) ↔ Admissible req
  unfolding decide
  decide-accepted req = (sound, complete)
    where
      sound : (decide scan imports_of sha1_hex req).accepted ≡ true → Admissible req
      sound h = elim (Bool-cases (is_direct_trunk_push req.ref req.trunk_ref)) [
        | inl d ↦ ground arith
        | inr d ↦ elim (Option-cases (parse_magic_ref req.ref)) [
          | inl p ↦ ground arith
          | inr (trunk, p) ↦
              let (u, s, c) = (policy-accepts req).0 (rw (d, p, decide) at h) in
              let (e, n) = (parse_magic_ref_iff req.ref trunk).0 p in ((trunk, e, n), u, s, c)
        ]
      ]

      complete : Admissible req → (decide scan imports_of sha1_hex req).accepted ≡ true
      complete ((trunk, e, n), u, s, c) =
          let p = (parse_magic_ref_iff req.ref trunk).1 (e, n) in
          elim (Bool-cases (is_direct_trunk_push req.ref req.trunk_ref)) [
            | inl d ↦ ground (arith, is_direct_trunk_push-not-magic req.ref req.trunk_ref d)
            | inr d ↦ rw (d, p, decide) ((policy-accepts req).1 (u, s, c))
          ]
