-- ===== src/Daemon/Gate/Open.antt =====
-- When the gate lets a change land.
use runko.Prelude.{
  ℕ, ◌≡◌, refl, sym, subst, ◌≢◌, ◌↔◌, ◌⊎◌, inl, inr, Bool, true, false, not, ◌&&◌, none, some, List,
  [], ◌++◌, map, arith, is_empty, is_empty_iff, is_empty-append, Text, All, Bool-cases,
  Option-cases,
}
use runko.Affected.Types.{Result}
use runko.Checks.Requirements.{MergeRequirements, compute_merge_requirements}
use runko.Checks.Requirements.Gate.{
  AllPass, compute_merge_requirements-mergeable, compute_merge_requirements-required_checks,
  compute_merge_requirements-required_owners,
}
use runko.Index.Types.{IndexedProject}
use runko.Receive.Policy.{AgentPolicy}
use runko.Store.Model.{Change, MemStore}
use runko.Store.Reviews.{list_comments}
use runko.Store.CheckRuns.{list_check_runs}
use runko.Daemon.Config.{Server, require_resolved_threads, agent_policy_for_author}
use runko.Daemon.Repo.{
  Repo, compute_affected, base_on_trunk, parent_landed_on_trunk, change_with_head,
}
use runko.Daemon.Gate.{
  GateBlocker, unpoliced, undescribed, GateView, fully_auto, gate_names, gate_owners, stale_names,
  stacked_blockers, is_unpoliced, is_blank, is_undescribed, open_threads, thread_blockers, flagged,
  added_blockers, aggregation, gate_view, merge_requirements,
}

-- The change's base is on the trunk, or its parent has landed there.
abbrev pub IsBased : Repo → MemStore → Change → Type 0
IsBased repo store change =
    (base_on_trunk repo change.base_sha ≡ true)
    ⊎ (parent_landed_on_trunk repo store change.base_sha ≡ true)

-- Some policy governs the change, or it needs none.
abbrev pub IsPoliced : Server → Repo → Result → List Text → List Text → Type 0
IsPoliced s repo result checks owners =
    (s.allow_unpoliced_land ≡ true)
    ⊎ ((fully_auto none s repo result ≡ true) ⊎ ((checks ≢ []) ⊎ (owners ≢ [])))

-- An agent's change is described where its policy asks for it.
abbrev pub IsDescribed : Server → MemStore → Change → Type 0
IsDescribed s store change =
    (p : AgentPolicy)
    → agent_policy_for_author s store change.authored_by ≡ some p
    → p.require_description ≡ true
    → is_blank change.description ≡ false

-- No review thread is open where the org asks for that.
abbrev pub IsResolved : Server → MemStore → Change → Type 0
IsResolved s store change =
    require_resolved_threads s ≡ true → open_threads (list_comments change.change_key 0 0 store) ≡ 0

stacked_blockers_iff :
    (repo : Repo) (store : MemStore) (change : Change)
    → (is_empty (stacked_blockers repo store change) ≡ true) ↔ IsBased repo store change
unfolding stacked_blockers
stacked_blockers_iff repo store change =
    elim (Option-cases (change_with_head store change.base_sha)) [
      | inl e ↦ (λ h. ground arith, λ h. elim h [ inl a ↦ ground arith | inr a ↦ ground arith ])
      | inr (c, e) ↦
          (λ h. ground arith, λ h. elim h [ inl a ↦ ground arith | inr a ↦ ground arith ])
    ]

is_unpoliced_iff :
    (s : Server) (repo : Repo) (result : Result) (req : MergeRequirements)
    → (is_unpoliced none s repo result req ≡ false)
      ↔ IsPoliced s repo result req.required_checks req.required_owners
unfolding is_unpoliced
is_unpoliced_iff s repo result req =
    let (a, b) = is_empty_iff req.required_checks in
    let (c, d) = is_empty_iff req.required_owners in
    (
      λ h. elim (Bool-cases s.allow_unpoliced_land) [
        | inl e ↦ inl e
        | inr e ↦ elim (Bool-cases (fully_auto none s repo result)) [
          | inl e' ↦ inr (inl e')
          | inr e' ↦ elim (Bool-cases (is_empty req.required_checks)) [
            | inr some_check ↦ inr (inr (inl (λ k. ground (arith, b k))))
            | inl no_check ↦ inr (inr (inr (λ k. ground (arith, d k))))
          ]
        ]
      ],
      λ h. elim h [
        | inl e ↦ ground arith
        | inr k ↦ elim k [
          | inl e ↦ ground arith
          | inr some_policy ↦ elim (Bool-cases (is_empty req.required_checks)) [
            | inr e ↦ ground arith
            | inl e ↦ elim (Bool-cases (is_empty req.required_owners)) [
              | inr e' ↦ ground arith
              | inl e' ↦ elim some_policy [ inl n ↦ absurd (n (a e)) | inr n ↦ absurd (n (c e')) ]
            ]
          ]
        ]
      ],
    )

is_undescribed_iff :
    (s : Server) (store : MemStore) (change : Change)
    → (is_undescribed none s store change ≡ false) ↔ IsDescribed s store change
unfolding is_undescribed
is_undescribed_iff s store change =
    elim (Option-cases (agent_policy_for_author s store change.authored_by)) [
      | inl e ↦ (λ h p k. ground arith, λ h. ground arith)
      | inr (p, e) ↦ (λ h q k r. ground arith, λ h. ground (arith, h p e))
    ]

thread_blockers_iff :
    (s : Server) (store : MemStore) (change : Change)
    → (is_empty (thread_blockers none s (list_comments change.change_key 0 0 store)) ≡ true)
      ↔ IsResolved s store change
unfolding thread_blockers
thread_blockers_iff s store change = (
  λ h r. ground arith,
  λ h. elim (Bool-cases (require_resolved_threads s)) [
    | inl e ↦ ground (arith, h e)
    | inr e ↦ ground arith
  ],
)

is_empty-flagged : (b : Bool) (x : GateBlocker) → is_empty (flagged b x) ≡ not b
unfolding flagged
is_empty-flagged b x = ground arith

flags_iff :
    (a : List GateBlocker) (u v : Bool) (d : List GateBlocker) (x y : GateBlocker)
    → is_empty (a ++ (flagged u x ++ (flagged v y ++ d)))
      ≡ (is_empty a && (not u && (not v && is_empty d)))
flags_iff a u v d x y = simp (is_empty-append, is_empty-flagged)

added_blockers_iff :
    (s : Server) (repo : Repo) (store : MemStore) (change : Change) (result : Result)
    (req : MergeRequirements)
    → (is_empty (added_blockers none s repo store change result req) ≡ true) ↔ (
        IsBased repo store change
        × IsPoliced s repo result req.required_checks req.required_owners
        × IsDescribed s store change
        × IsResolved s store change)
unfolding added_blockers
added_blockers_iff s repo store change result req =
    let (b, b') = stacked_blockers_iff repo store change in
    let (p, p') = is_unpoliced_iff s repo result req in
    let (d, d') = is_undescribed_iff s store change in
    let (t, t') = thread_blockers_iff s store change in
    let parts =
      flags_iff (stacked_blockers repo store change) (is_unpoliced none s repo result req)
        (is_undescribed none s store change)
        (thread_blockers none s (list_comments change.change_key 0 0 store)) unpoliced
        undescribed in
    (
      λ h. (b (ground arith), p (ground arith), d (ground arith), t (ground arith)),
      λ (b1, p1, d1, t1).
          let x = b' b1 in let y = p' p1 in let z = d' d1 in let w = t' t1 in ground arith,
    )

-- For a caller without a lane the gate is open exactly if every required owner has approved or is
-- waived, every check that the gate names has a completed, successful run, none of its runs is
-- stale, the change's base is on the trunk or its parent has landed there, some policy governs the
-- change, an agent's change carries the description that its policy asks for, and no review thread
-- is open where the org wants them resolved.
pub merge_requirements-open :
    (sha256_hex : Text → Text) (s : Server) (repo : Repo) (store : MemStore) (now : ℕ)
    (change : Change) (result : Result) (indexed : List IndexedProject)
    → compute_affected sha256_hex s repo change ≡ some (result, indexed)
    → (g : GateView) × (merge_requirements sha256_hex none s repo store now change ≡ some g)
      × ((g.mergeable ≡ true) ↔ (
          All (λ o. o.satisfied ≡ true) (gate_owners none s repo store change result indexed).0
          × AllPass (list_check_runs change.change_key change.head_sha store) (
              gate_names none s repo result indexed
                (list_check_runs change.change_key change.head_sha store))
          × (stale_names
                (gate_names none s repo result indexed
                  (list_check_runs change.change_key change.head_sha store))
                now
                (list_check_runs change.change_key change.head_sha store)
              ≡ [])
          × IsBased repo store change
          × IsPoliced s repo result
              (gate_names none s repo result indexed
                (list_check_runs change.change_key change.head_sha store))
              (map (λ o. o.owner_ref) (gate_owners none s repo store change result indexed).0)
          × IsDescribed s store change
          × IsResolved s store change))
unfolding merge_requirements gate_view aggregation
merge_requirements-open sha256_hex s repo store now change result indexed e =
    let runs = list_check_runs change.change_key change.head_sha store in
    let names = gate_names none s repo result indexed runs in
    let owners = (gate_owners none s repo store change result indexed).0 in
    let stale = stale_names names now runs in
    let req = compute_merge_requirements change.change_key owners names runs [] stale [] in
    let (holds, close) =
      compute_merge_requirements-mergeable change.change_key owners names runs [] stale [] in
    let (added, added') = added_blockers_iff s repo store change result req in
    let required : req.required_checks ≡ names =
      compute_merge_requirements-required_checks change.change_key owners names runs stale [] in
    let refs : req.required_owners ≡ map (λ o. o.owner_ref) owners =
      compute_merge_requirements-required_owners change.change_key owners names runs [] stale [] in
    (
      gate_view none s repo store now change result indexed,
      rw (e, merge_requirements) refl,
      (
        λ h.
            let (o, n, _, f, _) = holds (ground arith) in
            let (b, p, d, t) = added (ground arith) in
            (
              o,
              n,
              f,
              b,
              subst (λ (z : List Text). IsPoliced s repo result z (map (λ o. o.owner_ref) owners))
                  required
                  (subst (λ (z : List Text). IsPoliced s repo result req.required_checks z) refs p),
              d,
              t,
            ),
        λ (o, n, f, b, p, d, t).
            let x = close (o, n, tt, f, refl) in
            let y = added' (
              b,
              subst (λ (z : List Text). IsPoliced s repo result req.required_checks z) (sym refs)
                  (subst
                    (λ (z : List Text). IsPoliced s repo result z (map (λ o. o.owner_ref) owners))
                    (sym required) p),
              d,
              t,
            ) in
            ground arith,
      ),
    )
