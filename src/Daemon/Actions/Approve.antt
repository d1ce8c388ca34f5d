-- ===== src/Daemon/Actions/Approve.antt =====
-- What an approval has passed, and what it records.
use runko.Prelude.{
  ℕ, ◌≡◌, refl, sym, ap, ◌∙◌, ◌≢◌, ◌⊎◌, inl, inr, true, false, not, ◌&&◌, ◌||◌, Option, none, some,
  List, [], arith, is_empty, is_empty_iff, Bool-cases, Option-cases, Text, text_eq, text_eq_iff,
  mem, lookup,
}
use runko.Store.Model.{ChangeState, opened, landed, abandoned, Change, MemStore, done, at_key}
use runko.Store.Listings.{same_state}
use runko.Store.Reviews.{record_approval}
use runko.Store.Reviews.Pages.{record_approval_cases, record_approval-approvals}
use runko.Daemon.Config.{Principal, BotLane, Server}
use runko.Daemon.Repo.{Repo}
use runko.Daemon.Gate.{merge_requirements}
use runko.Daemon.Land.{ApiError, agent_denied, name_mismatch, Decision, refused, decided}
use runko.Daemon.Actions.{
  require_open_change, acting_as, refreshed, owner_refs, approve_as, approve_by,
  approve_change_core,
}

-- Who acts: somebody whom a request of nobody in particular names, or a principal that is no agent.
abbrev pub Acts : Option Principal → Text → Text → Type 0
Acts principal named by =
    ((principal ≡ none) × (by ≡ named))
    ⊎ ((p : Principal) × (principal ≡ some p) × (p.is_agent ≡ false) × (by ≡ p.name))

pub acting_as-Acts :
    (principal : Option Principal) (named by : Text)
    → acting_as principal named ≡ decided by
    → Acts principal named by
unfolding acting_as
acting_as-Acts none named by h = inl (refl, cc)
acting_as-Acts (some p) named by h = elim (Bool-cases p.is_agent) [
  | inl e ↦
      let q : ◌≡◌ {A = Decision Text} (refused agent_denied) (decided by) =
        rw (e, acting_as) at h in
      absurd (cc)
  | inr e ↦ elim (Bool-cases (not (is_empty named) && not (text_eq named p.name))) [
    | inl f ↦
        let q : ◌≡◌ {A = Decision Text} (refused name_mismatch) (decided by) =
          rw (e, f, acting_as) at h in
        absurd (cc)
    | inr f ↦
        let q : ◌≡◌ {A = Decision Text} (decided p.name) (decided by) = rw (e, f, acting_as) at h in
        inr (p, refl, e, cc)
  ]
]

acting_as_answer :
    (principal : Option Principal) (named : Text) (d : Decision Text)
    → acting_as principal named ≡ d
    → ((e : ApiError) × (acting_as principal named ≡ refused e))
      ⊎ ((by : Text) × (acting_as principal named ≡ decided by) × Acts principal named by)
acting_as_answer principal named (refused e) h = inl (e, h)
acting_as_answer principal named (decided by) h = inr (by, h, acting_as-Acts principal named by h)

pub acting_as_cases :
    (principal : Option Principal) (named : Text)
    → ((e : ApiError) × (acting_as principal named ≡ refused e))
      ⊎ ((by : Text) × (acting_as principal named ≡ decided by) × Acts principal named by)
acting_as_cases principal named = acting_as_answer principal named (acting_as principal named) refl

pub same_state-open : (x : ChangeState) → same_state x opened ≡ true → x ≡ opened
unfolding same_state
same_state-open opened h = refl
same_state-open landed h = ground arith
same_state-open abandoned h = ground arith

-- The call answers with merge requirements.
abbrev pub Decides : {A : Type 0} → Decision A → Type 0
Decides (refused e) = ⊥
Decides (decided a) = Unit

pub refreshed-same :
    (sha256_hex : Text → Text) (s : Server) (repo : Repo) (now : ℕ) (lane : Option BotLane)
    (change : Change) (store : MemStore)
    → (refreshed sha256_hex s repo now lane change store).1 ≡ store
unfolding refreshed
refreshed-same sha256_hex s repo now lane change store =
    elim (Option-cases (merge_requirements sha256_hex lane s repo store now change)) [
      | inl e ↦ rw (e, refreshed) refl
      | inr (g, e) ↦ rw (e, refreshed) refl
    ]

module _ (sha256_hex : Text → Text) (s : Server) (repo : Repo) (now : ℕ) (change : Change)
    (owner_ref : Text) where
  -- The approval is recorded, for an owner of the change and by somebody else than its author.
  abbrev pub Approved : Text → MemStore → MemStore → Type 0
  Approved by store store' =
      (owner_ref ≢ [])
      × (by ≢ [])
      × (by ≢ change.authored_by)
      × ((refs : List Text) × (owner_refs sha256_hex s repo store change ≡ some refs)
          × (mem owner_ref refs ≡ true))
      × (record_approval change.change_key owner_ref by change.head_sha store ≡ done store')

  approve_as_cases :
      (by : Text) (store : MemStore)
      → (((approve_as sha256_hex s repo now change owner_ref by store).1 ≡ store)
          × ¬ Decides (approve_as sha256_hex s repo now change owner_ref by store).0)
        ⊎ Approved by store (approve_as sha256_hex s repo now change owner_ref by store).1
  unfolding approve_as
  approve_as_cases by store = elim (Bool-cases (is_empty owner_ref || is_empty by)) [
    | inl e ↦ rw (e, approve_as) (inl (refl, λ d. d))
    | inr e ↦
        elim (Bool-cases (not (is_empty change.authored_by) && text_eq by change.authored_by)) [
          | inl f ↦ rw (e, f, approve_as) (inl (refl, λ d. d))
          | inr f ↦ elim (Option-cases (owner_refs sha256_hex s repo store change)) [
            | inl g ↦ rw (e, f, g, approve_as) (inl (refl, λ d. d))
            | inr (refs, g) ↦ elim (Bool-cases (mem owner_ref refs)) [
              | inr m ↦ rw (e, f, g, m, approve_as) (inl (refl, λ d. d))
              | inl m ↦
                  elim (record_approval_cases change.change_key owner_ref by change.head_sha
                    store) [
                      | inl r ↦ rw (e, f, g, m, r, approve_as) (inl (refl, λ d. d))
                      | inr (store', r) ↦ inr (
                        λ o. ground (arith, (is_empty_iff owner_ref).1 o),
                        λ o. ground (arith, (is_empty_iff by).1 o),
                        λ o. ground (arith, (text_eq_iff by change.authored_by).1 o, ap is_empty o),
                        (refs, g, m),
                        r
                            ∙ ap (λ (z : MemStore). done z)
                                (rw (e, f, g, m, r, approve_as)
                                  (sym (refreshed-same sha256_hex s repo now none change store'))),
                      )
                    ]
            ]
          ]
        ]
  ]

  -- An approval is either refused, and the store stays as it is, or it passes: the change is open, who
  -- approves is nobody's agent (a named principal only as itself) and not the change's author, the
  -- owner is one of those that the change requires; and then the owner's approval is recorded at the
  -- change's head under that name, which is also the only way to an answer with merge requirements.
  pub approve_change_core_cases :
      (approved_by : Text) (principal : Option Principal) (store : MemStore)
      → (((approve_change_core sha256_hex s repo now change owner_ref approved_by principal store).1
            ≡ store)
          × ¬ Decides
              (approve_change_core sha256_hex s repo now change owner_ref approved_by principal
                store).0)
        ⊎ ((by : Text) × (change.state ≡ opened)
            × Acts principal approved_by by
            × Approved by store
                (approve_change_core sha256_hex s repo now change owner_ref approved_by principal
                  store).1
            × (lookup owner_ref (
                  at_key change.change_key
                    (approve_change_core sha256_hex s repo now change owner_ref approved_by
                      principal store).1.approvals)
                ≡ some (record {
                  owner_ref = owner_ref;
                  approved_by = by;
                  head_sha = change.head_sha;
                })))
  unfolding approve_change_core require_open_change approve_by
  approve_change_core_cases approved_by principal store =
      elim (Bool-cases (same_state change.state opened)) [
        | inr e ↦ rw (e, approve_change_core) (inl (refl, λ d. d))
        | inl e ↦ elim (acting_as_cases principal approved_by) [
          | inl (x, a) ↦ rw (e, a, approve_change_core, approve_by) (inl (refl, λ d. d))
          | inr (by, a, acts) ↦
              rw (e, a, approve_change_core, approve_by)
                (elim (approve_as_cases by store) [
                  | inl kept ↦ inl kept
                  | inr passed ↦
                      let (o, b, x, refs, r) = passed in
                      inr (
                        by,
                        same_state-open change.state e,
                        acts,
                        passed,
                        record_approval-approvals change.change_key owner_ref by change.head_sha
                              change.change_key owner_ref store _ r
                            ∙ rw
                                (
                                  (text_eq_iff change.change_key change.change_key).1 refl,
                                  (text_eq_iff owner_ref owner_ref).1 refl,
                                )
                                refl,
                      )
                ])
        ]
      ]
