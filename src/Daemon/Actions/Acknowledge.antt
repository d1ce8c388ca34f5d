-- ===== src/Daemon/Actions/Acknowledge.antt =====
-- What an acknowledgement of a policy finding has passed, and what it leaves.
use runko.Prelude.{
  ℕ, ◌≡◌, refl, sym, ap, subst, ◌∙◌, ◌≢◌, ◌⊎◌, inl, inr, false, Option, none, some, [], arith,
  is_empty, is_empty_iff, Bool-cases, Option-cases, Text,
}
use runko.Checks.Runs.{
  CheckRunView, Standing, absent, running, passed, failed, find_run, standing_of,
}
use runko.Store.Model.{opened, Change, MemStore}
use runko.Store.Listings.{same_state}
use runko.Store.CheckRuns.{list_check_runs, upsert_check_run}
use runko.Store.CheckRuns.Carry.{run_at, upsert_check_run-run_at}
use runko.Daemon.Config.{Principal, Server}
use runko.Daemon.Repo.{Repo}
use runko.Daemon.Gate.{agent_policy_check_name}
use runko.Daemon.Actions.{
  require_open_change, acknowledgement, is_acknowledged, ack_as, ack_by, ack_policy_core,
}
use runko.Daemon.Actions.Approve.{Acts, acting_as_cases, same_state-open, Decides, refreshed-same}

is_acknowledged-other : (st : Standing) → is_acknowledged st ≡ false → st ≢ passed
unfolding is_acknowledged
is_acknowledged-other absent h = λ e. ground arith
is_acknowledged-other running h = λ e. ground arith
is_acknowledged-other passed h = λ e. ground arith
is_acknowledged-other failed h = λ e. ground arith

module _ (sha256_hex : Text → Text) (s : Server) (repo : Repo) (now : ℕ) (change : Change) where
  -- The finding at the head was not yet acknowledged, and has now passed under that name.
  abbrev pub Acknowledged : Text → MemStore → MemStore → Type 0
  Acknowledged by store store' =
      (by ≢ [])
      × ((run : CheckRunView) × (find_run (list_check_runs change.change_key change.head_sha store)
              agent_policy_check_name
            ≡ some run)
          × (standing_of run.status run.conclusion ≢ passed))
      × ((run : CheckRunView) × (run_at change.change_key change.head_sha agent_policy_check_name
              store'
            ≡ some run)
          × (standing_of run.status run.conclusion ≡ passed)
          × (run.reporter ≡ by))

  acknowledged_run :
      (by : Text) (store : MemStore)
      → (run : CheckRunView) × (run_at change.change_key change.head_sha agent_policy_check_name
            (upsert_check_run change.change_key change.head_sha (acknowledgement by) now store)
          ≡ some run)
        × (standing_of run.status run.conclusion ≡ passed)
        × (run.reporter ≡ by)
  unfolding acknowledgement standing_of
  acknowledged_run by store =
      let ack = acknowledgement by in
      let (run, at, st, co, re) =
        upsert_check_run-run_at change.change_key change.head_sha ack now store in
      (run, at, ap (λ x. standing_of x run.conclusion) st ∙ ap (standing_of ack.status) co, re)

  ack_as_cases :
      (by : Text) (store : MemStore)
      → (((ack_as sha256_hex s repo now change by store).1 ≡ store)
          × ¬ Decides (ack_as sha256_hex s repo now change by store).0)
        ⊎ Acknowledged by store (ack_as sha256_hex s repo now change by store).1
  unfolding ack_as
  ack_as_cases by store = elim (Bool-cases (is_empty by)) [
    | inl e ↦ rw (e, ack_as) (inl (refl, λ d. d))
    | inr e ↦
        elim (Option-cases (
          find_run (list_check_runs change.change_key change.head_sha store)
            agent_policy_check_name)) [
              | inl f ↦ rw (e, f, ack_as) (inl (refl, λ d. d))
              | inr (run, f) ↦
                  elim (Bool-cases (is_acknowledged (standing_of run.status run.conclusion))) [
                    | inl g ↦ rw (e, f, g, ack_as) (inl (refl, λ d. d))
                    | inr g ↦ inr (
                      λ o. ground (arith, (is_empty_iff by).1 o),
                      (run, f, is_acknowledged-other (standing_of run.status run.conclusion) g),
                      let reported =
                            upsert_check_run change.change_key change.head_sha (acknowledgement by)
                              now store in
                          let left : reported ≡ (ack_as sha256_hex s repo now change by store).1 =
                            rw (e, f, g, ack_as)
                              (sym (refreshed-same sha256_hex s repo now none change reported)) in
                          subst
                            (λ (z : MemStore).
                              (r : CheckRunView) × (run_at change.change_key change.head_sha
                                  agent_policy_check_name z
                                ≡ some r)
                              × (standing_of r.status r.conclusion ≡ passed)
                              × (r.reporter ≡ by))
                            left (acknowledged_run by store),
                    )
                  ]
            ]
  ]

  -- An acknowledgement is either refused, and the store stays as it is, or it passes: the change is
  -- open, who acknowledges is nobody's agent (a named principal only as itself), the change has a
  -- policy finding at its head that has not passed; and then that check has passed at the head, as
  -- reported under that name. There is no other way to an answer with merge requirements.
  pub ack_policy_core_cases :
      (acked_by : Text) (principal : Option Principal) (store : MemStore)
      → (((ack_policy_core sha256_hex s repo now change acked_by principal store).1 ≡ store)
          × ¬ Decides (ack_policy_core sha256_hex s repo now change acked_by principal store).0)
        ⊎ ((by : Text) × (change.state ≡ opened)
            × Acts principal acked_by by
            × Acknowledged by store
                (ack_policy_core sha256_hex s repo now change acked_by principal store).1)
  unfolding ack_policy_core require_open_change ack_by
  ack_policy_core_cases acked_by principal store =
      elim (Bool-cases (same_state change.state opened)) [
        | inr e ↦ rw (e, ack_policy_core) (inl (refl, λ d. d))
        | inl e ↦ elim (acting_as_cases principal acked_by) [
          | inl (x, a) ↦ rw (e, a, ack_policy_core, ack_by) (inl (refl, λ d. d))
          | inr (by, a, acts) ↦
              rw (e, a, ack_policy_core, ack_by)
                (elim (ack_as_cases by store) [
                  | inl kept ↦ inl kept
                  | inr done_so ↦ inr (by, same_state-open change.state e, acts, done_so)
                ])
        ]
      ]
