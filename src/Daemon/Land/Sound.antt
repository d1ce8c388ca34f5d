-- ===== src/Daemon/Land/Sound.antt =====
-- What a reported land has passed, and what it leaves in the store.
use runko.Prelude.{
  ◌≡◌, refl, sym, ap, subst, ◌∙◌, ◌≢◌, ◌⊎◌, inl, inr, Bool, true, false, not, ◌&&◌, Option, none,
  some, arith, Text, lookup,
}
use runko.Land.Attempt.{Outcome}
use runko.Store.Model.{opened, landed, Change, MemStore, done}
use runko.Store.Changes.{mark_change_landed}
use runko.Store.Changes.Moves.{mark_change_landed_cases}
use runko.Daemon.Config.{Principal, BotLane, Server}
use runko.Daemon.Gate.{GateView, merge_requirements}
use runko.Daemon.Aftermath.Same.{
  open_deploy_record_for_land-same, enqueue_landed_webhook-same, record_landed_event-same,
  maybe_close_agent_workspace-same,
}
use runko.Daemon.Land.{
  Decision, decided, LandDecision, no_decision, force_denied_to, refuse_unlanded_parent,
  lane_refusal, lander, World, after_land, attempt_under, land_change_core,
}
use runko.Daemon.Land.Cases.{Reports, land_change_core_cases}

pub after_land-same :
    (s : Server) (w : World) (key : Text) (change : Change) (by sha : Text) (store : MemStore)
    → (after_land s w key change by sha store).changes ≡ store.changes
unfolding after_land
after_land-same s w key change by sha store =
    maybe_close_agent_workspace-same s change.origin_workspace w.now _
    ∙ (record_landed_event-same change key by sha w.now _
        ∙ (open_deploy_record_for_land-same (w.images_of sha) change sha w.now _
            ∙ enqueue_landed_webhook-same (w.landed_envelope change sha) store))

module _ (sha256_hex : Text → Text) (s : Server) (w : World) (key : Text) (change : Change)
    (lane : Option BotLane) (principal : Option Principal) (force : Bool) (store : MemStore) where
  marked :
      (sha by : Text) (forced : Bool) (c : Change) (s' : MemStore)
      → mark_change_landed key sha by forced w.now store ≡ done (c, s')
      → (c' : Change) × (lookup key s'.changes ≡ some c')
        × (c'.state ≡ landed)
        × (c'.landed_sha ≡ sha)
        × (c'.landed_forced ≡ forced)
  marked sha by forced c s' m = elim (mark_change_landed_cases key sha by forced w.now store) [
    | inl e ↦ absurd (cc)
    | inr (c2, s2, e, l, st, sh, fo) ↦
        let one : s2 ≡ s' = cc in
        (c2, subst (λ (z : MemStore). lookup key z.changes ≡ some c2) one l, st, sh, fo)
  ]

  -- A change that had not landed is reported as landed only if it is open, no open change owns its
  -- base where the trunk lacks it, a lane's allowlist covers its paths, and the gate finds it
  -- mergeable or a human admin or the operator token forced it; then the attempt landed the commit
  -- that is reported, and the store has the change as landed at it, marked as forced exactly where
  -- the gate was closed.
  pub land_change_core_sound :
      (d : LandDecision) (store' : MemStore)
      → land_change_core sha256_hex s w key change lane principal force store ≡ (decided d, store')
      → d.has_landed ≡ true
      → change.state ≢ landed
      → (change.state ≡ opened)
        × (refuse_unlanded_parent w.repo store change ≡ none)
        × (lane_refusal sha256_hex s w.repo lane change ≡ none)
        × ((g : GateView) × (merge_requirements sha256_hex lane s w.repo store w.now change
              ≡ some g)
            × (((g.mergeable ≡ true) × (d.forced ≡ false))
                ⊎ ((g.mergeable ≡ false)
                    × (force ≡ true)
                    × (force_denied_to principal lane ≡ false)
                    × (d.forced ≡ true))))
        × ((o : Outcome) × (attempt_under s w change force ≡ some o)
            × (o.landed ≡ true)
            × (d.landed_sha ≡ o.landed_sha))
        × ((c : Change) × (lookup key store'.changes ≡ some c)
            × (c.state ≡ landed)
            × (c.landed_sha ≡ d.landed_sha)
            × (c.landed_forced ≡ d.forced))
  land_change_core_sound d store' h l n =
      elim (land_change_core_cases s w key change sha256_hex lane principal force store) [
        | inl (_, quiet) ↦
            absurd
              (n (quiet (subst (λ (z : Decision LandDecision × MemStore). Reports z.0) (sym h) l)))
        | inr (e, x, p, q, passed) ↦
            let (g, gate, through, concluded) = passed in
            let (o, c, s1, a, ol, m, r) = concluded in
            let forced = force && not g.mergeable in
            let by = lander principal lane in
            let same = sym h ∙ r in
            let made : d ≡ record no_decision {
              has_landed = true;
              landed_sha = o.landed_sha;
              forced = forced;
            } =
              cc in
            let left : store' ≡ after_land s w key change by o.landed_sha s1 =
              ap (λ (z : Decision LandDecision × MemStore). z.1) same in
            let kept : store'.changes ≡ s1.changes =
              ap (λ (z : MemStore). z.changes) left
              ∙ after_land-same s w key change by o.landed_sha s1 in
            let sha : d.landed_sha ≡ o.landed_sha = ap (λ (z : LandDecision). z.landed_sha) made in
            let flag : d.forced ≡ forced = ap (λ (z : LandDecision). z.forced) made in
            let (c', l', st, sh, fo) = marked o.landed_sha by forced c s1 m in
            (
              x,
              p,
              q,
              (
                g,
                gate,
                elim through [
                  | inl t ↦ inl (t, ground arith)
                  | inr (t, f) ↦ inr (t, f, ground arith, ground arith)
                ],
              ),
              (o, a, ol, sha),
              (c', ap (lookup key) kept ∙ l', st, sh ∙ sym sha, fo ∙ sym flag),
            )
      ]

  -- A call that reports no land leaves the store as it is.
  pub land_change_core-unlanded :
      ¬ Reports (land_change_core sha256_hex s w key change lane principal force store).0
      → (land_change_core sha256_hex s w key change lane principal force store).1 ≡ store
  unfolding land_change_core
  land_change_core-unlanded n =
      elim (land_change_core_cases s w key change sha256_hex lane principal force store) [
        | inl (kept, _) ↦ kept
        | inr (e, x, p, q, passed) ↦
            let (g, gate, through, concluded) = passed in
            let (o, c, s1, a, ol, m, r) = concluded in
            absurd (n (subst (λ (z : Decision LandDecision × MemStore). Reports z.0) (sym r) refl))
      ]
