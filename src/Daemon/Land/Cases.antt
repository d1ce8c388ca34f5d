-- ===== src/Daemon/Land/Cases.antt =====
-- What landChangeCore may do, case by case.
use runko.Prelude.{
  ◌≡◌, refl, sym, ap, subst, ◌∙◌, ◌⊎◌, inl, inr, Bool, true, false, not, ◌&&◌, Option, none, some,
  is_empty, Bool-cases, Option-cases, Text,
}
use runko.Land.Attempt.{Outcome}
use runko.Store.Model.{ChangeState, opened, landed, abandoned, Change, MemStore, done}
use runko.Store.Changes.{mark_change_landed}
use runko.Store.Changes.Moves.{mark_change_landed_cases}
use runko.Daemon.Config.{Principal, BotLane, Server}
use runko.Daemon.Gate.{GateView, merge_requirements}
use runko.Daemon.Land.{
  ApiError, Decision, refused, decided, LandDecision, no_decision, force_denied_to,
  refuse_unlanded_parent, lane_refusal, lander, World, after_land, conclude, attempt_under, gated,
  land_in, land_change_core,
}

-- The decision reports a land.
abbrev pub Reports : Decision LandDecision → Type 0
Reports (refused e) = ⊥
Reports (decided d) = d.has_landed ≡ true

module _ (s : Server) (w : World) (key : Text) (change : Change) where
  -- The attempt landed a commit, which the store records; the rest follows from the record.
  abbrev pub Concludes :
      Text → Bool → Option Outcome → MemStore → Decision LandDecision × MemStore → Type 0
  Concludes by forced attempt store result =
      (o : Outcome) × (c : Change) × (store' : MemStore) × (attempt ≡ some o)
      × (o.landed ≡ true)
      × (mark_change_landed key o.landed_sha by forced w.now store ≡ done (c, store'))
      × (result ≡ (
        decided
            (record no_decision { has_landed = true; landed_sha = o.landed_sha; forced = forced }),
        after_land s w key change by o.landed_sha store',
      ))

  conclude_cases :
      (by : Text) (forced : Bool) (attempt : Option Outcome) (store : MemStore)
      → ((conclude s w key change by forced attempt store).1 ≡ store
          × ¬ Reports (conclude s w key change by forced attempt store).0)
        ⊎ Concludes by forced attempt store (conclude s w key change by forced attempt store)
  unfolding conclude
  conclude_cases by forced none store = inl (refl, λ r. r)
  conclude_cases by forced (some o) store = elim (Bool-cases o.landed) [
    | inl e ↦ elim (mark_change_landed_cases key o.landed_sha by forced w.now store) [
      | inl m ↦ rw (e, m, conclude) (inl (refl, λ r. r))
      | inr (c, store', m, _, _, _, _) ↦ inr (o, c, store', refl, e, m, rw (e, m, conclude) refl)
    ]
    | inr e ↦ elim (Bool-cases o.requires_revalidation) [
      | inl v ↦ rw (e, v, conclude) (inl (refl, λ r. cc))
      | inr v ↦ elim (Bool-cases (is_empty o.conflicts)) [
        | inl t ↦ rw (e, v, t, conclude) (inl (refl, λ r. cc))
        | inr t ↦ rw (e, v, t, conclude) (inl (refl, λ r. cc))
      ]
    ]
  ]

  module _ (sha256_hex : Text → Text) (lane : Option BotLane) (principal : Option Principal)
      (force : Bool) where
    -- The gate let the change through, or was overridden, and the attempt landed it.
    abbrev pub Passes : Option GateView → MemStore → Decision LandDecision × MemStore → Type 0
    Passes gate store result =
        (g : GateView) × (gate ≡ some g)
        × ((g.mergeable ≡ true) ⊎ ((g.mergeable ≡ false) × (force ≡ true)))
        × Concludes (lander principal lane) (force && not g.mergeable)
            (attempt_under s w change force) store result

    gated_cases :
        (gate : Option GateView) (store : MemStore)
        → ((gated s w lane principal key change force gate store).1 ≡ store
            × ¬ Reports (gated s w lane principal key change force gate store).0)
          ⊎ Passes gate store (gated s w lane principal key change force gate store)
    unfolding gated
    gated_cases none store = inl (refl, λ r. r)
    gated_cases (some g) store =
        let by = lander principal lane in
        let attempt = attempt_under s w change force in
        elim (Bool-cases (not g.mergeable && not force)) [
          | inl e ↦ rw (e, gated) (inl (refl, λ r. r))
          | inr e ↦
              let same : gated s w lane principal key change force (some g) store
                  ≡ conclude s w key change by (force && not g.mergeable) attempt store =
                rw (e, gated) refl in
              elim (conclude_cases by (force && not g.mergeable) attempt store) [
                | inl (kept, quiet) ↦ inl (
                  ap (λ (z : Decision LandDecision × MemStore). z.1) same ∙ kept,
                  λ r. quiet (subst (λ (z : Decision LandDecision × MemStore). Reports z.0) same r),
                )
                | inr (o, c, store', a, l, m, k) ↦
                    inr (g, refl, through g.mergeable force e, (o, c, store', a, l, m, same ∙ k))
              ]
        ]
      where
        through : (b f : Bool) → (not b && not f) ≡ false → (b ≡ true) ⊎ ((b ≡ false) × (f ≡ true))
        through true f h = inl refl
        through false true h = inr (refl, refl)
        through false false h = absurd (cc)

    -- All that landChangeCore asks before it lands.
    abbrev pub Lands : MemStore → Decision LandDecision × MemStore → Type 0
    Lands store result =
        ((force && force_denied_to principal lane) ≡ false)
        × (change.state ≡ opened)
        × (refuse_unlanded_parent w.repo store change ≡ none)
        × (lane_refusal sha256_hex s w.repo lane change ≡ none)
        × Passes (merge_requirements sha256_hex lane s w.repo store w.now change) store result

    -- Either nothing happens, and a land is reported only of a change that had landed before, or
    -- every condition holds and the land is recorded.
    pub land_change_core_cases :
        (store : MemStore)
        → ((land_change_core sha256_hex s w key change lane principal force store).1 ≡ store
            × (Reports (land_change_core sha256_hex s w key change lane principal force store).0
                → change.state ≡ landed))
          ⊎ Lands store (land_change_core sha256_hex s w key change lane principal force store)
    unfolding land_change_core
    land_change_core_cases store = elim (Bool-cases (force && force_denied_to principal lane)) [
      | inl e ↦ rw (e, land_change_core) (inl (refl, λ r. elim r [ ]))
      | inr e ↦
          let step : land_change_core sha256_hex s w key change lane principal force store
              ≡ land_in sha256_hex s w key change lane principal force change.state store =
            rw (e, land_change_core) refl in
          from change.state refl e step
    ]
      where
        from :
            (x : ChangeState)
            → change.state ≡ x
            → (force && force_denied_to principal lane) ≡ false
            → land_change_core sha256_hex s w key change lane principal force store
              ≡ land_in sha256_hex s w key change lane principal force x store
            → ((land_change_core sha256_hex s w key change lane principal force store).1 ≡ store
                × (Reports (land_change_core sha256_hex s w key change lane principal force store).0
                    → change.state ≡ landed))
              ⊎ Lands store (land_change_core sha256_hex s w key change lane principal force store)
        from landed x e step = inl (ap (λ (z : Decision LandDecision × MemStore). z.1) step, λ r. x)
        from abandoned x e step = inl (
          ap (λ (z : Decision LandDecision × MemStore). z.1) step,
          λ r. absurd (subst (λ (z : Decision LandDecision × MemStore). Reports z.0) step r),
        )
        from opened x e step = elim (Option-cases (refuse_unlanded_parent w.repo store change)) [
          | inr (err, p) ↦
              let stop : land_in sha256_hex s w key change lane principal force opened store
                  ≡ (refused err, store) =
                rw (p, land_in) refl in
              inl (stopped err (step ∙ stop))
          | inl p ↦ elim (Option-cases (lane_refusal sha256_hex s w.repo lane change)) [
            | inr (err, q) ↦
                let stop : land_in sha256_hex s w key change lane principal force opened store
                    ≡ (refused err, store) =
                  rw (p, q, land_in) refl in
                inl (stopped err (step ∙ stop))
            | inl q ↦
                let gate = merge_requirements sha256_hex lane s w.repo store w.now change in
                let on : land_in sha256_hex s w key change lane principal force opened store
                    ≡ gated s w lane principal key change force gate store =
                  rw (p, q, land_in) refl in
                let same = step ∙ on in
                elim (gated_cases gate store) [
                  | inl (kept, quiet) ↦ inl (
                    ap (λ (z : Decision LandDecision × MemStore). z.1) same ∙ kept,
                    λ r. absurd (
                        quiet
                          (subst (λ (z : Decision LandDecision × MemStore). Reports z.0) same r)),
                  )
                  | inr passed ↦ inr (
                    e,
                    x,
                    p,
                    q,
                    subst (λ (z : Decision LandDecision × MemStore). Passes gate store z) (sym same)
                        passed,
                  )
                ]
          ]
        ]
          where
            stopped :
                (err : ApiError)
                → land_change_core sha256_hex s w key change lane principal force store
                  ≡ (refused err, store)
                → ((land_change_core sha256_hex s w key change lane principal force store).1 ≡ store
                    × (Reports
                          (land_change_core sha256_hex s w key change lane principal force store).0
                        → change.state ≡ landed))
            stopped err k = (
              ap (λ (z : Decision LandDecision × MemStore). z.1) k,
              λ r. absurd (subst (λ (z : Decision LandDecision × MemStore). Reports z.0) k r),
            )
