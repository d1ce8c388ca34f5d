-- ===== src/Daemon/Automerge/Touches.antt =====
-- Which changes a sweep may land.
use runko.Prelude.{
  ℕ, suc, ◌+◌, ◌++◌, length, arith, ◌≡◌, refl, ap, ◌∙◌, ◌⊎◌, inl, inr, Bool, true, false, not,
  Option, none, some, List, [], ◌∷◌, Bool-cases, Text, text_eq, text_eq_iff, mem, lookup,
  if◌then◌else◌,
}
use runko.Store.Model.{opened, Change, MemStore}
use runko.Store.Changes.OneKey.{land_local}
use runko.Store.Listings.{list_changes}
use runko.Daemon.Config.{Principal, BotLane, Server}
use runko.Daemon.Gate.{GateView, merge_requirements}
use runko.Daemon.Land.{Decision, LandDecision, World, after_land, lander, land_change_core}
use runko.Daemon.Land.Cases.{land_change_core_cases}
use runko.Daemon.Land.Sound.{after_land-same}
use runko.Daemon.Automerge.{
  tip_text, attempt_key, armer, land_ready, sweep_one, sweep_rest, sweep_once,
}

land_change_core-elsewhere :
    (sha256_hex : Text → Text) (s : Server) (w : World) (key : Text) (change : Change)
    (lane : Option BotLane) (principal : Option Principal) (force : Bool) (store : MemStore)
    (k : Text)
    → text_eq key k ≡ false
    → lookup k (land_change_core sha256_hex s w key change lane principal force store).1.changes
      ≡ lookup k store.changes
land_change_core-elsewhere sha256_hex s w key change lane principal force store k n =
    elim (land_change_core_cases s w key change sha256_hex lane principal force store) [
      | inl (kept, _) ↦ ap (λ (z : MemStore). lookup k z.changes) kept
      | inr (e, x, p, q, passed) ↦
          let (g, gate, through, concluded) = passed in
          let (o, c, s1, a, ol, m, r) = concluded in
          let left : (land_change_core sha256_hex s w key change lane principal force store).1
              ≡ after_land s w key change (lander principal lane) o.landed_sha s1 =
            ap (λ (z : Decision LandDecision × MemStore). z.1) r in
          ap (λ (z : MemStore). lookup k z.changes) left
          ∙ (ap (lookup k) (after_land-same s w key change (lander principal lane) o.landed_sha s1)
              ∙ (land_local key o.landed_sha (lander principal lane) _ w.now c store s1 m).1 k n)
    ]

-- A change that is not armed, or was tried, is passed over.
passed_over :
    {A : Type 0} (armed tried : Bool) (x y : A)
    → ((if not armed then x else if tried then x else y) ≡ x)
      ⊎ ((armed ≡ true) × (tried ≡ false) × ((if not armed then x else if tried then x else y) ≡ y))
passed_over false tried x y = inl refl
passed_over true true x y = inl refl
passed_over true false x y = inr (refl, refl, refl)

module _ (sha256_hex : Text → Text) (s : Server) where
  -- The change is armed, was not tried before at its head on that tip, and the gate is open for it.
  abbrev pub IsReady : World → Text → List Text → MemStore → Change → Type 0
  IsReady w tip attempted store c =
      (c.automerge ≡ true)
      × (mem (attempt_key c tip) attempted ≡ false)
      × ((g : GateView) × (merge_requirements sha256_hex none s w.repo store w.now c ≡ some g)
          × (g.mergeable ≡ true))

  land_ready_cases :
      (w : World) (tag : Text) (change : Change) (attempted : List Text) (gate : Option GateView)
      (store : MemStore) (k : Text)
      → (lookup k (land_ready sha256_hex s w tag change attempted gate store).1.changes
          ≡ lookup k store.changes)
        ⊎ ((change.change_key ≡ k) × ((g : GateView) × (gate ≡ some g) × (g.mergeable ≡ true)))
  unfolding land_ready
  land_ready_cases w tag change attempted none store k = inl refl
  land_ready_cases w tag change attempted (some v) store k = elim (Bool-cases v.mergeable) [
    | inr m ↦ inl (rw (m, land_ready) refl)
    | inl m ↦ elim (Bool-cases (text_eq change.change_key k)) [
      | inl t ↦ inr ((text_eq_iff change.change_key k).0 t, (v, refl, m))
      | inr t ↦ inl (
          rw (m, land_ready)
            (land_change_core-elsewhere sha256_hex s w change.change_key change none
              (some (armer change)) false store k t))
    ]
  ]

  -- A round leaves a key alone, or it is the key of a change that is ready.
  sweep_one_cases :
      (w : World) (tip : Text) (change : Change) (attempted : List Text) (store : MemStore)
      (k : Text)
      → (lookup k (sweep_one sha256_hex s w tip change attempted store).1.changes
          ≡ lookup k store.changes)
        ⊎ ((change.change_key ≡ k) × IsReady w tip attempted store change)
  unfolding sweep_one
  sweep_one_cases w tip change attempted store k =
      let gate = merge_requirements sha256_hex none s w.repo store w.now change in
      let tag = attempt_key change tip in
      elim (passed_over change.automerge (mem tag attempted) (attempted, store)
        (land_ready sha256_hex s w tag change attempted gate store)) [
          | inl q ↦ inl (ap (λ (z : List Text × MemStore). lookup k z.1.changes) q)
          | inr (a, m, q) ↦ elim (land_ready_cases w tag change attempted gate store k) [
            | inl kept ↦ inl (ap (λ (z : List Text × MemStore). lookup k z.1.changes) q ∙ kept)
            | inr (e, ready) ↦ inr (e, (a, m, ready))
          ]
        ]

  module _ (worlds : ℕ → World) (others : ℕ → MemStore → MemStore) (k : Text)
      (apart : (i : ℕ) (store : MemStore)
        → lookup k (others i store).changes ≡ lookup k store.changes) where
    -- A change of that key is listed, and is ready in its round: the rounds of the changes that are
    -- listed before it have left the attempts and, after what others did, the store that it is
    -- tested on.
    abbrev pub HasTurn : ℕ → Text → List Change → List Text → MemStore → Type 0
    HasTurn i tip changes attempted store =
        (before : List Change) × (c : Change) × (after : List Change) × (changes
          ≡ before ++ c ∷ after)
        × (c.change_key ≡ k)
        × ((n : ℕ) × (n ≡ i + length before)
            × IsReady (worlds n) tip
                (sweep_rest sha256_hex s worlds others i tip before attempted store).0
                (others n (sweep_rest sha256_hex s worlds others i tip before attempted store).1) c)

    sweep_rest_cases :
        (i : ℕ) (tip : Text) (changes : List Change) (attempted : List Text) (store : MemStore)
        → (lookup k (sweep_rest sha256_hex s worlds others i tip changes attempted store).1.changes
            ≡ lookup k store.changes)
          ⊎ HasTurn i tip changes attempted store
    unfolding sweep_rest
    sweep_rest_cases i tip [] attempted store = inl refl
    sweep_rest_cases i tip (change ∷ changes) attempted store =
        let one = sweep_one sha256_hex s (worlds i) tip change attempted (others i store) in
        elim (sweep_rest_cases (suc i) tip changes one.0 one.1) [
          | inr (before, c, after, split, e, (n, at, ready)) ↦ inr (
            change ∷ before,
            c,
            after,
            ap (λ (z : List Change). change ∷ z) split,
            e,
            (n, omega (arith, at), ready),
          )
          | inl later ↦ elim (sweep_one_cases (worlds i) tip change attempted (others i store) k) [
            | inl now ↦ inl (later ∙ (now ∙ apart i store))
            | inr (e, ready) ↦ inr ([], change, changes, refl, e, (i, omega arith, ready))
          ]
        ]

    -- A sweep leaves a change as it is that nobody else touches, unless a change of the listing of
    -- open ones is stored under its key that is armed and that in its round, on the store as it is
    -- then, has an open gate, and whose head on that tip is not in the set of attempts that the
    -- rounds before it have left.
    pub sweep_once_touches :
        (trunk_tip : Option Text) (attempted : List Text) (store : MemStore)
        → (lookup k (sweep_once sha256_hex s worlds others trunk_tip attempted store).1.changes
            ≡ lookup k store.changes)
          ⊎ HasTurn 0 (tip_text trunk_tip) (list_changes (some opened) store) attempted store
    unfolding sweep_once
    sweep_once_touches trunk_tip attempted store =
        sweep_rest_cases 0 (tip_text trunk_tip) (list_changes (some opened) store) attempted store
