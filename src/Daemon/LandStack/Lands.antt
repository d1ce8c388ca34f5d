-- ===== src/Daemon/LandStack/Lands.antt =====
-- What a sweep over a chain has landed, whoever else calls the store between two members.
use runko.Prelude.{
  ℕ, suc, ◌≡◌, sym, ap, subst, ◌∙◌, ◌≢◌, inl, inr, true, false, Option, none, some, List, [], ◌∷◌,
  In, arith, Bool-cases, Text, lookup,
}
use runko.Store.Model.{landed, abandoned, Change, MemStore}
use runko.Store.Changes.Keyed.{IsKeyed}
use runko.Store.Listings.{same_state}
use runko.Store.Lifecycle.{Steps, none_yet}
use runko.Store.Lifecycle.Keyed.{Steps-IsKeyed}
use runko.Daemon.Config.{Principal, BotLane, Server}
use runko.Daemon.Land.{
  invalid_state, Decision, refused, decided, LandDecision, World, land_change_core,
}
use runko.Daemon.Land.Sound.{land_change_core_sound}
use runko.Daemon.Land.Steps.{land_change_core-Steps}
use runko.Daemon.LandStack.{LandedMember, StackDecision, chain_of, sweep, land_stack_core}
use runko.Daemon.LandStack.Rounds.{
  Steps-then, Steps-known, IsLanded, Steps-IsLanded, by_gone, by_landed, lands_it, stops, round,
}

module _ (sha256_hex : Text → Text) (s : Server) (lane : Option BotLane)
    (principal : Option Principal) (worlds : ℕ → World) (others : ℕ → MemStore → MemStore) where
  abbrev swept : ℕ → List Change → MemStore → StackDecision × MemStore
  swept = sweep sha256_hex s lane principal worlds others

  abbrev member_land : ℕ → Change → MemStore → Decision LandDecision × MemStore
  member_land i cur store =
      land_change_core sha256_hex s (worlds i) cur.change_key cur lane principal false store

  member_land-Steps :
      (i : ℕ) (cur : Change) (store : MemStore) → Steps store (member_land i cur store).1
  member_land-Steps i cur store =
      land_change_core-Steps sha256_hex s (worlds i) cur.change_key cur lane principal false store

  module _ (honest : (i : ℕ) (store : MemStore) → Steps store (others i store)) where
    swept-Steps : (i : ℕ) (ms : List Change) (store : MemStore) → Steps store (swept i ms store).1
    unfolding sweep
    swept-Steps i [] store = none_yet
    swept-Steps i (m ∷ ms) store =
        let first = honest i store in
        elim (round sha256_hex s lane principal worlds others i m ms store) [
          | by_gone e q ↦
              subst (λ (z : StackDecision × MemStore). Steps store z.1) (sym q)
                (Steps-then first (swept-Steps (suc i) ms (others i store)))
          | by_landed cur e st q ↦
              subst (λ (z : StackDecision × MemStore). Steps store z.1) (sym q)
                (Steps-then first (swept-Steps (suc i) ms (others i store)))
          | lands_it cur d store2 sha e n r l ld sk q ↦
              let own =
                subst (λ (z : Decision LandDecision × MemStore). Steps (others i store) z.1) r
                  (member_land-Steps i cur (others i store)) in
              subst (λ (z : MemStore). Steps store z) (sym q)
                (Steps-then first (Steps-then own (swept-Steps (suc i) ms store2)))
          | stops cur store2 e r ld sk q ↦
              subst (λ (z : MemStore). Steps store z) (sym (q ∙ r))
                (Steps-then first (member_land-Steps i cur (others i store)))
        ]

    -- what a member that has landed is after its land
    landed_now :
        (i : ℕ) (cur : Change) (d : LandDecision) (store store2 : MemStore)
        → cur.state ≢ landed
        → member_land i cur store ≡ (decided d, store2)
        → d.has_landed ≡ true
        → IsLanded cur.change_key store2
    landed_now i cur d store store2 n r l =
        let (op, par, refs, gate, att, kept) =
          land_change_core_sound sha256_hex s (worlds i) cur.change_key cur lane principal false
            store d store2 r l n in
        let (c, at, st, sha, fo) = kept in (c, at, st)

    swept-reported :
        (i : ℕ) (ms : List Change) (store : MemStore) (r : LandedMember)
        → In r (swept i ms store).0.landed_members
        → IsLanded r.change_key (swept i ms store).1
    unfolding sweep
    swept-reported i [] store r h = absurd h
    swept-reported i (m ∷ ms) store r h =
        elim (round sha256_hex s lane principal worlds others i m ms store) [
          | by_gone e q ↦
              subst (λ (z : StackDecision × MemStore). IsLanded r.change_key z.1) (sym q)
                (swept-reported (suc i) ms (others i store) r
                  (subst (λ (z : StackDecision × MemStore). In r z.0.landed_members) q h))
          | by_landed cur e st q ↦
              subst (λ (z : StackDecision × MemStore). IsLanded r.change_key z.1) (sym q)
                (swept-reported (suc i) ms (others i store) r
                  (subst (λ (z : StackDecision × MemStore). In r z.0.landed_members) q h))
          | lands_it cur d store2 sha e n q l ld sk st ↦
              subst (IsLanded r.change_key) (sym st) (elim (subst (In r) ld h) [
                | inl same ↦
                    subst (λ (k : Text). IsLanded k (swept (suc i) ms store2).1)
                      (ap (λ (z : LandedMember). z.change_key) same)
                      (Steps-IsLanded cur.change_key (swept-Steps (suc i) ms store2)
                        (landed_now i cur d (others i store) store2 n q l))
                | inr later ↦ swept-reported (suc i) ms store2 r later
              ])
          | stops cur store2 e q ld sk st ↦ absurd (subst (In r) ld h)
        ]

    swept_complete :
        (i : ℕ) (ms : List Change) (store : MemStore)
        → IsKeyed store
        → (swept i ms store).0.stopped_key ≡ none
        → (m : Change) (c : Change) → In m ms
        → lookup m.change_key store.changes ≡ some c
        → IsLanded m.change_key (swept i ms store).1
    unfolding sweep
    swept_complete i [] store keyed h m c i_m l = absurd i_m
    swept_complete i (x ∷ ms) store keyed h m c i_m l =
        let (c1, l1) = Steps-known m.change_key c (honest i store) l in
        let keyed1 = Steps-IsKeyed (honest i store) keyed in
        elim (round sha256_hex s lane principal worlds others i x ms store) [
          | by_gone e q ↦
              subst (λ (z : StackDecision × MemStore). IsLanded m.change_key z.1) (sym q)
                (elim i_m [
                  | inl same ↦
                      let bad : ◌≡◌ {A = Option Change} (some c1) none =
                        sym l1
                        ∙ (ap (λ (z : Change). lookup z.change_key (others i store).changes)
                              (sym same)
                            ∙ e) in
                      absurd (ground arith)
                  | inr later ↦
                      swept_complete (suc i) ms (others i store) keyed1
                        (subst (λ (z : StackDecision × MemStore). z.0.stopped_key ≡ none) q h) m c1
                        later l1
                ])
          | by_landed cur e st q ↦
              subst (λ (z : StackDecision × MemStore). IsLanded m.change_key z.1) (sym q)
                (elim i_m [
                  | inl same ↦
                      Steps-IsLanded m.change_key (swept-Steps (suc i) ms (others i store)) (
                        cur,
                        ap (λ (z : Change). lookup z.change_key (others i store).changes) (sym same)
                            ∙ e,
                        st,
                      )
                  | inr later ↦
                      swept_complete (suc i) ms (others i store) keyed1
                        (subst (λ (z : StackDecision × MemStore). z.0.stopped_key ≡ none) q h) m c1
                        later l1
                ])
          | lands_it cur d store2 sha e n q l' ld sk st ↦
              let own =
                subst (λ (z : Decision LandDecision × MemStore). Steps (others i store) z.1) q
                  (member_land-Steps i cur (others i store)) in
              subst (IsLanded m.change_key) (sym st) (elim i_m [
                | inl same ↦ Steps-IsLanded m.change_key (swept-Steps (suc i) ms store2) (
                    subst (λ (k : Text). IsLanded k store2)
                      (keyed1 x.change_key cur e ∙ ap (λ (z : Change). z.change_key) same)
                      (landed_now i cur d (others i store) store2 n q l'))
                | inr later ↦
                    let (c2, l2) = Steps-known m.change_key c1 own l1 in
                    swept_complete (suc i) ms store2 (Steps-IsKeyed own keyed1) (sym sk ∙ h) m c2
                      later l2
              ])
          | stops cur store2 e q ld sk st ↦
              let bad : ◌≡◌ {A = Option Text} (some cur.change_key) none = sym sk ∙ h in
              absurd (ground arith)
        ]

    -- A sweep that returns a decision reports only members that the store has as landed, and where
    -- it did not stop, every member of the chain that the store knew at first is landed; whatever
    -- calls of the store others make between the members.
    pub land_stack_core-lands :
        (change : Change) (store : MemStore) (dec : StackDecision) (store' : MemStore)
        → IsKeyed store
        → land_stack_core sha256_hex s lane principal worlds others change store
          ≡ (decided dec, store')
        → ((r : LandedMember) → In r dec.landed_members → IsLanded r.change_key store')
          × (dec.stopped_key ≡ none
              → (m : Change) (c : Change) → In m (chain_of store change)
              → lookup m.change_key store.changes ≡ some c
              → IsLanded m.change_key store')
    unfolding land_stack_core
    land_stack_core-lands change store dec store' keyed h =
        elim (Bool-cases (same_state change.state abandoned)) [
          | inl e ↦
              let q : ◌≡◌ {A = Decision StackDecision × MemStore} (refused invalid_state, store)
                  (decided dec, store') =
                rw (e, land_stack_core) at h in
              absurd (cc)
          | inr e ↦
              let q : ◌≡◌ {A = Decision StackDecision × MemStore}
                  (
                    decided (swept 0 (chain_of store change) store).0,
                    (swept 0 (chain_of store change) store).1,
                  )
                  (decided dec, store') =
                rw (e, land_stack_core) at h in
              let qd : (swept 0 (chain_of store change) store).0 ≡ dec = cc in
              let qs : (swept 0 (chain_of store change) store).1 ≡ store' = cc in
              (
                λ r i. subst (IsLanded r.change_key) qs (
                    swept-reported 0 (chain_of store change) store r
                      (subst (λ (z : StackDecision). In r z.landed_members) (sym qd) i)),
                λ n m c i l. subst (IsLanded m.change_key) qs (
                    swept_complete 0 (chain_of store change) store keyed
                      (ap (λ (z : StackDecision). z.stopped_key) qd ∙ n) m c i l),
              )
        ]
