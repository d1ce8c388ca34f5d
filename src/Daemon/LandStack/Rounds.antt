-- ===== src/Daemon/LandStack/Rounds.antt =====
-- What a round of the sweep does with a member.
use runko.Prelude.{
  ℕ, suc, ◌≡◌, refl, ◌≢◌, inl, inr, true, false, not, Option, none, some, List, [], ◌∷◌, arith,
  is_empty, Bool-cases, Option-cases, Text, lookup,
}
use runko.Store.Model.{ChangeState, opened, landed, abandoned, Change, MemStore}
use runko.Store.Changes.{get_change}
use runko.Store.Listings.{same_state}
use runko.Store.Lifecycle.{Steps, none_yet, and_then, Steps-landed, Step-Moves}
use runko.Daemon.Config.{Principal, BotLane, Server}
use runko.Daemon.Land.{Decision, refused, decided, LandDecision, World, land_change_core}
use runko.Daemon.LandStack.{StackDecision, landed_as, stopped_at, sweep}

pub Steps-then : {s t u : MemStore} → Steps s t → Steps t u → Steps s u
Steps-then first none_yet = first
Steps-then first (and_then rest step) = and_then (Steps-then first rest) step

-- No calls make the store forget a change.
pub Steps-known :
    {s t : MemStore} (k : Text) (c : Change)
    → Steps s t
    → lookup k s.changes ≡ some c
    → (c' : Change) × (lookup k t.changes ≡ some c')
Steps-known k c none_yet h = (c, h)
Steps-known k c (and_then rest step) h =
    let (d, e) = Steps-known k c rest h in let (c', e', moved) = Step-Moves k d step e in (c', e')

same_state-landed : (x : ChangeState) → same_state x landed ≡ true → x ≡ landed
unfolding same_state
same_state-landed opened h = ground arith
same_state-landed landed h = refl
same_state-landed abandoned h = ground arith

same_state-other : (x : ChangeState) → same_state x landed ≡ false → x ≢ landed
unfolding same_state
same_state-other opened h = λ e. ground arith
same_state-other landed h = λ e. ground arith
same_state-other abandoned h = λ e. ground arith

-- The store has the change, landed.
abbrev pub IsLanded : Text → MemStore → Type 0
IsLanded k s = (c : Change) × (lookup k s.changes ≡ some c) × (c.state ≡ landed)

pub Steps-IsLanded : {s t : MemStore} (k : Text) → Steps s t → IsLanded k s → IsLanded k t
Steps-IsLanded k steps (c, l, st) = Steps-landed k c steps l st

landed_as-some :
    (d : Decision LandDecision) (sha : Text)
    → landed_as d ≡ some sha
    → (dec : LandDecision) × (d ≡ decided dec) × (dec.has_landed ≡ true)
unfolding landed_as
landed_as-some (refused e) sha h = ground arith
landed_as-some (decided dec) sha h = elim (Bool-cases dec.has_landed) [
  | inl e ↦ (dec, refl, e)
  | inr e ↦ let q : ◌≡◌ {A = Option Text} none (some sha) = rw (e, landed_as) at h in ground arith
]

module _ (sha256_hex : Text → Text) (s : Server) (lane : Option BotLane)
    (principal : Option Principal) (worlds : ℕ → World) (others : ℕ → MemStore → MemStore) where
  abbrev swept : ℕ → List Change → MemStore → StackDecision × MemStore
  swept = sweep sha256_hex s lane principal worlds others

  abbrev member_land : ℕ → Change → MemStore → Decision LandDecision × MemStore
  member_land i cur store =
      land_change_core sha256_hex s (worlds i) cur.change_key cur lane principal false store

  -- What a round does with a member: it goes by one that is gone or has landed, it lands it, or it
  -- stops.
  pub data Round (i : ℕ) (m : Change) (ms : List Change) (store : MemStore) : Type 0 where
    by_gone :
        lookup m.change_key (others i store).changes ≡ none
        → swept i (m ∷ ms) store ≡ swept (suc i) ms (others i store)
        → Round i m ms store
    by_landed :
        (cur : Change)
        → lookup m.change_key (others i store).changes ≡ some cur
        → cur.state ≡ landed
        → swept i (m ∷ ms) store ≡ swept (suc i) ms (others i store)
        → Round i m ms store
    lands_it :
        (cur : Change) (d : LandDecision) (store2 : MemStore) (sha : Text)
        → lookup m.change_key (others i store).changes ≡ some cur
        → cur.state ≢ landed
        → member_land i cur (others i store) ≡ (decided d, store2)
        → d.has_landed ≡ true
        → (swept i (m ∷ ms) store).0.landed_members
          ≡ record { change_key = cur.change_key; landed_sha = sha }
            ∷ (swept (suc i) ms store2).0.landed_members
        → (swept i (m ∷ ms) store).0.stopped_key ≡ (swept (suc i) ms store2).0.stopped_key
        → (swept i (m ∷ ms) store).1 ≡ (swept (suc i) ms store2).1
        → Round i m ms store
    stops :
        (cur : Change) (store2 : MemStore)
        → lookup m.change_key (others i store).changes ≡ some cur
        → store2 ≡ (member_land i cur (others i store)).1
        → (swept i (m ∷ ms) store).0.landed_members ≡ []
        → (swept i (m ∷ ms) store).0.stopped_key ≡ some cur.change_key
        → (swept i (m ∷ ms) store).1 ≡ store2
        → Round i m ms store

  stopped_at-none :
      (w : World) (cur : Change) (d : Decision LandDecision) (store : MemStore)
      → ((stopped_at sha256_hex s lane principal w cur d store).landed_members ≡ [])
        × ((stopped_at sha256_hex s lane principal w cur d store).stopped_key ≡ some cur.change_key)
  unfolding stopped_at
  stopped_at-none w cur (refused e) store = (refl, refl)
  stopped_at-none w cur (decided d) store = elim (Bool-cases d.requires_revalidation) [
    | inl e ↦ rw (e, stopped_at) (refl, refl)
    | inr e ↦ elim (Bool-cases (not (is_empty d.conflicts))) [
      | inl f ↦ rw (e, f, stopped_at) (refl, refl)
      | inr f ↦ rw (e, f, stopped_at) (refl, refl)
    ]
  ]

  pub round : (i : ℕ) (m : Change) (ms : List Change) (store : MemStore) → Round i m ms store
  unfolding sweep get_change
  round i m ms store = elim (Option-cases (lookup m.change_key (others i store).changes)) [
    | inl e ↦ by_gone e (rw (e, sweep) refl)
    | inr (cur, e) ↦ elim (Bool-cases (same_state cur.state landed)) [
      | inl t ↦ by_landed cur e (same_state-landed cur.state t) (rw (e, t, sweep) refl)
      | inr t ↦ elim (Option-cases (landed_as (member_land i cur (others i store)).0)) [
        | inl n ↦
            let (empty, key) =
              stopped_at-none (worlds i) cur (member_land i cur (others i store)).0
                (member_land i cur (others i store)).1 in
            stops cur (member_land i cur (others i store)).1 e refl (rw (e, t, n, sweep) empty)
              (rw (e, t, n, sweep) key) (rw (e, t, n, sweep) refl)
        | inr (sha, n) ↦
            let (d, q, l) = landed_as-some (member_land i cur (others i store)).0 sha n in
            lands_it cur d (member_land i cur (others i store)).1 sha e
              (same_state-other cur.state t) (cc) l (rw (e, t, n, sweep) refl)
              (rw (e, t, n, sweep) refl) (rw (e, t, n, sweep) refl)
      ]
    ]
  ]
