-- ===== src/Store/Changes/Moves.antt =====
-- How the changes' methods move a change.
use runko.Prelude.{
  ℕ, ◌≡◌, refl, sym, ap, ◌∙◌, subst, ◌⊎◌, inl, inr, Bool, some, arith, Bool-cases, Option-cases,
  Text, text_eq, text_eq_iff, lookup, lookup-put,
}
use runko.Store.Model.{
  ChangeState, opened, landed, abandoned, Change, MemStore, Answer, no_such_change, done,
}
use runko.Store.Changes.{
  Push, save, reopened, updated, pushed_change, alter, abandon, create_or_update_change,
  set_change_automerge, update_change_description, mark_change_abandoned, mark_change_landed,
}

-- How a change may move: nothing leaves `landed`.
pub data Moves : ChangeState → ChangeState → Type 0 where
  stays : (x : ChangeState) → Moves x x
  abandons : Moves opened abandoned
  reopens : Moves abandoned opened
  lands : (x : ChangeState) → Moves x landed

-- The change at the key is still there, and has moved as it may.
abbrev pub Moved : Text → Change → MemStore → Type 0
Moved k c s = (c' : Change) × (lookup k s.changes ≡ some c') × Moves c.state c'.state

pub same-Moved :
    (k : Text) (c : Change) (s s' : MemStore)
    → s'.changes ≡ s.changes
    → lookup k s.changes ≡ some c
    → Moved k c s'
same-Moved k c s s' e h = (c, ap (lookup k) e ∙ h, stays c.state)

-- Storing a change that the one at its key may move to.
save-Moved :
    (k key : Text) (c new : Change) (s : MemStore)
    → ((c0 : Change) → lookup key s.changes ≡ some c0 → Moves c0.state new.state)
    → lookup k s.changes ≡ some c
    → Moved k c (save new key s)
unfolding save
save-Moved k key c new s m h = elim (Bool-cases (text_eq key k)) [
  | inl e ↦
      let q = subst (λ (z : Text). lookup z s.changes ≡ some c) (sym ((text_eq_iff key k).0 e)) h in
      (new, lookup-put key k new s.changes ∙ rw e refl, m c q)
  | inr e ↦ (c, lookup-put key k new s.changes ∙ rw e h, stays c.state)
]

reopened-Moves : (x : ChangeState) → Moves x (reopened x)
unfolding reopened
reopened-Moves opened = stays opened
reopened-Moves landed = stays landed
reopened-Moves abandoned = reopens

pub push-Moved :
    (k : Text) (c : Change) (p : Push) (s : MemStore)
    → lookup k s.changes ≡ some c
    → Moved k c (create_or_update_change p s).1
unfolding create_or_update_change pushed_change updated
push-Moved k c p s h =
    save-Moved k p.change_key c _ s (λ c0 e. rw (e, pushed_change) (reopened-Moves c0.state)) h

-- Altering a change.
alter-Moved :
    (f : Change → Change)
    → ((c0 : Change) → Moves c0.state (f c0).state)
    → (k key : Text) (c r : Change) (s s' : MemStore) → alter f key s ≡ done (r, s')
    → lookup k s.changes ≡ some c
    → Moved k c s'
unfolding alter
alter-Moved f m k key c r s s' h l = elim (Option-cases (lookup key s.changes)) [
  | inl e ↦
      let q : ◌≡◌ {A = Answer (Change × MemStore)} no_such_change (done (r, s')) =
        rw (e, alter) at h in
      ground arith
  | inr (c0, e) ↦
      let q : ◌≡◌ {A = Answer (Change × MemStore)} (done (f c0, save (f c0) key s)) (done (r, s')) =
        rw (e, alter) at h in
      let same : save (f c0) key s ≡ s' = cc in
      subst (λ (z : MemStore). Moved k c z) same
        (save-Moved k key c (f c0) s
          (λ c1 e'.
            let one : c0 ≡ c1 = cc in subst (λ (z : Change). Moves z.state (f c0).state) one (m c0))
          l)
]

pub automerge-Moved :
    (k key : Text) (enabled : Bool) (by : Text) (c r : Change) (s s' : MemStore)
    → set_change_automerge key enabled by s ≡ done (r, s')
    → lookup k s.changes ≡ some c
    → Moved k c s'
unfolding set_change_automerge
automerge-Moved k key enabled by = alter-Moved _ (λ c0. stays c0.state) k key

pub described-Moved :
    (k key description test_plan : Text) (c r : Change) (s s' : MemStore)
    → update_change_description key description test_plan s ≡ done (r, s')
    → lookup k s.changes ≡ some c
    → Moved k c s'
unfolding update_change_description
described-Moved k key description test_plan = alter-Moved _ (λ c0. stays c0.state) k key

pub land-Moved :
    (k key landed_sha landed_by : Text) (forced : Bool) (now : ℕ) (c r : Change) (s s' : MemStore)
    → mark_change_landed key landed_sha landed_by forced now s ≡ done (r, s')
    → lookup k s.changes ≡ some c
    → Moved k c s'
unfolding mark_change_landed
land-Moved k key landed_sha landed_by forced now = alter-Moved _ (λ c0. lands c0.state) k key

abandoning :
    (x : ChangeState) (k key : Text) (c c0 r : Change) (s s' : MemStore)
    → lookup key s.changes ≡ some c0
    → c0.state ≡ x
    → abandon x c0 key s ≡ done (r, s')
    → lookup k s.changes ≡ some c
    → Moved k c s'
unfolding abandon
abandoning landed k key c c0 r s s' e x h l = ground arith
abandoning abandoned k key c c0 r s s' e x h l =
    let same : s ≡ s' = cc in subst (λ (z : MemStore). Moved k c z) same (c, l, stays c.state)
abandoning opened k key c c0 r s s' e x h l =
    let same : save (record c0 { state = abandoned }) key s ≡ s' = cc in
    subst (λ (z : MemStore). Moved k c z) same
      (save-Moved k key c (record c0 { state = abandoned }) s
        (λ c1 e'.
          let one : c0 ≡ c1 = cc in
          subst (λ (z : Change). Moves z.state abandoned) one (rw x abandons))
        l)

pub abandon-Moved :
    (k key : Text) (c r : Change) (s s' : MemStore)
    → mark_change_abandoned key s ≡ done (r, s')
    → lookup k s.changes ≡ some c
    → Moved k c s'
unfolding mark_change_abandoned
abandon-Moved k key c r s s' h l = elim (Option-cases (lookup key s.changes)) [
  | inl e ↦
      let q : ◌≡◌ {A = Answer (Change × MemStore)} no_such_change (done (r, s')) =
        rw (e, mark_change_abandoned) at h in
      ground arith
  | inr (c0, e) ↦
      let q : abandon c0.state c0 key s ≡ done (r, s') = rw (e, mark_change_abandoned) at h in
      abandoning c0.state k key c c0 r s s' e refl q l
]

-- Marking a change landed fails only where there is none, and stores what it says.
pub mark_change_landed_cases :
    (key landed_sha landed_by : Text) (forced : Bool) (now : ℕ) (s : MemStore)
    → (mark_change_landed key landed_sha landed_by forced now s ≡ no_such_change)
      ⊎ ((c : Change) × (s' : MemStore) × (mark_change_landed key landed_sha landed_by forced now s
            ≡ done (c, s'))
          × (lookup key s'.changes ≡ some c)
          × (c.state ≡ landed)
          × (c.landed_sha ≡ landed_sha)
          × (c.landed_forced ≡ forced))
unfolding mark_change_landed alter save
mark_change_landed_cases key landed_sha landed_by forced now s =
    elim (Option-cases (lookup key s.changes)) [
      | inl e ↦ inl (rw (e, mark_change_landed, alter) refl)
      | inr (c0, e) ↦
          let c = record c0 {
            state = landed;
            landed_sha = landed_sha;
            landed_by = landed_by;
            landed_forced = forced;
            landed_at = now;
          } in
          inr (
            c,
            save c key s,
            rw (e, mark_change_landed, alter) refl,
            lookup-put key key c s.changes ∙ rw ((text_eq_iff key key).1 refl) refl,
            refl,
            refl,
            refl,
          )
    ]
