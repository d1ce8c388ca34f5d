-- ===== src/Store/Changes/OneKey.antt =====
-- Each of the changes' methods stores at one key at most.
use runko.Prelude.{
  ℕ, ◌≡◌, refl, sym, ap, ◌∙◌, inl, inr, Bool, false, none, some, Option-cases, Text, text_eq,
  text_eq_iff, lookup, lookup-put,
}
use runko.Store.Model.{
  ChangeState, opened, landed, abandoned, Change, MemStore, Answer, no_such_change, done,
}
use runko.Store.Changes.{
  Push, save, created, pushed_change, alter, abandon, create_or_update_change, set_change_automerge,
  update_change_description, mark_change_abandoned, mark_change_landed,
}

-- The changes under the other keys are what they were.
abbrev pub OnlyAt : Text → MemStore → MemStore → Type 0
OnlyAt key s s' = (j : Text) → text_eq key j ≡ false → lookup j s'.changes ≡ lookup j s.changes

abbrev pub IsKnown : Text → MemStore → Type 0
IsKnown key s = (c : Change) × (lookup key s.changes ≡ some c)

save-OnlyAt : (c : Change) (key : Text) (s : MemStore) → OnlyAt key s (save c key s)
unfolding save
save-OnlyAt c key s j n = lookup-put key j c s.changes ∙ rw n refl

same-OnlyAt : (key : Text) (s s' : MemStore) → s ≡ s' → OnlyAt key s s'
same-OnlyAt key s s' e j n = ap (λ (z : MemStore). lookup j z.changes) (sym e)

saved-OnlyAt : (c : Change) (key : Text) (s s' : MemStore) → save c key s ≡ s' → OnlyAt key s s'
saved-OnlyAt c key s s' e j n =
    ap (λ (z : MemStore). lookup j z.changes) (sym e) ∙ save-OnlyAt c key s j n

alter_local :
    (f : Change → Change) (key : Text) (c : Change) (s s' : MemStore)
    → alter f key s ≡ done (c, s')
    → IsKnown key s × OnlyAt key s s'
unfolding alter
alter_local f key c s s' h = elim (Option-cases (lookup key s.changes)) [
  | inl e ↦
      let q : ◌≡◌ {A = Answer (Change × MemStore)} no_such_change (done (c, s')) =
        rw (e, alter) at h in
      absurd (cc)
  | inr (c0, e) ↦
      let q : ◌≡◌ {A = Answer (Change × MemStore)} (done (f c0, save (f c0) key s)) (done (c, s')) =
        rw (e, alter) at h in
      ((c0, e), saved-OnlyAt (f c0) key s s' (cc))
]

abandoning-OnlyAt :
    (x : ChangeState) (key : Text) (c0 c : Change) (s s' : MemStore)
    → abandon x c0 key s ≡ done (c, s')
    → OnlyAt key s s'
unfolding abandon
abandoning-OnlyAt landed key c0 c s s' h = absurd (cc)
abandoning-OnlyAt abandoned key c0 c s s' h = same-OnlyAt key s s' (cc)
abandoning-OnlyAt opened key c0 c s s' h =
    saved-OnlyAt (record c0 { state = abandoned }) key s s' (cc)

pub abandon_local :
    (key : Text) (c : Change) (s s' : MemStore)
    → mark_change_abandoned key s ≡ done (c, s')
    → IsKnown key s × OnlyAt key s s'
unfolding mark_change_abandoned
abandon_local key c s s' h = elim (Option-cases (lookup key s.changes)) [
  | inl e ↦
      let q : ◌≡◌ {A = Answer (Change × MemStore)} no_such_change (done (c, s')) =
        rw (e, mark_change_abandoned) at h in
      absurd (cc)
  | inr (c0, e) ↦
      let q : abandon c0.state c0 key s ≡ done (c, s') = rw (e, mark_change_abandoned) at h in
      ((c0, e), abandoning-OnlyAt c0.state key c0 c s s' q)
]

pub push-OnlyAt : (p : Push) (s : MemStore) → OnlyAt p.change_key s (create_or_update_change p s).1
unfolding create_or_update_change
push-OnlyAt p s = save-OnlyAt _ p.change_key s

-- A push to a key that the store does not have makes an open change there.
pub push-appears :
    (p : Push) (s : MemStore)
    → lookup p.change_key s.changes ≡ none
    → (c : Change) × (lookup p.change_key (create_or_update_change p s).1.changes ≡ some c)
      × (c.state ≡ opened)
unfolding create_or_update_change pushed_change created save
push-appears p s h = (
  created p,
  lookup-put p.change_key p.change_key _ s.changes
      ∙ rw (h, (text_eq_iff p.change_key p.change_key).1 refl, pushed_change) refl,
  refl,
)

pub automerge_local :
    (key : Text) (enabled : Bool) (by : Text) (c : Change) (s s' : MemStore)
    → set_change_automerge key enabled by s ≡ done (c, s')
    → IsKnown key s × OnlyAt key s s'
unfolding set_change_automerge
automerge_local key enabled by c s s' = alter_local _ key c s s'

pub described_local :
    (key description test_plan : Text) (c : Change) (s s' : MemStore)
    → update_change_description key description test_plan s ≡ done (c, s')
    → IsKnown key s × OnlyAt key s s'
unfolding update_change_description
described_local key description test_plan c s s' = alter_local _ key c s s'

-- A land stores no change but the one at its key.
pub land_local :
    (key sha by : Text) (forced : Bool) (now : ℕ) (c : Change) (s s' : MemStore)
    → mark_change_landed key sha by forced now s ≡ done (c, s')
    → IsKnown key s × OnlyAt key s s'
unfolding mark_change_landed
land_local key sha by forced now c s s' = alter_local _ key c s s'
