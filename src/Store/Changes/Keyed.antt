-- ===== src/Store/Changes/Keyed.antt =====
-- Each change is stored under its own key: what the changes' methods keep.
use runko.Prelude.{
  ℕ, ◌≡◌, refl, sym, ap, ◌∙◌, subst, inl, inr, Bool, some, arith, Bool-cases, Option-cases, Text,
  text_eq, text_eq_iff, lookup, lookup-put, if◌then◌else◌,
}
use runko.Store.Model.{
  ChangeState, opened, landed, abandoned, Change, MemStore, Answer, no_such_change, done,
}
use runko.Store.Changes.{
  Push, save, updated, created, pushed_change, alter, abandon, create_or_update_change,
  set_change_automerge, update_change_description, mark_change_abandoned, mark_change_landed,
}

-- Each change is stored under its own key.
abbrev pub IsKeyed : MemStore → Type 0
IsKeyed s = (k : Text) (c : Change) → lookup k s.changes ≡ some c → c.change_key ≡ k

pub same-IsKeyed : (s s' : MemStore) → s'.changes ≡ s.changes → IsKeyed s → IsKeyed s'
same-IsKeyed s s' e keyed k c h = keyed k c (sym (ap (lookup k) e) ∙ h)

save-IsKeyed :
    (c : Change) (key : Text) (s : MemStore)
    → c.change_key ≡ key
    → IsKeyed s
    → IsKeyed (save c key s)
unfolding save
save-IsKeyed c key s own keyed k c' h = elim (Bool-cases (text_eq key k)) [
  | inl e ↦
      let at : (if text_eq key k then some c else lookup k s.changes) ≡ some c' =
        sym (lookup-put key k c s.changes) ∙ h in
      let same : c ≡ c' = ground arith in
      ap (λ (z : Change). z.change_key) (sym same) ∙ (own ∙ (text_eq_iff key k).0 e)
  | inr e ↦
      let at : (if text_eq key k then some c else lookup k s.changes) ≡ some c' =
        sym (lookup-put key k c s.changes) ∙ h in
      keyed k c' (ground arith)
]

alter-IsKeyed :
    (f : Change → Change)
    → ((c : Change) → (f c).change_key ≡ c.change_key)
    → (key : Text) (r : Change) (s s' : MemStore) → alter f key s ≡ done (r, s')
    → IsKeyed s
    → IsKeyed s'
unfolding alter
alter-IsKeyed f keeps key r s s' h keyed = elim (Option-cases (lookup key s.changes)) [
  | inl e ↦
      let q : ◌≡◌ {A = Answer (Change × MemStore)} no_such_change (done (r, s')) =
        rw (e, alter) at h in
      absurd (cc)
  | inr (c0, e) ↦
      let q : ◌≡◌ {A = Answer (Change × MemStore)} (done (f c0, save (f c0) key s)) (done (r, s')) =
        rw (e, alter) at h in
      let same : save (f c0) key s ≡ s' = cc in
      subst IsKeyed same (save-IsKeyed (f c0) key s (keeps c0 ∙ keyed key c0 e) keyed)
]

abandoning-IsKeyed :
    (x : ChangeState) (key : Text) (c0 r : Change) (s s' : MemStore)
    → lookup key s.changes ≡ some c0
    → abandon x c0 key s ≡ done (r, s')
    → IsKeyed s
    → IsKeyed s'
unfolding abandon
abandoning-IsKeyed landed key c0 r s s' e h keyed = absurd (cc)
abandoning-IsKeyed abandoned key c0 r s s' e h keyed =
    let same : s ≡ s' = cc in subst IsKeyed same keyed
abandoning-IsKeyed opened key c0 r s s' e h keyed =
    let same : save (record c0 { state = abandoned }) key s ≡ s' = cc in
    subst IsKeyed same (save-IsKeyed (record c0 { state = abandoned }) key s (keyed key c0 e) keyed)

pub abandon-IsKeyed :
    (key : Text) (r : Change) (s s' : MemStore)
    → mark_change_abandoned key s ≡ done (r, s')
    → IsKeyed s
    → IsKeyed s'
unfolding mark_change_abandoned
abandon-IsKeyed key r s s' h keyed = elim (Option-cases (lookup key s.changes)) [
  | inl e ↦
      let q : ◌≡◌ {A = Answer (Change × MemStore)} no_such_change (done (r, s')) =
        rw (e, mark_change_abandoned) at h in
      absurd (cc)
  | inr (c0, e) ↦
      let q : abandon c0.state c0 key s ≡ done (r, s') = rw (e, mark_change_abandoned) at h in
      abandoning-IsKeyed c0.state key c0 r s s' e q keyed
]

pub push-IsKeyed : (p : Push) (s : MemStore) → IsKeyed s → IsKeyed (create_or_update_change p s).1
unfolding create_or_update_change pushed_change updated created
push-IsKeyed p s keyed = elim (Option-cases (lookup p.change_key s.changes)) [
  | inl e ↦ save-IsKeyed _ p.change_key s (rw (e, pushed_change) refl) keyed
  | inr (c, e) ↦
      save-IsKeyed _ p.change_key s (rw (e, pushed_change) (keyed p.change_key c e)) keyed
]

pub automerge-IsKeyed :
    (key : Text) (enabled : Bool) (by : Text) (r : Change) (s s' : MemStore)
    → set_change_automerge key enabled by s ≡ done (r, s')
    → IsKeyed s
    → IsKeyed s'
unfolding set_change_automerge
automerge-IsKeyed key enabled by r s s' = alter-IsKeyed _ (λ c. refl) key r s s'

pub described-IsKeyed :
    (key description test_plan : Text) (r : Change) (s s' : MemStore)
    → update_change_description key description test_plan s ≡ done (r, s')
    → IsKeyed s
    → IsKeyed s'
unfolding update_change_description
described-IsKeyed key description test_plan r s s' = alter-IsKeyed _ (λ c. refl) key r s s'

pub land-IsKeyed :
    (key sha by : Text) (forced : Bool) (now : ℕ) (r : Change) (s s' : MemStore)
    → mark_change_landed key sha by forced now s ≡ done (r, s')
    → IsKeyed s
    → IsKeyed s'
unfolding mark_change_landed
land-IsKeyed key sha by forced now r s s' = alter-IsKeyed _ (λ c. refl) key r s s'
