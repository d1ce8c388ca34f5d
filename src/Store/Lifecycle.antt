-- ===== src/Store/Lifecycle.antt =====
-- The life of a change across any sequence of the store's methods.
pub mod Keyed
pub mod Refines
use runko.Prelude.{
  ℕ, ◌≡◌, refl, sym, ap, inl, inr, Bool, true, false, some, arith, Option-cases, Text, lookup,
  if◌then◌else◌,
}
use runko.Store.Model.{
  ChangeState, landed, Change, Comment, MemStore, Answer, no_such_change, no_such_comment, done,
  at_key,
}
use runko.Checks.Runs.{CheckRunView}
use runko.Store.Changes.{
  Push, create_or_update_change, set_change_automerge, update_change_description,
  mark_change_abandoned, mark_change_landed,
}
use runko.Store.Changes.Moves.{
  Moves, stays, abandons, reopens, lands, Moved, same-Moved, push-Moved, automerge-Moved,
  described-Moved, abandon-Moved, land-Moved,
}
use runko.Store.Reviews.{
  resolve, record_approval, create_comment, set_comment_resolved, upsert_review_request,
}
use runko.Store.CheckRuns.{upsert_check_run, copy_passing_check_runs, rerun_check}

-- One call of a method that changes the store.
pub data Step : MemStore → MemStore → Type 0 where
  pushed : {s : MemStore} (p : Push) → Step s (create_or_update_change p s).1
  automerge_set :
      {s s' : MemStore} (key : Text) (enabled : Bool) (by : Text) (c : Change)
      → set_change_automerge key enabled by s ≡ done (c, s')
      → Step s s'
  described :
      {s s' : MemStore} (key description test_plan : Text) (c : Change)
      → update_change_description key description test_plan s ≡ done (c, s')
      → Step s s'
  marked_abandoned :
      {s s' : MemStore} (key : Text) (c : Change)
      → mark_change_abandoned key s ≡ done (c, s')
      → Step s s'
  marked_landed :
      {s s' : MemStore} (key landed_sha landed_by : Text) (forced : Bool) (now : ℕ) (c : Change)
      → mark_change_landed key landed_sha landed_by forced now s ≡ done (c, s')
      → Step s s'
  approved :
      {s s' : MemStore} (key owner_ref approved_by head_sha : Text)
      → record_approval key owner_ref approved_by head_sha s ≡ done s'
      → Step s s'
  commented :
      {s s' : MemStore} (key : Text) (c c' : Comment) (now : ℕ)
      → create_comment key c now s ≡ done (c', s')
      → Step s s'
  comment_resolved :
      {s s' : MemStore} (key : Text) (id : ℕ) (b : Bool)
      → set_comment_resolved key id b s ≡ done s'
      → Step s s'
  review_requested :
      {s s' : MemStore} (key reviewer by : Text) (now : ℕ)
      → upsert_review_request key reviewer by now s ≡ done s'
      → Step s s'
  check_reported :
      {s : MemStore} (key head_sha : Text) (run : CheckRunView) (now : ℕ)
      → Step s (upsert_check_run key head_sha run now s)
  checks_copied :
      {s : MemStore} (key from_head to_head : Text)
      → Step s (copy_passing_check_runs key from_head to_head s).1
  check_rerun :
      {s s' : MemStore} (key name : Text) (now : ℕ) (r : CheckRunView)
      → rerun_check key name now s ≡ done (r, s')
      → Step s s'
  -- any method of the other tables, which leaves the changes alone
  elsewhere : {s s' : MemStore} → s'.changes ≡ s.changes → Step s s'

-- Calls one after the other, the latest last.
pub data Steps : MemStore → MemStore → Type 0 where
  none_yet : {s : MemStore} → Steps s s
  and_then : {s t u : MemStore} → Steps s t → Step t u → Steps s u

-- What a guarded method returns.
guarded :
    {A : Type 0} (b : Bool) (x y : A) → (if b then done x else no_such_change) ≡ done y → x ≡ y
guarded true x y h = cc
guarded false x y h = ground arith

approve-same :
    (key owner_ref by sha : Text) (s s' : MemStore)
    → record_approval key owner_ref by sha s ≡ done s'
    → s'.changes ≡ s.changes
unfolding record_approval
approve-same key owner_ref by sha s s' h = sym (ap (λ (z : MemStore). z.changes) (guarded _ _ s' h))

comment-same :
    (key : Text) (c c' : Comment) (now : ℕ) (s s' : MemStore)
    → create_comment key c now s ≡ done (c', s')
    → s'.changes ≡ s.changes
unfolding create_comment
comment-same key c c' now s s' h =
    sym (ap (λ (z : Comment × MemStore). z.1.changes) (guarded _ _ (c', s') h))

resolve-same :
    (key : Text) (id : ℕ) (b : Bool) (s s' : MemStore)
    → set_comment_resolved key id b s ≡ done s'
    → s'.changes ≡ s.changes
unfolding set_comment_resolved
resolve-same key id b s s' h = elim (Option-cases (resolve id b (at_key key s.comments))) [
  | inl e ↦ let q : no_such_comment ≡ done s' = rw (e, set_comment_resolved) at h in ground arith
  | inr (cs, e) ↦
      sym (ap (λ (z : MemStore). z.changes) (guarded true _ s' (rw (e, set_comment_resolved) at h)))
]

review-same :
    (key reviewer by : Text) (now : ℕ) (s s' : MemStore)
    → upsert_review_request key reviewer by now s ≡ done s'
    → s'.changes ≡ s.changes
unfolding upsert_review_request
review-same key reviewer by now s s' h = sym (ap (λ (z : MemStore). z.changes) (guarded _ _ s' h))

rerun-same :
    (key name : Text) (now : ℕ) (r : CheckRunView) (s s' : MemStore)
    → rerun_check key name now s ≡ done (r, s')
    → s'.changes ≡ s.changes
unfolding rerun_check
rerun-same key name now r s s' h = elim (Option-cases (lookup key s.changes)) [
  | inl e ↦
      let q : ◌≡◌ {A = Answer (CheckRunView × MemStore)} no_such_change (done (r, s')) =
        rw (e, rerun_check) at h in
      ground arith
  | inr (c, e) ↦ sym (
      ap (λ (z : CheckRunView × MemStore). z.1.changes)
        (guarded true _ (r, s') (rw (e, rerun_check) at h)))
]

Step-Moved :
    {s s' : MemStore} (k : Text) (c : Change)
    → Step s s'
    → lookup k s.changes ≡ some c
    → Moved k c s'
unfolding upsert_check_run copy_passing_check_runs
Step-Moved {s} k c (pushed p) h = push-Moved k c p s h
Step-Moved {s} {s'} k c (automerge_set key b by r e) h = automerge-Moved k key b by c r s s' e h
Step-Moved {s} {s'} k c (described key d t r e) h = described-Moved k key d t c r s s' e h
Step-Moved {s} {s'} k c (marked_abandoned key r e) h = abandon-Moved k key c r s s' e h
Step-Moved {s} {s'} k c (marked_landed key sha by f now r e) h =
    land-Moved k key sha by f now c r s s' e h
Step-Moved {s} {s'} k c (approved key o by sha e) h =
    same-Moved k c s s' (approve-same key o by sha s s' e) h
Step-Moved {s} {s'} k c (commented key a b now e) h =
    same-Moved k c s s' (comment-same key a b now s s' e) h
Step-Moved {s} {s'} k c (comment_resolved key id b e) h =
    same-Moved k c s s' (resolve-same key id b s s' e) h
Step-Moved {s} {s'} k c (review_requested key r by now e) h =
    same-Moved k c s s' (review-same key r by now s s' e) h
Step-Moved {s} k c (check_reported key sha run now) h =
    same-Moved k c s (upsert_check_run key sha run now s) refl h
Step-Moved {s} k c (checks_copied key f t) h =
    same-Moved k c s (copy_passing_check_runs key f t s).1 refl h
Step-Moved {s} {s'} k c (check_rerun key name now r e) h =
    same-Moved k c s s' (rerun-same key name now r s s' e) h
Step-Moved {s} {s'} k c (elsewhere e) h = same-Moved k c s s' e h

landed-stays : {x y : ChangeState} → Moves x y → x ≡ landed → y ≡ landed
landed-stays (stays x) e = e
landed-stays abandons e = ground arith
landed-stays reopens e = ground arith
landed-stays (lands x) e = refl

-- Through any calls of the methods, a landed change stays where it is, landed: no push, no abandon
-- and no other call takes it out of that state.
pub Steps-landed :
    {s s' : MemStore} (k : Text) (c : Change)
    → Steps s s'
    → lookup k s.changes ≡ some c
    → c.state ≡ landed
    → (c' : Change) × (lookup k s'.changes ≡ some c') × (c'.state ≡ landed)
Steps-landed k c none_yet h l = (c, h, l)
Steps-landed k c (and_then rest step) h l =
    let (d, e, m) = Steps-landed k c rest h l in
    let (c', e', moved) = Step-Moved k d step e in (c', e', landed-stays moved m)

-- No call makes the store forget a change, and each call moves it as a change may move: to
-- abandoned only from open, back to open only from abandoned, and to landed.
pub Step-Moves :
    {s s' : MemStore} (k : Text) (c : Change)
    → Step s s'
    → lookup k s.changes ≡ some c
    → (c' : Change) × (lookup k s'.changes ≡ some c') × Moves c.state c'.state
Step-Moves k c step h = Step-Moved k c step h
