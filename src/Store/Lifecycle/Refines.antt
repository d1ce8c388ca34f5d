-- ===== src/Store/Lifecycle/Refines.antt =====
-- What the store promises of the changes, with everything but their states forgotten: a map from
-- keys to states in which a call touches one key at most.
use runko.Prelude.{
  ◌≡◌, refl, sym, ap, ◌∙◌, subst, inl, inr, false, Option, none, some, [], Option-cases, Text,
  text_eq, lookup,
}
use runko.Store.Model.{ChangeState, opened, Change, MemStore}
use runko.Store.Changes.{create_or_update_change}
use runko.Store.Changes.Moves.{Moves}
use runko.Store.Changes.OneKey.{
  OnlyAt, IsKnown, push-OnlyAt, push-appears, automerge_local, described_local, abandon_local,
  land_local,
}
use runko.Store.CheckRuns.{upsert_check_run, copy_passing_check_runs}
use runko.Store.Lifecycle.{
  Step, pushed, automerge_set, described, marked_abandoned, marked_landed, approved, commented,
  comment_resolved, review_requested, check_reported, checks_copied, check_rerun, elsewhere, Steps,
  none_yet, and_then, Step-Moves, approve-same, comment-same, resolve-same, review-same, rerun-same,
}

abbrev pub View : Type 0
View = Text → Option ChangeState

state_of : Option Change → Option ChangeState
state_of none = none
state_of (some c) = some c.state

pub view : MemStore → View
unfolding state_of
view s k = state_of (lookup k s.changes)

-- What may become of the state at a key: a change appears open, and moves as a change may move.
pub data May : Option ChangeState → Option ChangeState → Type 0 where
  still : (x : Option ChangeState) → May x x
  appears : May none (some opened)
  moves : {x y : ChangeState} → Moves x y → May (some x) (some y)

-- One step of the specification, at one key.
abbrev pub SpecStep : View → View → Type 0
SpecStep v w = (k : Text) × May (v k) (w k) × ((j : Text) → text_eq k j ≡ false → w j ≡ v j)

pub data SpecSteps : View → View → Type 0 where
  spec_start : {v : View} → SpecSteps v v
  spec_then : {v w u : View} → SpecSteps v w → SpecStep w u → SpecSteps v u

view-lookup :
    (k : Text) (s : MemStore) (o : Option Change) → lookup k s.changes ≡ o → view s k ≡ state_of o
unfolding view
view-lookup k s o h = ap state_of h

same-SpecStep : (s s' : MemStore) → s'.changes ≡ s.changes → SpecStep (view s) (view s')
unfolding view
same-SpecStep s s' e =
    let all : (j : Text) → view s' j ≡ view s j = λ j. ap (λ d. state_of (lookup j d)) e in
    ([], subst (May (view s [])) (sym (all [])) (still (view s [])), λ j n. all j)

only-view :
    (key : Text) (s s' : MemStore)
    → OnlyAt key s s'
    → (j : Text) → text_eq key j ≡ false
    → view s' j ≡ view s j
unfolding view
only-view key s s' only j n = ap state_of (only j n)

-- A call at a key that the store has a change at.
known-SpecStep :
    (key : Text) (s s' : MemStore)
    → Step s s'
    → IsKnown key s × OnlyAt key s s'
    → SpecStep (view s) (view s')
unfolding state_of
known-SpecStep key s s' step ((c, l), only) =
    let (c', l', moved) = Step-Moves key c step l in
    (
      key,
      subst (λ (z : Option ChangeState). May z (view s' key)) (sym (view-lookup key s (some c) l))
          (subst (May (some c.state)) (sym (view-lookup key s' (some c') l')) (moves moved)),
      only-view key s s' only,
    )

-- Each call of the store's methods is a step of the specification.
Step-SpecStep : {s s' : MemStore} → Step s s' → SpecStep (view s) (view s')
unfolding upsert_check_run copy_passing_check_runs state_of
Step-SpecStep {s} (pushed p) =
    let s' = (create_or_update_change p s).1 in
    elim (Option-cases (lookup p.change_key s.changes)) [
      | inr known ↦ known-SpecStep p.change_key s s' (pushed p) (known, push-OnlyAt p s)
      | inl l ↦
          let (c, l', o) = push-appears p s l in
          let new : view s' p.change_key ≡ some opened =
            view-lookup p.change_key s' (some c) l' ∙ ap (λ x. some x) o in
          (
            p.change_key,
            subst (λ (z : Option ChangeState). May z (view s' p.change_key))
                (sym (view-lookup p.change_key s none l)) (subst (May none) (sym new) appears),
            only-view p.change_key s s' (push-OnlyAt p s),
          )
    ]
Step-SpecStep {s} {s'} (automerge_set key b by r e) =
    known-SpecStep key s s' (automerge_set key b by r e) (automerge_local key b by r s s' e)
Step-SpecStep {s} {s'} (described key d t r e) =
    known-SpecStep key s s' (described key d t r e) (described_local key d t r s s' e)
Step-SpecStep {s} {s'} (marked_abandoned key r e) =
    known-SpecStep key s s' (marked_abandoned key r e) (abandon_local key r s s' e)
Step-SpecStep {s} {s'} (marked_landed key sha by f now r e) =
    known-SpecStep key s s' (marked_landed key sha by f now r e)
      (land_local key sha by f now r s s' e)
Step-SpecStep {s} {s'} (approved key o by sha e) =
    same-SpecStep s s' (approve-same key o by sha s s' e)
Step-SpecStep {s} {s'} (commented key a b now e) =
    same-SpecStep s s' (comment-same key a b now s s' e)
Step-SpecStep {s} {s'} (comment_resolved key id b e) =
    same-SpecStep s s' (resolve-same key id b s s' e)
Step-SpecStep {s} {s'} (review_requested key r by now e) =
    same-SpecStep s s' (review-same key r by now s s' e)
Step-SpecStep {s} (check_reported key sha run now) =
    same-SpecStep s (upsert_check_run key sha run now s) refl
Step-SpecStep {s} (checks_copied key f t) =
    same-SpecStep s (copy_passing_check_runs key f t s).1 refl
Step-SpecStep {s} {s'} (check_rerun key name now r e) =
    same-SpecStep s s' (rerun-same key name now r s s' e)
Step-SpecStep {s} {s'} (elsewhere e) = same-SpecStep s s' e

-- With everything but the states of the changes forgotten, any calls of the store's methods are steps
-- of the specification: each leaves the state at every key but one as it is, and at that one leaves
-- it, makes a new open change, or moves the change from open to abandoned, from abandoned back to
-- open, or to landed.
pub Steps-SpecSteps : {s s' : MemStore} → Steps s s' → SpecSteps (view s) (view s')
Steps-SpecSteps none_yet = spec_start
Steps-SpecSteps (and_then rest step) = spec_then (Steps-SpecSteps rest) (Step-SpecStep step)
