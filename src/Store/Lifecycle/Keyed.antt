-- ===== src/Store/Lifecycle/Keyed.antt =====
-- Each change is stored under its own key, whatever is called.
use runko.Prelude.{refl}
use runko.Store.Model.{MemStore}
use runko.Store.Changes.Keyed.{
  IsKeyed, same-IsKeyed, push-IsKeyed, abandon-IsKeyed, automerge-IsKeyed, described-IsKeyed,
  land-IsKeyed,
}
use runko.Store.CheckRuns.{upsert_check_run, copy_passing_check_runs}
use runko.Store.Lifecycle.{
  Step, pushed, automerge_set, described, marked_abandoned, marked_landed, approved, commented,
  comment_resolved, review_requested, check_reported, checks_copied, check_rerun, elsewhere, Steps,
  none_yet, and_then, approve-same, comment-same, resolve-same, review-same, rerun-same,
}

-- Every call keeps each change under its own key.
pub Step-IsKeyed : {s s' : MemStore} → Step s s' → IsKeyed s → IsKeyed s'
unfolding upsert_check_run copy_passing_check_runs
Step-IsKeyed {s} (pushed p) keyed = push-IsKeyed p s keyed
Step-IsKeyed {s} {s'} (automerge_set key b by r e) keyed = automerge-IsKeyed key b by r s s' e keyed
Step-IsKeyed {s} {s'} (described key d t r e) keyed = described-IsKeyed key d t r s s' e keyed
Step-IsKeyed {s} {s'} (marked_abandoned key r e) keyed = abandon-IsKeyed key r s s' e keyed
Step-IsKeyed {s} {s'} (marked_landed key sha by f now r e) keyed =
    land-IsKeyed key sha by f now r s s' e keyed
Step-IsKeyed {s} {s'} (approved key o by sha e) keyed =
    same-IsKeyed s s' (approve-same key o by sha s s' e) keyed
Step-IsKeyed {s} {s'} (commented key a b now e) keyed =
    same-IsKeyed s s' (comment-same key a b now s s' e) keyed
Step-IsKeyed {s} {s'} (comment_resolved key id b e) keyed =
    same-IsKeyed s s' (resolve-same key id b s s' e) keyed
Step-IsKeyed {s} {s'} (review_requested key r by now e) keyed =
    same-IsKeyed s s' (review-same key r by now s s' e) keyed
Step-IsKeyed {s} (check_reported key sha run now) keyed =
    same-IsKeyed s (upsert_check_run key sha run now s) refl keyed
Step-IsKeyed {s} (checks_copied key f t) keyed =
    same-IsKeyed s (copy_passing_check_runs key f t s).1 refl keyed
Step-IsKeyed {s} {s'} (check_rerun key name now r e) keyed =
    same-IsKeyed s s' (rerun-same key name now r s s' e) keyed
Step-IsKeyed {s} {s'} (elsewhere e) keyed = same-IsKeyed s s' e keyed

pub Steps-IsKeyed : {s s' : MemStore} → Steps s s' → IsKeyed s → IsKeyed s'
Steps-IsKeyed none_yet keyed = keyed
Steps-IsKeyed (and_then rest step) keyed = Step-IsKeyed step (Steps-IsKeyed rest keyed)
