-- ===== src/Store/Changes.antt =====
-- The changes' methods: CreateOrUpdateChange, GetChange, SetChangeAutomerge,
-- UpdateChangeDescription, MarkChangeAbandoned, MarkChangeLanded.
pub mod Moves
pub mod Keyed
pub mod OneKey
use runko.Prelude.{
  ℕ, Bool, false, Option, none, some, [], is_empty, Text, lookup, put, if◌then◌else◌,
}
use runko.Store.Model.{
  ChangeState, opened, landed, abandoned, Change, MemStore, Answer, no_such_change, already_landed,
  done,
}

-- the arguments of CreateOrUpdateChange
pub record Push : Type 0 where
  pub change_key : Text
  pub base_sha : Text
  pub head_sha : Text
  pub git_ref : Text
  pub title : Text
  pub authored_by : Text
  pub origin_workspace : Text
  pub origin_branch : Text

-- s.changes[key] = c
save : Change → Text → MemStore → MemStore
save c key s = record s { changes = put key c s.changes }

-- a push reopens an abandoned change; landed stays landed
reopened : ChangeState → ChangeState
reopened abandoned = opened
reopened opened = opened
reopened landed = landed

-- what a push makes of a change that exists
updated : Push → Change → Change
unfolding reopened
updated p c = record c {
  head_sha = p.head_sha;
  git_ref = p.git_ref;
  title = p.title;
  authored_by = p.authored_by;
  base_sha = p.base_sha;
  origin_workspace = if is_empty p.origin_workspace then c.origin_workspace else p.origin_workspace;
  origin_branch = if is_empty p.origin_workspace then c.origin_branch else p.origin_branch;
  state = reopened c.state;
}

-- the change that a first push makes
created : Push → Change
created p = record {
  change_key = p.change_key;
  state = opened;
  base_sha = p.base_sha;
  head_sha = p.head_sha;
  git_ref = p.git_ref;
  title = p.title;
  description = [];
  test_plan = [];
  landed_sha = [];
  landed_at = 0;
  authored_by = p.authored_by;
  landed_by = [];
  landed_forced = false;
  origin_workspace = p.origin_workspace;
  origin_branch = p.origin_branch;
  automerge = false;
  automerge_by = [];
}

pushed_change : Push → Option Change → Change
unfolding updated created
pushed_change p (some existing) = updated p existing
pushed_change p none = created p

-- CreateOrUpdateChange
unfoldable pub create_or_update_change : Push → MemStore → Change × MemStore
unfolding pushed_change save
create_or_update_change p s =
    let c = pushed_change p (lookup p.change_key s.changes) in (c, save c p.change_key s)

-- GetChange
unfoldable pub get_change : Text → MemStore → Option Change
get_change key s = lookup key s.changes

-- store what `f` makes of the change at the key
alter : (Change → Change) → Text → MemStore → Answer (Change × MemStore)
unfolding save
alter f key s = elim (lookup key s.changes) [
  | none ↦ no_such_change
  | some c ↦ done (f c, save (f c) key s)
]

-- SetChangeAutomerge
unfoldable pub set_change_automerge : Text → Bool → Text → MemStore → Answer (Change × MemStore)
unfolding alter
set_change_automerge key enabled by =
    alter (λ c. record c { automerge = enabled; automerge_by = if enabled then by else [] }) key

-- UpdateChangeDescription
unfoldable pub update_change_description :
    Text → Text → Text → MemStore → Answer (Change × MemStore)
unfolding alter
update_change_description key description test_plan =
    alter (λ c. record c { description = description; test_plan = test_plan }) key

abandon : ChangeState → Change → Text → MemStore → Answer (Change × MemStore)
unfolding save
abandon landed c key s = already_landed
abandon abandoned c key s = done (c, s)
abandon opened c key s = let c' = record c { state = abandoned } in done (c', save c' key s)

-- MarkChangeAbandoned
unfoldable pub mark_change_abandoned : Text → MemStore → Answer (Change × MemStore)
unfolding abandon
mark_change_abandoned key s = elim (lookup key s.changes) [
  | none ↦ no_such_change
  | some c ↦ abandon c.state c key s
]

-- MarkChangeLanded
unfoldable pub mark_change_landed :
    Text → Text → Text → Bool → ℕ → MemStore → Answer (Change × MemStore)
unfolding alter
mark_change_landed key landed_sha landed_by forced now =
    alter
      (λ c. record c {
        state = landed;
        landed_sha = landed_sha;
        landed_by = landed_by;
        landed_forced = forced;
        landed_at = now;
      })
      key
