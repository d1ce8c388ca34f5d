-- ===== src/Daemon/LandStack.antt =====
-- runkod/landstack.go: landStackCore. Other callers act between the members: `others i` is what they
-- do to the store before member `i` is refetched, and `worlds i` is what the daemon finds outside
-- of the store then. A decision that did not stop has no stopped key.
pub mod Chain
pub mod Lands
pub mod Rounds
mod Examples
use runko.Prelude.{
  ℕ, zero, suc, Bool, true, false, not, ◌&&◌, Option, none, some, List, [], ◌∷◌, ◌++◌, map, length,
  is_empty, Text, text_eq, mem, lookup, put, if◌then◌else◌,
}
use runko.Store.Model.{ChangeState, opened, landed, abandoned, Change, MemStore}
use runko.Store.Changes.{get_change}
use runko.Store.Listings.{list_changes, same_state}
use runko.Daemon.Config.{Principal, BotLane, Server}
use runko.Daemon.Gate.{GateBlocker, merge_requirements}
use runko.Daemon.Land.{
  ApiError, invalid_state, not_mergeable, Decision, refused, decided, LandDecision, World,
  land_change_core,
}

pub record LandedMember : Type 0 where
  pub change_key : Text
  pub landed_sha : Text

-- the gate's blockers, or the message of an error
pub data StackBlocker : Type 0 where
  by_gate : GateBlocker → StackBlocker
  by_error : ApiError → StackBlocker

pub record StackDecision : Type 0 where
  pub landed_members : List LandedMember
  pub stopped_key : Option Text
  pub blockers : List StackBlocker
  pub requires_revalidation : Bool
  pub conflicts : List Text
  pub race_retry_exhausted : Bool

abbrev pub not_stopped : StackDecision
not_stopped = record {
  landed_members = [];
  stopped_key = none;
  blockers = [];
  requires_revalidation = false;
  conflicts = [];
  race_retry_exhausted = false;
}

-- byHead: the open changes by their heads, of two with one head the last
heads : List Change → List (Text × Change) → List (Text × Change)
unfolding put
heads [] m = m
heads (c ∷ cs) m = heads cs (if is_empty c.head_sha then m else put c.head_sha c m)

pub by_head : List Change → List (Text × Change)
unfolding heads
by_head open_changes = heads open_changes []

-- the parent that the walk goes on to, if there is one it has not seen
pub next_parent : List (Text × Change) → List Text → Change → Option Change
unfolding lookup mem
next_parent m seen bottom = elim (lookup bottom.base_sha m) [
  | none ↦ none
  | some parent ↦ if mem parent.change_key seen then none else some parent
]

-- the walk up the stack: the chain with its bottom first, and the bottom apart
pub climb : ℕ → List (Text × Change) → List Text → Change → List Change → List Change
unfolding next_parent
climb zero m seen bottom above = bottom ∷ above
climb (suc fuel) m seen bottom above = elim (next_parent m seen bottom) [
  | none ↦ bottom ∷ above
  | some parent ↦ climb fuel m (parent.change_key ∷ seen) parent (bottom ∷ above)
]

-- the chain through the change, on a round for each open change
unfoldable pub chain_of : MemStore → Change → List Change
unfolding by_head climb
chain_of store change =
    let open_changes = list_changes (some opened) store in
    climb (length open_changes) (by_head open_changes) (change.change_key ∷ []) change []

-- the commit of a land
pub landed_as : Decision LandDecision → Option Text
landed_as (refused e) = none
landed_as (decided d) = if d.has_landed then some d.landed_sha else none

module _ (sha256_hex : Text → Text) (s : Server) (lane : Option BotLane)
    (principal : Option Principal) where
  -- why the member was refused
  stop_blockers : World → Change → ApiError → MemStore → List StackBlocker
  stop_blockers w cur (not_mergeable blockers) store =
      elim (merge_requirements sha256_hex lane s w.repo store w.now cur) [
        | none ↦ by_error (not_mergeable blockers) ∷ []
        | some g ↦ map by_gate g.blockers
      ]
  stop_blockers w cur e store = by_error e ∷ []

  -- the decision where the sweep stops at a member
  stopped_at : World → Change → Decision LandDecision → MemStore → StackDecision
  unfolding stop_blockers
  stopped_at w cur (refused e) store = record not_stopped {
    stopped_key = some cur.change_key;
    blockers = stop_blockers w cur e store;
  }
  stopped_at w cur (decided d) store =
      if d.requires_revalidation
      then record not_stopped { stopped_key = some cur.change_key; requires_revalidation = true }
      else if not (is_empty d.conflicts)
      then record not_stopped { stopped_key = some cur.change_key; conflicts = d.conflicts }
      else record not_stopped { stopped_key = some cur.change_key; race_retry_exhausted = true }

  module _ (worlds : ℕ → World) (others : ℕ → MemStore → MemStore) where
    -- the loop over the chain
    pub sweep : ℕ → List Change → MemStore → StackDecision × MemStore
    unfolding stopped_at landed_as same_state
    sweep i [] store = (not_stopped, store)
    sweep i (member ∷ members) store =
        let store1 = others i store in
        let on = sweep (suc i) members store1 in
        elim (get_change member.change_key store1) [
          | none ↦ on
          | some cur ↦
              if same_state cur.state landed
              then on
              else (let land =
                    land_change_core sha256_hex s (worlds i) cur.change_key cur lane principal false
                      store1 in
                  let next = sweep (suc i) members land.1 in
                  elim (landed_as land.0) [
                    | none ↦ (stopped_at (worlds i) cur land.0 land.1, land.1)
                    | some sha ↦ (
                      record next.0 {
                        landed_members =
                            record { change_key = cur.change_key; landed_sha = sha }
                            ∷ next.0.landed_members;
                      },
                      next.1,
                    )
                  ])
        ]

    -- landStackCore
    unfoldable pub land_stack_core : Change → MemStore → Decision StackDecision × MemStore
    unfolding sweep same_state
    land_stack_core change store =
        if same_state change.state abandoned
        then (refused invalid_state, store)
        else (let (dec, store') = sweep 0 (chain_of store change) store in (decided dec, store'))
