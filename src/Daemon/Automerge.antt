-- ===== src/Daemon/Automerge.antt =====
-- runkod/automerge.go: SweepOnce. Other callers act before each member: `others i` is what they do
-- to the store then, and `worlds i` is what the daemon finds outside of it. The set of attempts is
-- the list of its keys.
pub mod Touches
mod Examples
use runko.Prelude.{
  ℕ, suc, Bool, true, false, not, ◌&&◌, ◌||◌, ltb, Option, none, some, List, [], ◌∷◌, ◌++◌, length,
  is_empty, Text, codes, mem, if◌then◌else◌,
}
use runko.Receive.Policy.{AgentPolicy}
use runko.Store.Model.{ChangeState, opened, Change, MemStore}
use runko.Store.Listings.{list_changes}
use runko.Daemon.Config.{Principal, BotLane, Server}
use runko.Daemon.Gate.{GateView, merge_requirements}
use runko.Daemon.Land.{Decision, refused, decided, LandDecision, World, land_change_core}

abbrev zero_policy : AgentPolicy
zero_policy = record {
  require_workspace_affinity = false;
  require_description = false;
  max_changed_files = 0;
  max_diff_bytes = 0;
  can_create_projects = false;
  can_land_changes = false;
  can_modify_owners = false;
  can_enable_capabilities = [];
  denylist_paths = [];
}

-- the principal that a change lands as: who armed it
pub armer : Change → Principal
armer change = record {
  name = change.automerge_by;
  is_agent = false;
  admin = false;
  policy = zero_policy;
  stored = true;
}

-- trunkTip
pub tip_text : Option Text → Text
tip_text none = []
tip_text (some tip) = tip

pub attempt_key : Change → Text → Text
attempt_key change tip = change.change_key ++ (codes "|" ++ (change.head_sha ++ (codes "|" ++ tip)))

-- the attempts after one: those that need a push again are remembered, the frontier only past 512
pub remember : Decision LandDecision → Text → List Text → List Text
remember (refused e) key attempted = attempted
remember (decided d) key attempted =
    if d.has_landed
    then attempted
    else if d.requires_revalidation || not (is_empty d.conflicts)
    then if ltb 512 (length (key ∷ attempted)) then key ∷ [] else key ∷ attempted
    else attempted

module _ (sha256_hex : Text → Text) (s : Server) where
  -- the land of a change that is ready
  pub land_ready :
      World → Text → Change → List Text → Option GateView → MemStore → List Text × MemStore
  unfolding armer remember
  land_ready w key change attempted none store = (attempted, store)
  land_ready w key change attempted (some g) store =
      if not g.mergeable
      then (attempted, store)
      else (let land =
            land_change_core sha256_hex s w change.change_key change none (some (armer change))
              false store in
          (remember land.0 key attempted, land.1))

  -- one round of the loop
  pub sweep_one : World → Text → Change → List Text → MemStore → List Text × MemStore
  unfolding land_ready attempt_key mem
  sweep_one w tip change attempted store =
      if not change.automerge
      then (attempted, store)
      else if mem (attempt_key change tip) attempted
      then (attempted, store)
      else land_ready w (attempt_key change tip) change attempted
          (merge_requirements sha256_hex none s w.repo store w.now change) store

  module _ (worlds : ℕ → World) (others : ℕ → MemStore → MemStore) where
    pub sweep_rest : ℕ → Text → List Change → List Text → MemStore → List Text × MemStore
    unfolding sweep_one
    sweep_rest i tip [] attempted store = (attempted, store)
    sweep_rest i tip (change ∷ changes) attempted store =
        let one = sweep_one (worlds i) tip change attempted (others i store) in
        sweep_rest (suc i) tip changes one.0 one.1

    -- SweepOnce, over the trunk's tip as it is read first
    unfoldable pub sweep_once : Option Text → List Text → MemStore → List Text × MemStore
    unfolding sweep_rest tip_text
    sweep_once trunk_tip attempted store =
        sweep_rest 0 (tip_text trunk_tip) (list_changes (some opened) store) attempted store
