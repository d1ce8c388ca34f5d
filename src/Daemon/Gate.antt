-- ===== src/Daemon/Gate.antt =====
-- runkod/api.go: mergeRequirements. The gate's answer is the aggregation of platform/checks with
-- what the daemon adds; a blocker of the daemon is the value that its message is printed from. No
-- lane is none. Reads of the store do not fail.
pub mod Names
pub mod Owners
pub mod Attention
pub mod Open
mod Examples
use runko.Prelude.{
  ℕ, Bool, true, false, not, ◌&&◌, ◌||◌, ◌==◌, leb, ltb, Option, none, some, List, [], ◌∷◌, ◌++◌,
  map, length, is_empty, any, all, keep, Text, codes, text_eq, mem, sort_texts, if◌then◌else◌,
}
use runko.Affected.Types.{Result}
use runko.Checks.Runs.{CheckRunView, is_stale}
use runko.Checks.Requirements.{
  OwnerRequirement, Blocker, MergeRequirements, compute_merge_requirements,
}
use runko.Index.Types.{IndexedProject}
use runko.Index.AutoApprove.{auto_approved_all}
use runko.Store.Model.{ChangeState, Change, Comment, MemStore}
use runko.Store.Reviews.{list_approvals, list_comments, list_review_requests}
use runko.Store.CheckRuns.{list_check_runs}
use runko.Daemon.Config.{
  BotLane, Server, merge_check_names, effective_global_checks, auto_approve_disabled,
  require_resolved_threads, agent_policy_for_author,
}
use runko.Daemon.Repo.{
  Repo, compute_affected, trunk_projects, base_on_trunk, parent_landed_on_trunk, change_with_head,
}
use runko.Daemon.Gate.Names.{required_check_names}
use runko.Daemon.Gate.Owners.{owner_requirements}
use runko.Daemon.Gate.Attention.{attention_set}

pub data GateBlocker : Type 0 where
  aggregated : Blocker → GateBlocker
  stacked_on : Text → Text → ChangeState → GateBlocker
  off_trunk : Text → GateBlocker
  unpoliced undescribed : GateBlocker
  unresolved_threads : ℕ → GateBlocker

pub record GateView : Type 0 where
  pub requirements : MergeRequirements
  pub mergeable : Bool
  pub blockers : List GateBlocker
  pub auto_approved : Bool
  pub attention : List Text

-- AgentPolicyCheckName
abbrev pub agent_policy_check_name : Text
agent_policy_check_name = codes "agent-policy"

-- autoApproveZones; a lane resolves none
pub zones_for : Option BotLane → Server → Repo → List IndexedProject
zones_for (some lane) s repo = []
zones_for none s repo = if auto_approve_disabled s then [] else trunk_projects repo

pub fully_auto : Option BotLane → Server → Repo → Result → Bool
unfolding zones_for
fully_auto (some lane) s repo result = false
fully_auto none s repo result = auto_approved_all (zones_for none s repo) result.paths

-- whether the funnel left a policy finding at the head
pub has_finding : List CheckRunView → Bool
unfolding any text_eq
has_finding = any (λ r. text_eq r.name agent_policy_check_name)

lane_checks : Option BotLane → List Text
lane_checks none = []
lane_checks (some lane) = lane.required_checks

-- every name that the gate requires
pub gate_names :
    Option BotLane → Server → Repo → Result → List IndexedProject → List CheckRunView → List Text
unfolding has_finding merge_check_names lane_checks
gate_names lane s repo result indexed runs =
    let declared =
      merge_check_names (required_check_names result indexed) (effective_global_checks s) in
    let acknowledged =
      if has_finding runs && not (fully_auto lane s repo result)
      then merge_check_names declared (agent_policy_check_name ∷ [])
      else declared in
    merge_check_names acknowledged (lane_checks lane)

-- the owners' rows; a lane has none
pub gate_owners :
    Option BotLane
    → Server
    → Repo
    → MemStore
    → Change
    → Result
    → List IndexedProject
    → List OwnerRequirement × Bool
gate_owners (some lane) s repo store change result indexed = ([], false)
gate_owners none s repo store change result indexed =
    owner_requirements change.head_sha change.authored_by
      (elim (agent_policy_for_author s store change.authored_by) [ none ↦ false | some p ↦ true ])
      (list_approvals change.change_key store) result.paths indexed (zones_for none s repo)

-- the required runs that are past their TTL
pub stale_names : List Text → ℕ → List CheckRunView → List Text
unfolding keep mem sort_texts is_stale
stale_names required now runs = sort_texts (
    map (λ r. r.name)
      (keep
        (λ r.
          mem r.name required
          && (not (r.last_seen_at == 0) && is_stale r.status r.last_seen_at r.ttl_seconds now))
        runs))

-- a base that the trunk does not have
pub stacked_blockers : Repo → MemStore → Change → List GateBlocker
stacked_blockers repo store change =
    if base_on_trunk repo change.base_sha || parent_landed_on_trunk repo store change.base_sha
    then []
    else elim (change_with_head store change.base_sha) [
      | none ↦ off_trunk change.base_sha ∷ []
      | some parent ↦ stacked_on parent.change_key parent.title parent.state ∷ []
    ]

-- no policy resolves for the change
pub is_unpoliced : Option BotLane → Server → Repo → Result → MergeRequirements → Bool
is_unpoliced (some lane) s repo result req = false
is_unpoliced none s repo result req =
    not s.allow_unpoliced_land
    && (not (fully_auto none s repo result)
        && (is_empty req.required_checks && is_empty req.required_owners))

-- unicode.IsSpace
is_space : ℕ → Bool
is_space c =
    (leb 9 c && leb c 13)
    || (c == 32
        || (c == 0x85
            || (c == 0xA0
                || (c == 0x1680
                    || ((leb 0x2000 c && leb c 0x200A)
                        || (c == 0x2028
                            || (c == 0x2029 || (c == 0x202F || (c == 0x205F || c == 0x3000)))))))))

-- strings.TrimSpace(s) == ""
pub is_blank : Text → Bool
unfolding all is_space
is_blank = all is_space

-- an agent's change that its policy wants described
pub is_undescribed : Option BotLane → Server → MemStore → Change → Bool
is_undescribed (some lane) s store change = false
is_undescribed none s store change = elim (agent_policy_for_author s store change.authored_by) [
  | none ↦ false
  | some p ↦ p.require_description && is_blank change.description
]

-- the threads that no one has resolved
pub open_threads : List Comment → ℕ
unfolding keep
open_threads comments = length (keep (λ c. is_empty c.parent_id && not c.resolved) comments)

pub thread_blockers : Option BotLane → Server → List Comment → List GateBlocker
unfolding open_threads
thread_blockers (some lane) s comments = []
thread_blockers none s comments =
    if require_resolved_threads s && ltb 0 (open_threads comments)
    then unresolved_threads (open_threads comments) ∷ []
    else []

flagged : Bool → GateBlocker → List GateBlocker
flagged b x = if b then x ∷ [] else []

-- what the daemon adds to the aggregation
pub added_blockers :
    Option BotLane
    → Server
    → Repo
    → MemStore
    → Change
    → Result
    → MergeRequirements
    → List GateBlocker
unfolding flagged
added_blockers lane s repo store change result req =
    stacked_blockers repo store change
    ++ (flagged (is_unpoliced lane s repo result req) unpoliced
        ++ (flagged (is_undescribed lane s store change) undescribed
            ++ thread_blockers lane s (list_comments change.change_key 0 0 store)))

attention_of : Option BotLane → Change → List OwnerRequirement → MemStore → List Text
attention_of (some lane) change owners store = []
attention_of none change owners store =
    attention_set change owners (list_review_requests change.change_key store)
      (list_comments change.change_key 0 0 store)

-- the aggregation of the gate's inputs
pub aggregation :
    Option BotLane
    → Server
    → Repo
    → MemStore
    → ℕ
    → Change
    → Result
    → List IndexedProject
    → MergeRequirements
aggregation lane s repo store now change result indexed =
    let runs = list_check_runs change.change_key change.head_sha store in
    let names = gate_names lane s repo result indexed runs in
    compute_merge_requirements change.change_key
      (gate_owners lane s repo store change result indexed).0 names runs []
      (stale_names names now runs) []

-- the answer, once the change's affected set is known
unfoldable pub gate_view :
    Option BotLane → Server → Repo → MemStore → ℕ → Change → Result → List IndexedProject → GateView
unfolding attention_of
gate_view lane s repo store now change result indexed =
    let req = aggregation lane s repo store now change result indexed in
    let added = added_blockers lane s repo store change result req in
    let owners = gate_owners lane s repo store change result indexed in
    record {
      requirements = req;
      mergeable = req.mergeable && is_empty added;
      blockers = map aggregated req.blockers ++ added;
      auto_approved = owners.1 || fully_auto lane s repo result;
      attention = attention_of lane change owners.0 store;
    }

-- mergeRequirements
unfoldable pub merge_requirements :
    (Text → Text) → Option BotLane → Server → Repo → MemStore → ℕ → Change → Option GateView
unfolding gate_view
merge_requirements sha256_hex lane s repo store now change =
    elim (compute_affected sha256_hex s repo change) [
      | none ↦ none
      | some (result, indexed) ↦ some (gate_view lane s repo store now change result indexed)
    ]
