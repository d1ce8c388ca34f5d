-- ===== src/Daemon/Config.antt =====
-- runkod/principal.go, botlane.go and the settings that api.go, review.go and workspace.go resolve.
-- A principal is kept without its token. What a request reads from the directory is one record: a
-- field is none where the read fails, or where the org has no override.
use runko.Prelude.{
  Bool, true, false, Option, none, some, List, [], ◌∷◌, ◌++◌, is_empty, Text, codes, text_eq, mem,
  sort_texts, any, if◌then◌else◌,
}
use runko.Glob.{match_path}
use runko.Receive.Policy.{AgentPolicy, default_agent_policy}
use runko.Land.Revalidation.{
  RevalidationScope, conflict_only, affected_intersection, always, never, unset, other,
}
use runko.Store.Model.{OrgSettings, MemStore}
use runko.Store.Accounts.{get_agent_principal_by_name}

pub record Principal : Type 0 where
  pub name : Text
  pub is_agent : Bool
  pub admin : Bool
  pub policy : AgentPolicy
  pub stored : Bool

pub record BotLane : Type 0 where
  pub name : Text
  pub path_allowlist : List Text
  pub required_checks : List Text
  pub tag_allowlist : List Text

-- tagAllowed
pub tag_allowed : BotLane → Text → Bool
unfolding any
tag_allowed lane tag = any (λ pat. match_path pat tag) lane.tag_allowlist

-- pathsOutsideAllowlist
unfoldable pub paths_outside_allowlist : BotLane → List Text → List Text
unfolding any
paths_outside_allowlist lane [] = []
paths_outside_allowlist lane (p ∷ ps) =
    let rest = paths_outside_allowlist lane ps in
    if any (λ pat. match_path pat p) lane.path_allowlist then rest else p ∷ rest

pub record Directory : Type 0 where
  pub settings : Option OrgSettings
  pub agent_policy : Option AgentPolicy

-- the daemon's configuration; without a settings org or a directory there is no `directory`
pub record Server : Type 0 where
  pub global_required_checks : List Text
  pub root_invalidation_patterns : List Text
  pub revalidation : RevalidationScope
  pub allow_unpoliced_land : Bool
  pub single_use_agent_workspaces : Bool
  pub principals : List Principal
  pub directory : Option Directory

-- the settings, where they can be read
pub org_settings : Server → Option OrgSettings
org_settings s = elim s.directory [ none ↦ none | some d ↦ d.settings ]

-- the names that are not seen before, "" left out
unfoldable pub fresh_names : List Text → List Text → List Text
unfolding mem
fresh_names seen [] = []
fresh_names seen (n ∷ ns) =
    let left = fresh_names seen ns in
    let taken = n ∷ fresh_names (n ∷ seen) ns in
    if is_empty n then left else if mem n seen then left else taken

-- mergeCheckNames
unfoldable pub merge_check_names : List Text → List Text → List Text
unfolding fresh_names sort_texts
merge_check_names names extra =
    if is_empty extra then names else sort_texts (names ++ fresh_names names extra)

-- effectiveGlobalChecks
pub effective_global_checks : Server → List Text
unfolding org_settings merge_check_names
effective_global_checks s = elim (org_settings s) [
  | none ↦ s.global_required_checks
  | some o ↦ merge_check_names s.global_required_checks o.global_required_checks
]

-- the tiers that a stored policy may name
tier_named : Text → Option RevalidationScope
unfolding text_eq
tier_named t =
    if text_eq t (codes "conflict-only")
    then some conflict_only
    else if text_eq t (codes "affected-intersection")
    then some affected_intersection
    else if text_eq t (codes "always")
    then some always
    else none

flag_scope : RevalidationScope → RevalidationScope
flag_scope unset = conflict_only
flag_scope conflict_only = conflict_only
flag_scope affected_intersection = affected_intersection
flag_scope always = always
flag_scope never = never
flag_scope other = other

-- resolveRevalidation
unfoldable pub resolve_revalidation : Option OrgSettings → RevalidationScope → RevalidationScope
unfolding tier_named flag_scope
resolve_revalidation none flag = flag_scope flag
resolve_revalidation (some o) flag = elim (tier_named o.revalidation_policy) [
  | some scope ↦ scope
  | none ↦ flag_scope flag
]

-- effectiveRevalidationScope
unfoldable pub effective_revalidation_scope : Server → RevalidationScope
unfolding resolve_revalidation org_settings
effective_revalidation_scope s = resolve_revalidation (org_settings s) s.revalidation

-- autoApproveDisabled: settings that cannot be read disable the zones
pub auto_approve_disabled : Server → Bool
auto_approve_disabled s = elim s.directory [
  | none ↦ false
  | some d ↦ elim d.settings [ none ↦ true | some o ↦ o.disable_auto_approve ]
]

-- requireResolvedThreads: settings that cannot be read ask for nothing
pub require_resolved_threads : Server → Bool
unfolding org_settings
require_resolved_threads s = elim (org_settings s) [
  | none ↦ false
  | some o ↦ o.require_resolved_threads
]

-- agentPolicyForOr
pub agent_policy_for_or : Server → AgentPolicy → AgentPolicy
agent_policy_for_or s fallback = elim s.directory [
  | none ↦ fallback
  | some d ↦ elim d.agent_policy [ none ↦ fallback | some p ↦ p ]
]

pub principal_named : Text → List Principal → Option Principal
unfolding text_eq
principal_named name [] = none
principal_named name (p ∷ ps) = if text_eq p.name name then some p else principal_named name ps

-- agentPolicyForAuthor: the policy of an author who is an agent
unfoldable pub agent_policy_for_author : Server → MemStore → Text → Option AgentPolicy
unfolding principal_named agent_policy_for_or
agent_policy_for_author s store name =
    if is_empty name then none else elim (principal_named name s.principals) [
      | some p ↦ if p.is_agent then some (agent_policy_for_or s p.policy) else none
      | none ↦ elim (get_agent_principal_by_name name store) [
        | none ↦ none
        | some ap ↦ some (agent_policy_for_or s default_agent_policy)
      ]
    ]

-- isAgentPrincipalName
unfoldable pub is_agent_principal_name : Server → MemStore → Text → Bool
unfolding principal_named
is_agent_principal_name s store name =
    if is_empty name then false else elim (principal_named name s.principals) [
      | some p ↦ p.is_agent
      | none ↦ elim (get_agent_principal_by_name name store) [ none ↦ false | some ap ↦ true ]
    ]
