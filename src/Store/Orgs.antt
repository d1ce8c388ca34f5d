-- ===== src/Store/Orgs.antt =====
-- The directory's methods of MemStore: organisations, their members, settings and agent policies.
use runko.Prelude.{
  Bool, false, Option, none, some, List, [], ◌∷◌, ◌++◌, map, Text, lookup, put, remove, sort_by,
  if◌then◌else◌,
}
use runko.Receive.Policy.{AgentPolicy}
use runko.Store.Model.{OrgSettings, MemStore, Answer, no_such_org, done, at_key}

pub record OrgMember : Type 0 where
  pub name : Text
  pub role : Text

pub record OrgMembership : Type 0 where
  pub org : Text
  pub role : Text

pub record OrgRecord : Type 0 where
  pub name : Text
  pub archived : Bool

-- EnsureOrg
unfoldable pub ensure_org : Text → MemStore → MemStore
unfolding lookup put
ensure_org name s = elim (lookup name s.org_members) [
  | some members ↦ s
  | none ↦ record s {
    org_members = put name [] s.org_members;
    org_names = s.org_names ++ name ∷ [];
  }
]

-- OrgMemberRole
unfoldable pub org_member_role : Text → Text → MemStore → Option Text
unfolding lookup
org_member_role org principal s = lookup principal (at_key org s.org_members)

-- UpsertOrgMember
unfoldable pub upsert_org_member : Text → Text → Text → MemStore → Answer MemStore
unfolding lookup put
upsert_org_member org principal role s = elim (lookup org s.org_members) [
  | none ↦ no_such_org
  | some members ↦
      done (record s { org_members = put org (put principal role members) s.org_members })
]

-- s.orgArchived[org]: a missing key reads as false
unfoldable pub is_archived : Text → MemStore → Bool
unfolding lookup
is_archived org s = elim (lookup org s.org_archived) [ none ↦ false | some b ↦ b ]

memberships : Text → MemStore → List Text → List OrgMembership
unfolding is_archived org_member_role
memberships principal s [] = []
memberships principal s (org ∷ orgs) =
    let rest = memberships principal s orgs in
    if is_archived org s then rest else elim (org_member_role org principal s) [
      | none ↦ rest
      | some role ↦ record { org = org; role = role } ∷ rest
    ]

-- ListOrgMemberships
unfoldable pub list_org_memberships : Text → MemStore → List OrgMembership
unfolding memberships
list_org_memberships principal s = memberships principal s s.org_names

-- ListOrgRecords
unfoldable pub list_org_records : MemStore → List OrgRecord
unfolding is_archived
list_org_records s = map (λ n. record { name = n; archived = is_archived n s }) s.org_names

-- SetOrgArchived
unfoldable pub set_org_archived : Text → Bool → MemStore → MemStore
unfolding put
set_org_archived org archived s = record s { org_archived = put org archived s.org_archived }

-- RemoveOrgMember: deleting from a nil map does nothing
unfoldable pub remove_org_member : Text → Text → MemStore → MemStore
unfolding lookup put remove
remove_org_member org principal s = elim (lookup org s.org_members) [
  | none ↦ s
  | some members ↦ record s { org_members = put org (remove principal members) s.org_members }
]

members_of : List (Text × Text) → List OrgMember
members_of [] = []
members_of ((name, role) ∷ ms) = record { name = name; role = role } ∷ members_of ms

-- ListOrgMembers
unfoldable pub list_org_members : Text → MemStore → List OrgMember
unfolding members_of sort_by
list_org_members org s = sort_by (λ m. m.name) (members_of (at_key org s.org_members))

abbrev pub zero_settings : OrgSettings
zero_settings = record {
  global_required_checks = [];
  revalidation_policy = [];
  public_read = false;
  require_resolved_threads = false;
  enforce_tag_policy = false;
  disable_auto_approve = false;
}

-- GetOrgSettings: the zero value for an unknown org
unfoldable pub get_org_settings : Text → MemStore → OrgSettings
unfolding lookup
get_org_settings org s = elim (lookup org s.org_settings) [ none ↦ zero_settings | some o ↦ o ]

-- UpdateOrgSettings
unfoldable pub update_org_settings : Text → OrgSettings → MemStore → MemStore
unfolding put
update_org_settings org settings s = record s { org_settings = put org settings s.org_settings }

-- agentPolicyKey
unfoldable pub agent_policy_key : Text → Text → Text
agent_policy_key org name = org ++ (0 ∷ name)

-- GetAgentPolicy
unfoldable pub get_agent_policy : Text → Text → MemStore → Option AgentPolicy
unfolding agent_policy_key lookup
get_agent_policy org name s = lookup (agent_policy_key org name) s.agent_policies

-- SetAgentPolicy
unfoldable pub set_agent_policy : Text → Text → AgentPolicy → MemStore → MemStore
unfolding agent_policy_key put
set_agent_policy org name p s = record s {
  agent_policies = put (agent_policy_key org name) p s.agent_policies;
}

-- DeleteAgentPolicy
unfoldable pub delete_agent_policy : Text → Text → MemStore → MemStore
unfolding agent_policy_key remove
delete_agent_policy org name s = record s {
  agent_policies = remove (agent_policy_key org name) s.agent_policies;
}
