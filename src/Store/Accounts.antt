-- ===== src/Store/Accounts.antt =====
-- The methods of accounts and of agent principals, and AgentPrincipal.Live of agentprincipal.go.
pub mod Own
use runko.Prelude.{
  ℕ, Bool, true, not, ◌&&◌, ltb, Option, none, some, List, [], ◌∷◌, ◌++◌, Text, text_eq, lookup,
  put, values, keep, sort_by, if◌then◌else◌,
}
use runko.Store.Model.{
  AgentPrincipal, StoredPrincipal, MemStore, Answer, name_taken, no_such_principal, done,
}

-- principalKey
unfoldable pub principal_key : Text → Text → Text
principal_key org name = org ++ (0 ∷ name)

-- CreatePrincipal
unfoldable pub create_principal : Text → Text → Text → Text → MemStore → Answer MemStore
unfolding principal_key lookup put
create_principal org name credential_hash email s =
    elim (lookup (principal_key org name) s.principals) [
      | some taken ↦ name_taken
      | none ↦ done (record s {
        principals =
            put (principal_key org name)
              (record { org = org; name = name; credential_hash = credential_hash; email = email })
              s.principals;
      })
    ]

-- GetStoredPrincipal
unfoldable pub get_stored_principal : Text → Text → MemStore → Option StoredPrincipal
unfolding principal_key lookup
get_stored_principal org name s = lookup (principal_key org name) s.principals

-- ListPrincipalOrgs
unfoldable pub list_principal_orgs : Text → MemStore → List StoredPrincipal
unfolding keep values sort_by text_eq
list_principal_orgs name s =
    sort_by (λ p. p.org) (keep (λ p. text_eq p.name name) (values s.principals))

-- MintAgentPrincipal
unfoldable pub mint_agent_principal : AgentPrincipal → MemStore → Answer (AgentPrincipal × MemStore)
unfolding lookup put
mint_agent_principal ap s = elim (lookup ap.name s.agents) [
  | some taken ↦ name_taken
  | none ↦ done (ap, record s { agents = put ap.name ap s.agents })
]

-- GetAgentPrincipalByName
unfoldable pub get_agent_principal_by_name : Text → MemStore → Option AgentPrincipal
unfolding lookup
get_agent_principal_by_name name s = lookup name s.agents

pub with_token_hash : Text → List AgentPrincipal → Option AgentPrincipal
unfolding text_eq
with_token_hash hash [] = none
with_token_hash hash (ap ∷ aps) =
    if text_eq ap.token_hash hash then some ap else with_token_hash hash aps

-- GetAgentPrincipalByTokenHash
unfoldable pub get_agent_principal_by_token_hash : Text → MemStore → Option AgentPrincipal
unfolding with_token_hash values
get_agent_principal_by_token_hash hash s = with_token_hash hash (values s.agents)

-- ListAgentPrincipals
unfoldable pub list_agent_principals : MemStore → List AgentPrincipal
unfolding values sort_by
list_agent_principals s = sort_by (λ a. a.name) (values s.agents)

-- RevokeAgentPrincipal
unfoldable pub revoke_agent_principal : Text → MemStore → Answer MemStore
unfolding lookup put
revoke_agent_principal name s = elim (lookup name s.agents) [
  | none ↦ no_such_principal
  | some ap ↦ done (record s { agents = put name (record ap { revoked = true }) s.agents })
]

-- Live
unfoldable pub live : AgentPrincipal → ℕ → Bool
live ap now = not ap.revoked && ltb now ap.expires_at
