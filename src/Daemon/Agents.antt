-- ===== src/Daemon/Agents.antt =====
-- runkod/agentprincipal.go: mintAgentPrincipalCore, agentByBasic and agentByToken. Times are seconds;
-- a TTL that is not positive is 0. `draws` are the random suffixes and tokens in hexadecimal, none
-- where no randomness can be read.
pub mod Credentials
mod Examples
use runko.Prelude.{
  ℕ, zero, suc, ◌+◌, Bool, true, false, not, ◌&&◌, ◌||◌, ◌==◌, leb, ltb, Option, none, some, List,
  [], ◌∷◌, ◌++◌, all, length, Text, codes, text_eq, if◌then◌else◌,
}
use runko.Receive.Policy.{default_agent_policy}
use runko.Store.Model.{
  AgentPrincipal, MemStore, Answer, no_such_change, already_landed, no_such_comment,
  no_such_delivery, release_exists, name_taken, no_such_workspace, no_such_principal,
  no_such_invite, no_such_org, done,
}
use runko.Store.Accounts.{
  mint_agent_principal, get_agent_principal_by_name, get_agent_principal_by_token_hash, live,
}
use runko.Daemon.Config.{Principal, Server, agent_policy_for_or}
use runko.Daemon.Land.{
  ApiError, internal, agent_denied, invalid_task_slug, Decision, refused, decided,
}

-- agentDefaultTTL
abbrev pub agent_default_ttl : ℕ
agent_default_ttl = 28800

-- agentMaxTTL
abbrev pub agent_max_ttl : ℕ
agent_max_ttl = 604800

-- agentMintRetries
abbrev pub agent_mint_retries : ℕ
agent_mint_retries = 4

is_slug_start : ℕ → Bool
is_slug_start c = (leb 97 c && leb c 122) || (leb 48 c && leb c 57)

is_slug_rest : ℕ → Bool
unfolding is_slug_start
is_slug_rest c = is_slug_start c || c == 45

-- taskSlugPattern
pub is_task_slug : Text → Bool
unfolding is_slug_start is_slug_rest all
is_task_slug [] = false
is_task_slug (c ∷ cs) = is_slug_start c && (leb (length cs) 39 && all is_slug_rest cs)

-- the TTL, with its default and its cap
pub clamped : ℕ → ℕ
clamped zero = agent_default_ttl
clamped (suc n) = if ltb agent_max_ttl (suc n) then agent_max_ttl else suc n

creator : Option Principal → Text
creator none = []
creator (some p) = p.name

-- AgentPrincipal.principal under the org's policy
pub agent_as_principal : Server → AgentPrincipal → Principal
agent_as_principal s ap = record {
  name = ap.name;
  is_agent = true;
  admin = false;
  policy = agent_policy_for_or s default_agent_policy;
  stored = false;
}

pub is_agent_minter : Option Principal → Bool
is_agent_minter none = false
is_agent_minter (some p) = p.is_agent

module _ (sha256_hex : Text → Text) where
  -- the row of one round
  pub drawn : Text → ℕ → Option Principal → ℕ → Text → Text → AgentPrincipal
  unfolding clamped creator
  drawn task ttl minter now suffix token = record {
    name = codes "agent-" ++ (task ++ (codes "-" ++ suffix));
    task = task;
    token_hash = sha256_hex token;
    created_by = creator minter;
    created_at = now;
    expires_at = now + clamped ttl;
    revoked = false;
  }

  -- the loop: a name that is taken is drawn again
  pub mint_rounds :
      ℕ
      → ℕ
      → (ℕ → Option (Text × Text))
      → Text
      → ℕ
      → Option Principal
      → ℕ
      → MemStore
      → Decision (AgentPrincipal × Text) × MemStore
  unfolding drawn
  mint_rounds zero i draws task ttl minter now store = (refused internal, store)
  mint_rounds (suc left) i draws task ttl minter now store =
      let again = mint_rounds left (suc i) draws task ttl minter now store in
      elim (draws i) [
        | none ↦ (refused internal, store)
        | some (suffix, token) ↦
            elim (mint_agent_principal (drawn task ttl minter now suffix token) store) [
              | done (minted, store') ↦ (decided (minted, token), store')
              | _ ↦ again
            ]
      ]

  -- mintAgentPrincipalCore
  unfoldable pub mint_agent_core :
      (ℕ → Option (Text × Text))
      → Text
      → ℕ
      → Option Principal
      → ℕ
      → MemStore
      → Decision (AgentPrincipal × Text) × MemStore
  unfolding mint_rounds is_agent_minter is_task_slug
  mint_agent_core draws task ttl minter now store =
      if is_agent_minter minter
      then (refused agent_denied, store)
      else if not (is_task_slug task)
      then (refused invalid_task_slug, store)
      else mint_rounds agent_mint_retries 0 draws task ttl minter now store

  -- agentByBasic
  unfoldable pub agent_by_basic : Server → ℕ → Text → Text → MemStore → Option Principal
  unfolding live agent_as_principal
  agent_by_basic s now user pass store = elim (get_agent_principal_by_name user store) [
    | none ↦ none
    | some ap ↦
        if not (live ap now)
        then none
        else if not (text_eq (sha256_hex pass) ap.token_hash)
        then none
        else some (agent_as_principal s ap)
  ]

  -- agentByToken
  unfoldable pub agent_by_token : Server → ℕ → Text → MemStore → Option Principal
  unfolding live agent_as_principal
  agent_by_token s now token store =
      elim (get_agent_principal_by_token_hash (sha256_hex token) store) [
        | none ↦ none
        | some ap ↦ if live ap now then some (agent_as_principal s ap) else none
      ]
