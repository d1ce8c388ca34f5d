-- ===== src/Daemon/Agents/Examples.antt =====
-- A credential minted from an empty store, and revoked.
use runko.Prelude.{
  ◌<◌, ◌≤◌, ◌+◌, ◌≡◌, ◌≢◌, lookup, refl, true, false, none, some, [], ◌∷◌, arith, Text, codes,
}
use mathlib.Core.Option
use runko.Store.Model.{AgentPrincipal, MemStore, new_mem_store}
use runko.Store.Accounts.{get_agent_principal_by_name, revoke_agent_principal}
use runko.Daemon.Agents.{
  agent_max_ttl, is_agent_minter, is_task_slug, agent_as_principal, agent_by_basic, agent_by_token,
  mint_agent_core,
}
use runko.Daemon.Agents.Credentials.{
  mint_agent_core-authenticates, revoke_agent_principal-locks_out,
}
use runko.Daemon.Fixtures.{ann, test_server}

abbrev hash : Text → Text
hash t = t

abbrev row : AgentPrincipal
row = record {
  name = codes "agent-f-a";
  task = codes "f";
  token_hash = codes "x";
  created_by = codes "ann";
  created_at = 5;
  expires_at = 28805;
  revoked = false;
}

abbrev minted_store : MemStore
minted_store = record new_mem_store { agents = (codes "agent-f-a", row) ∷ [] }

mint_agent_core-authenticates_example :
    (is_agent_minter (some ann) ≡ false)
    × (is_task_slug (codes "f") ≡ true)
    × (get_agent_principal_by_name row.name new_mem_store ≡ none)
    × (5 < row.expires_at)
    × (row.expires_at ≤ 5 + agent_max_ttl)
    × (row.token_hash ≡ hash (codes "x"))
    × (agent_by_basic hash test_server 10 row.name (codes "x") minted_store
        ≡ some (agent_as_principal test_server row))
unfolding mint_agent_core runko.Store.Accounts.mint_agent_principal
mint_agent_core-authenticates_example =
    mint_agent_core-authenticates hash (λ i. some (codes "a", codes "x")) (codes "f") 0 (some ann) 5
      new_mem_store row (codes "x") minted_store test_server 10 refl (omega arith)

abbrev revoked_store : MemStore
revoked_store = record minted_store {
  agents = (codes "agent-f-a", record row { revoked = true }) ∷ [];
}

revoke_agent_principal-locks_out_example :
    (agent_by_basic hash test_server 10 row.name (codes "x") revoked_store ≡ none)
    × (Option.map (λ p. p.name) (agent_by_token hash test_server 10 (codes "x") revoked_store)
        ≢ some row.name)
unfolding revoke_agent_principal lookup
revoke_agent_principal-locks_out_example =
    revoke_agent_principal-locks_out hash test_server row.name (codes "x") (codes "x") 10
      minted_store revoked_store (refl, refl, tt) refl
