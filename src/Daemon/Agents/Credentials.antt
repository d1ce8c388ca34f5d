-- ===== src/Daemon/Agents/Credentials.antt =====
-- What a minted credential is good for, and that a revoked one is good for nothing.
use runko.Prelude.{
  ℕ, zero, suc, ◌≢◌, ◌+◌, ◌<◌, ◌≤◌, ◌≡◌, refl, sym, ap, subst, ◌∙◌, ◌⊎◌, inl, inr, Bool, true,
  false, not, Option, none, some, arith, Bool-cases, Option-cases, Text, text_eq, text_eq_iff,
  lookup, put, lookup-put, if◌then◌else◌,
}
use mathlib.Core.Option
use runko.Store.Model.{AgentPrincipal, MemStore, name_taken, done}
use runko.Store.Accounts.{
  mint_agent_principal, get_agent_principal_by_name, get_agent_principal_by_token_hash,
  revoke_agent_principal, live,
}
use runko.Store.Accounts.Own.{
  IsOwn, get_agent_principal_by_token_hash-lookup, revoke_agent_principal-revoked,
}
use runko.Daemon.Config.{Principal, Server}
use runko.Daemon.Land.{internal, agent_denied, invalid_task_slug, Decision, refused, decided}
use runko.Daemon.Agents.{
  agent_max_ttl, is_task_slug, clamped, is_agent_minter, agent_as_principal, drawn, mint_rounds,
  mint_agent_core, agent_by_basic, agent_by_token, agent_mint_retries,
}

clamped-bounds : (ttl : ℕ) → (0 < clamped ttl) × (clamped ttl ≤ agent_max_ttl)
unfolding clamped
clamped-bounds zero = (omega arith, omega arith)
clamped-bounds (suc n) = (ground arith, ground arith)

-- Both tests passed.
opens :
    {A : Type 0} (b c : Bool) (x : A)
    → b ≡ true
    → c ≡ true
    → ◌≡◌ {A = Option A} (if not b then none else if not c then none else some x) (some x)
opens true true x h k = refl
opens true false x h k = absurd (cc)
opens false c x h k = absurd (cc)

mint_agent_principal_cases :
    (row : AgentPrincipal) (store : MemStore)
    → (mint_agent_principal row store ≡ name_taken)
      ⊎ ((lookup row.name store.agents ≡ none)
          × (mint_agent_principal row store
              ≡ done (row, record store { agents = put row.name row store.agents })))
unfolding mint_agent_principal
mint_agent_principal_cases row store = elim (Option-cases (lookup row.name store.agents)) [
  | inl e ↦ inr (e, rw (e, mint_agent_principal) refl)
  | inr (taken, e) ↦ inl (rw (e, mint_agent_principal) refl)
]

module _ (sha256_hex : Text → Text) (draws : ℕ → Option (Text × Text)) (task : Text) (ttl : ℕ)
    (minter : Option Principal) (now : ℕ) (store : MemStore) (row : AgentPrincipal) (token : Text)
    (store' : MemStore) where
  -- The row is one that was drawn, under a name that was free, and is now stored.
  abbrev Minted : Type 0
  Minted =
      ((suffix : Text) × (drawn sha256_hex task ttl minter now suffix token ≡ row))
      × (lookup row.name store.agents ≡ none)
      × (record store { agents = put row.name row store.agents } ≡ store')

  mint_rounds-Minted :
      (left i : ℕ)
      → mint_rounds sha256_hex left i draws task ttl minter now store
        ≡ (decided (row, token), store')
      → Minted
  unfolding mint_rounds
  mint_rounds-Minted zero i h = absurd (cc)
  mint_rounds-Minted (suc left) i h = elim (Option-cases (draws i)) [
    | inl e ↦
        let q : ◌≡◌ {A = Decision (AgentPrincipal × Text) × MemStore} (refused internal, store)
            (decided (row, token), store') =
          rw (e, mint_rounds) at h in
        absurd (cc)
    | inr (pair, e) ↦
        let new = drawn sha256_hex task ttl minter now pair.0 pair.1 in
        elim (mint_agent_principal_cases new store) [
          | inl m ↦ mint_rounds-Minted left (suc i) (rw (e, m, mint_rounds) at h)
          | inr (free, m) ↦
              let q : ◌≡◌ {A = Decision (AgentPrincipal × Text) × MemStore}
                  (decided (new, pair.1), record store { agents = put new.name new store.agents })
                  (decided (row, token), store') =
                rw (e, m, mint_rounds) at h in
              let one : new ≡ row = cc in
              let two : pair.1 ≡ token = cc in
              let left_over : record store { agents = put new.name new store.agents } ≡ store' =
                cc in
              (
                (pair.0, ap (drawn sha256_hex task ttl minter now pair.0) (sym two) ∙ one),
                subst (λ (z : AgentPrincipal). lookup z.name store.agents ≡ none) one free,
                subst
                    (λ (z : AgentPrincipal).
                      record store { agents = put z.name z store.agents } ≡ store')
                    one left_over,
              )
        ]
  ]

  -- A credential that is minted was not asked for by an agent and has a well-formed task; its name was
  -- free, it outlives the moment and no more than seven days, only the token's hash is kept; and with
  -- its name and token it authenticates as an agent at any time before it expires.
  pub mint_agent_core-authenticates :
      (s : Server) (t : ℕ)
      → mint_agent_core sha256_hex draws task ttl minter now store ≡ (decided (row, token), store')
      → t < row.expires_at
      → (is_agent_minter minter ≡ false)
        × (is_task_slug task ≡ true)
        × (get_agent_principal_by_name row.name store ≡ none)
        × (now < row.expires_at)
        × (row.expires_at ≤ now + agent_max_ttl)
        × (row.token_hash ≡ sha256_hex token)
        × (agent_by_basic sha256_hex s t row.name token store' ≡ some (agent_as_principal s row))
  unfolding mint_agent_core get_agent_principal_by_name agent_by_basic live drawn
  mint_agent_core-authenticates s t h early = elim (Bool-cases (is_agent_minter minter)) [
    | inl e ↦
        let q : ◌≡◌ {A = Decision (AgentPrincipal × Text) × MemStore} (refused agent_denied, store)
            (decided (row, token), store') =
          rw (e, mint_agent_core) at h in
        absurd (cc)
    | inr e ↦ elim (Bool-cases (is_task_slug task)) [
      | inr f ↦
          let q : ◌≡◌ {A = Decision (AgentPrincipal × Text) × MemStore}
              (refused invalid_task_slug, store) (decided (row, token), store') =
            rw (e, f, mint_agent_core) at h in
          absurd (cc)
      | inl f ↦
          let (made, free, left_over) =
            mint_rounds-Minted agent_mint_retries 0 (rw (e, f, mint_agent_core) at h) in
          let (suffix, same) = made in
          let (short, capped) = clamped-bounds ttl in
          let expires : now + clamped ttl ≡ row.expires_at =
            ap (λ (z : AgentPrincipal). z.expires_at) same in
          let hash : sha256_hex token ≡ row.token_hash =
            ap (λ (z : AgentPrincipal). z.token_hash) same in
          let fresh : false ≡ row.revoked = ap (λ (z : AgentPrincipal). z.revoked) same in
          let found : lookup row.name store'.agents ≡ some row =
            ap (λ (z : MemStore). lookup row.name z.agents) (sym left_over)
            ∙ (lookup-put row.name row.name row store.agents
                ∙ rw ((text_eq_iff row.name row.name).1 refl) refl) in
          (
            e,
            f,
            free,
            omega arith,
            omega arith,
            sym hash,
            rw (found, agent_by_basic)
                (opens (live row t) (text_eq (sha256_hex token) row.token_hash)
                  (agent_as_principal s row) (ground (arith, fresh, early))
                  ((text_eq_iff (sha256_hex token) row.token_hash).1 hash)),
          )
    ]
  ]

-- Where each agent is stored once, under its own name: once a name is revoked, its credential
-- authenticates nobody. The name does not with any password, and no bearer token resolves to an
-- agent of that name, at no time.
pub revoke_agent_principal-locks_out :
    (sha256_hex : Text → Text) (s : Server) (name pass token : Text) (t : ℕ)
    (store store' : MemStore)
    → IsOwn store.agents
    → revoke_agent_principal name store ≡ done store'
    → (agent_by_basic sha256_hex s t name pass store' ≡ none)
      × (Option.map (λ p. p.name) (agent_by_token sha256_hex s t token store') ≢ some name)
unfolding agent_by_basic agent_by_token get_agent_principal_by_name live
revoke_agent_principal-locks_out sha256_hex s name pass token t store store' own h =
    let (own', (gone, found, revoked)) = revoke_agent_principal-revoked name store store' h own in
    (
      rw (found, revoked, agent_by_basic) refl,
      λ q. elim (Option-cases (get_agent_principal_by_token_hash (sha256_hex token) store')) [
        | inl e ↦
            let k : ◌≡◌ {A = Option Text} none (some name) = rw (e, agent_by_token) at q in
            absurd (cc)
        | inr (row, e) ↦
            let at =
              get_agent_principal_by_token_hash-lookup (sha256_hex token) row store' own' e in
            elim (Bool-cases (live row t)) [
              | inr dead ↦
                  let k : ◌≡◌ {A = Option Text} none (some name) =
                    rw (e, dead, agent_by_token) at q in
                  absurd (cc)
              | inl alive ↦
                  let k : some row.name ≡ some name = rw (e, alive, agent_by_token) at q in
                  let here : row.name ≡ name = cc in
                  let there = subst (λ (z : Text). lookup z store'.agents ≡ some row) here at in
                  let same : gone ≡ row = cc in
                  let off : row.revoked ≡ true =
                    subst (λ (z : AgentPrincipal). z.revoked ≡ true) same revoked in
                  ground arith
            ]
      ],
    )
