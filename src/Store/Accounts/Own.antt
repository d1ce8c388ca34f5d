-- ===== src/Store/Accounts/Own.antt =====
-- Each agent principal is stored once, under its own name: what the agents' methods keep.
use runko.Prelude.{
  ◌≡◌, refl, sym, ap, subst, ◌∙◌, inl, inr, true, false, some, none, List, [], ◌∷◌, In, arith,
  Bool-cases, Option-cases, Text, text_eq, text_eq_iff, lookup, lookup-put, put, values,
}
use runko.Store.Model.{AgentPrincipal, MemStore, Answer, name_taken, no_such_principal, done}
use runko.Store.Accounts.{
  with_token_hash, mint_agent_principal, get_agent_principal_by_token_hash, revoke_agent_principal,
}

-- Each row stands under its name, and no name stands twice.
abbrev pub IsOwn : List (Text × AgentPrincipal) → Type 0
IsOwn [] = Unit
IsOwn ((key, row) ∷ rows) = (row.name ≡ key) × (lookup key rows ≡ none) × IsOwn rows

put-IsOwn :
    (row : AgentPrincipal) (rows : List (Text × AgentPrincipal))
    → IsOwn rows
    → IsOwn (put row.name row rows)
unfolding put lookup
put-IsOwn row [] own = (refl, refl, tt)
put-IsOwn row ((key, r) ∷ rows) (named, once, own) = elim (Bool-cases (text_eq key row.name)) [
  | inl e ↦ rw e (sym ((text_eq_iff key row.name).0 e), once, own)
  | inr e ↦
      let other : text_eq row.name key ≡ false =
        ground (arith, text_eq_iff key row.name, text_eq_iff row.name key) in
      rw e (named, lookup-put row.name key row rows ∙ rw other once, put-IsOwn row rows own)
]

-- A row of the table is the one that its name finds.
pub IsOwn-lookup :
    (row : AgentPrincipal) (rows : List (Text × AgentPrincipal))
    → IsOwn rows
    → In row (values rows)
    → lookup row.name rows ≡ some row
unfolding values lookup
IsOwn-lookup row [] own i = absurd i
IsOwn-lookup row ((key, r) ∷ rows) (named, once, own) (inl same) =
    let e : key ≡ row.name = sym named ∙ ap (λ (z : AgentPrincipal). z.name) same in
    rw ((text_eq_iff key row.name).1 e, lookup) (ap some same)
IsOwn-lookup row ((key, r) ∷ rows) (named, once, own) (inr i) =
    let found = IsOwn-lookup row rows own i in
    elim (Bool-cases (text_eq key row.name)) [
      | inl e ↦
          let none_here =
            subst (λ (k : Text). lookup k rows ≡ none) ((text_eq_iff key row.name).0 e) once in
          absurd (cc)
      | inr e ↦ rw (e, lookup) found
    ]

-- The row that a name finds has that name.
lookup-IsOwn :
    (name : Text) (row : AgentPrincipal) (rows : List (Text × AgentPrincipal))
    → IsOwn rows
    → lookup name rows ≡ some row
    → row.name ≡ name
unfolding lookup
lookup-IsOwn name row [] own e = absurd (cc)
lookup-IsOwn name row ((key, r) ∷ rows) (named, once, own) e =
    elim (Bool-cases (text_eq key name)) [
      | inl t ↦
          let q : some r ≡ some row = rw (t, lookup) at e in
          let same : r ≡ row = cc in
          ap (λ (z : AgentPrincipal). z.name) (sym same) ∙ (named ∙ (text_eq_iff key name).0 t)
      | inr t ↦ lookup-IsOwn name row rows own (rw (t, lookup) at e)
    ]

with_token_hash-In :
    (hash : Text) (row : AgentPrincipal) (rows : List AgentPrincipal)
    → with_token_hash hash rows ≡ some row
    → In row rows
unfolding with_token_hash
with_token_hash-In hash row [] h = absurd (cc)
with_token_hash-In hash row (r ∷ rows) h = elim (Bool-cases (text_eq r.token_hash hash)) [
  | inl e ↦ let q : some r ≡ some row = rw (e, with_token_hash) at h in inl (cc)
  | inr e ↦ inr (with_token_hash-In hash row rows (rw (e, with_token_hash) at h))
]

-- The row that a token finds is the one that its name finds.
pub get_agent_principal_by_token_hash-lookup :
    (hash : Text) (row : AgentPrincipal) (s : MemStore)
    → IsOwn s.agents
    → get_agent_principal_by_token_hash hash s ≡ some row
    → lookup row.name s.agents ≡ some row
unfolding get_agent_principal_by_token_hash
get_agent_principal_by_token_hash-lookup hash row s own h =
    IsOwn-lookup row s.agents own (with_token_hash-In hash row (values s.agents) h)

-- Minting keeps the table.
pub mint_agent_principal-IsOwn :
    (row r : AgentPrincipal) (s s' : MemStore)
    → IsOwn s.agents
    → mint_agent_principal row s ≡ done (r, s')
    → IsOwn s'.agents
unfolding mint_agent_principal
mint_agent_principal-IsOwn row r s s' own h = elim (Option-cases (lookup row.name s.agents)) [
  | inl e ↦
      let q : ◌≡◌ {A = Answer (AgentPrincipal × MemStore)}
          (done (row, record s { agents = put row.name row s.agents })) (done (r, s')) =
        rw (e, mint_agent_principal) at h in
      let same : record s { agents = put row.name row s.agents } ≡ s' = cc in
      subst (λ (z : MemStore). IsOwn z.agents) same (put-IsOwn row s.agents own)
  | inr (taken, e) ↦
      let q : ◌≡◌ {A = Answer (AgentPrincipal × MemStore)} name_taken (done (r, s')) =
        rw (e, mint_agent_principal) at h in
      absurd (cc)
]

-- Revoking keeps the table, and leaves a revoked row under the name.
pub revoke_agent_principal-revoked :
    (name : Text) (s s' : MemStore)
    → revoke_agent_principal name s ≡ done s'
    → IsOwn s.agents
    → IsOwn s'.agents
      × ((row : AgentPrincipal) × (lookup name s'.agents ≡ some row) × (row.revoked ≡ true))
unfolding revoke_agent_principal
revoke_agent_principal-revoked name s s' h own = elim (Option-cases (lookup name s.agents)) [
  | inl e ↦ let q : no_such_principal ≡ done s' = rw (e, revoke_agent_principal) at h in absurd (cc)
  | inr (row, e) ↦
      let gone : AgentPrincipal = record row { revoked = true } in
      let q : done (record s { agents = put name gone s.agents }) ≡ done s' =
        rw (e, revoke_agent_principal) at h in
      let left_over : record s { agents = put name gone s.agents } ≡ s' = cc in
      (
        subst (λ (z : MemStore). IsOwn z.agents) left_over
            (subst (λ (k : Text). IsOwn (put k gone s.agents))
              (lookup-IsOwn name row s.agents own e) (put-IsOwn gone s.agents own)),
        (
          gone,
          ap (λ (z : MemStore). lookup name z.agents) (sym left_over)
              ∙ (lookup-put name name gone s.agents ∙ rw ((text_eq_iff name name).1 refl) refl),
          refl,
        ),
      )
]
