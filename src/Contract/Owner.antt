-- ===== src/Contract/Owner.antt =====
-- ownerOf: the owner is a containing project with the longest root.
use runko.Prelude.{
  ℕ, suc, ◌≤◌, ◌≡◌, ap, subst, ◌≢◌, ◌⊎◌, inl, inr, Bool, true, false, ◌&&◌, Option, none, some,
  List, [], ◌∷◌, arith, leb, Bool-cases, length, In, Text,
}
use runko.Contract.{Project, root_of, contains, owner_from, owner_of}

-- `o` contains the path, and no project of the list that contains it has a longer root.
abbrev pub Longest : List Project → Text → Project → Type 0
Longest projects p o =
    In o projects
    × (contains (root_of o.path) p ≡ true)
    × ((q : Project)
        → In q projects
        → contains (root_of q.path) p ≡ true
        → length (root_of q.path) ≤ length (root_of o.path))

-- A best so far has the length that stands beside it.
abbrev Measured : Option Project → ℕ → Type 0
Measured best best_len = (o : Project) → best ≡ some o → best_len ≡ suc (length (root_of o.path))

abbrev Bounded : List Project → Text → Project → Type 0
Bounded projects p o =
    (q : Project)
    → In q projects
    → contains (root_of q.path) p ≡ true
    → length (root_of q.path) ≤ length (root_of o.path)

-- A project at the head that a bound covers.
Bounded-cons :
    (q o : Project) (qs : List Project) (p : Text)
    → (contains (root_of q.path) p ≡ true → length (root_of q.path) ≤ length (root_of o.path))
    → Bounded qs p o
    → Bounded (q ∷ qs) p o
Bounded-cons q o qs p h r q' (inl e) c =
    subst (λ (z : Project). length (root_of z.path) ≤ length (root_of o.path)) e (h (rw e c))
Bounded-cons q o qs p h r q' (inr i) c = r q' i c

taken_bound :
    (c : Bool) (best_len l m : ℕ) → (c && leb best_len l) ≡ true → suc l ≤ suc m → best_len ≤ suc m
taken_bound c best_len l m h k = ground arith

left_bound :
    (c : Bool) (best_len l m : ℕ)
    → (c && leb best_len l) ≡ false
    → c ≡ true
    → best_len ≤ suc m
    → l ≤ m
left_bound c best_len l m h k b = ground arith

owner_from-best :
    (projects : List Project) (p : Text) (best : Option Project) (best_len : ℕ) (o : Project)
    → Measured best best_len
    → owner_from projects p best best_len ≡ some o
    → ((best ≡ some o) ⊎ (In o projects × (contains (root_of o.path) p ≡ true)))
      × Bounded projects p o
      × (best_len ≤ suc (length (root_of o.path)))
unfolding owner_from
owner_from-best [] p best best_len o m h = (inl h, λ q i c. absurd i, ground (arith, m o h))
owner_from-best (q ∷ qs) p best best_len o m h =
    elim (Bool-cases (contains (root_of q.path) p && leb best_len (length (root_of q.path)))) [
      | inl e ↦
          let (l, r, b) =
            owner_from-best qs p (some q) (suc (length (root_of q.path))) o
              (λ o' k.
                let same : q ≡ o' = cc in ap (λ (z : Project). suc (length (root_of z.path))) same)
              (rw (e, owner_from) at h) in
          (
            elim l [
              | inl k ↦
                  let same : q ≡ o = cc in
                  inr (
                    inl same,
                    subst (λ (z : Project). contains (root_of z.path) p ≡ true) same (ground arith),
                  )
              | inr (i, c) ↦ inr (inr i, c)
            ],
            Bounded-cons q o qs p (λ c. omega (arith, b)) r,
            taken_bound (contains (root_of q.path) p) best_len (length (root_of q.path)) _ e b,
          )
      | inr e ↦
          let (l, r, b) = owner_from-best qs p best best_len o m (rw (e, owner_from) at h) in
          (
            elim l [ inl k ↦ inl k | inr (i, c) ↦ inr (inr i, c) ],
            Bounded-cons q o qs p
                (λ c.
                  left_bound (contains (root_of q.path) p) best_len (length (root_of q.path)) _ e c
                    b)
                r,
            b,
          )
    ]

-- The owner of a path is a project that contains it, and no project that contains it has a longer
-- root.
pub owner_of-Longest :
    (projects : List Project) (p : Text) (o : Project)
    → owner_of projects p ≡ some o
    → Longest projects p o
unfolding owner_of
owner_of-Longest projects p o h =
    let (l, r, b) = owner_from-best projects p none 0 o (λ o' k. ground arith) h in
    elim l [ inl k ↦ ground arith | inr (i, c) ↦ (i, c, r) ]

owner_from-some :
    (projects : List Project) (p : Text) (q : Project) (n : ℕ)
    → owner_from projects p (some q) n ≢ none
unfolding owner_from
owner_from-some [] p q n h = ground arith
owner_from-some (r ∷ rs) p q n h =
    elim (Bool-cases (contains (root_of r.path) p && leb n (length (root_of r.path)))) [
      | inl e ↦ owner_from-some rs p r _ (rw (e, owner_from) at h)
      | inr e ↦ owner_from-some rs p q n (rw (e, owner_from) at h)
    ]

-- A path has no owner only if no project contains it.
pub owner_of-none :
    (projects : List Project) (p : Text)
    → owner_of projects p ≡ none
    → (q : Project) → In q projects
    → contains (root_of q.path) p ≡ false
unfolding owner_of owner_from
owner_of-none [] p h q i = absurd i
owner_of-none (r ∷ rs) p h q i = elim (Bool-cases (contains (root_of r.path) p)) [
  | inl e ↦ absurd (owner_from-some rs p r (suc (length (root_of r.path))) (ground arith))
  | inr e ↦ elim i [
    | inl same ↦ subst (λ (z : Project). contains (root_of z.path) p ≡ false) same e
    | inr j ↦ owner_of-none rs p (rw (e, owner_from) at h) q j
  ]
]
