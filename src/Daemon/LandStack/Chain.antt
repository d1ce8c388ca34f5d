-- ===== src/Daemon/LandStack/Chain.antt =====
-- The chain that a stack is landed along: how its members hang together, and where its walk ends.
use runko.Prelude.{
  ℕ, zero, suc, ◌≤◌, ◌<◌, ◌≡◌, refl, sym, ap, subst, ◌∙◌, ◌⊎◌, inl, inr, true, false, some, List,
  [], ◌∷◌, In, In-keep, In-sort_with, arith, is_empty, length, map, Bool-cases, Option-cases, Text,
  text_eq, text_eq_iff, mem, lookup, lookup-put, put, values, if◌then◌else◌,
}
use runko.Store.Model.{ChangeState, opened, landed, abandoned, Change, MemStore}
use runko.Store.Listings.{list_changes, same_state}
use runko.Daemon.LandStack.{heads, by_head, next_parent, climb, chain_of}

-- Each member hangs on the head of the open change below it, up to the change at the top.
pub data Linked (top : Change) : List Change → Type 0 where
  top_alone : Linked top (top ∷ [])
  hung :
      (p c : Change) (rest : List Change)
      → p.head_sha ≡ c.base_sha
      → p.state ≡ opened
      → Linked top (c ∷ rest)
      → Linked top (p ∷ c ∷ rest)

heads-lookup :
    (cs : List Change) (m : List (Text × Change)) (k : Text) (p : Change)
    → lookup k (heads cs m) ≡ some p
    → (In p cs × (p.head_sha ≡ k)) ⊎ (lookup k m ≡ some p)
unfolding heads
heads-lookup [] m k p h = inr h
heads-lookup (c ∷ cs) m k p h = elim (Bool-cases (is_empty c.head_sha)) [
  | inl e ↦ elim (heads-lookup cs m k p (rw (e, heads) at h)) [
    | inl (i, q) ↦ inl (inr i, q)
    | inr l ↦ inr l
  ]
  | inr e ↦ elim (heads-lookup cs (put c.head_sha c m) k p (rw (e, heads) at h)) [
    | inl (i, q) ↦ inl (inr i, q)
    | inr l ↦
        let at : (if text_eq c.head_sha k then some c else lookup k m) ≡ some p =
          sym (lookup-put c.head_sha k c m) ∙ l in
        elim (Bool-cases (text_eq c.head_sha k)) [
          | inl t ↦
              let one : c ≡ p = ground arith in
              inl (
                inl one,
                ap (λ (z : Change). z.head_sha) (sym one) ∙ (text_eq_iff c.head_sha k).0 t,
              )
          | inr t ↦ inr (ground arith)
        ]
  ]
]

-- how many of the changes are not seen yet
unseen : List Text → List Change → ℕ
unfolding mem
unseen seen [] = 0
unseen seen (c ∷ cs) = let rest = unseen seen cs in if mem c.change_key seen then rest else suc rest

unseen-length : (seen : List Text) (cs : List Change) → unseen seen cs ≤ length cs
unfolding unseen
unseen-length seen [] = ground arith
unseen-length seen (c ∷ cs) = ground (arith, unseen-length seen cs)

unseen-more :
    (k : Text) (seen : List Text) (cs : List Change) → unseen (k ∷ seen) cs ≤ unseen seen cs
unfolding unseen mem
unseen-more k seen [] = ground arith
unseen-more k seen (c ∷ cs) = ground (arith, unseen-more k seen cs)

unseen-fewer :
    (p : Change) (seen : List Text) (cs : List Change)
    → In p cs
    → mem p.change_key seen ≡ false
    → unseen (p.change_key ∷ seen) cs < unseen seen cs
unfolding unseen mem
unseen-fewer p seen [] i h = elim i [ ]
unseen-fewer p seen (c ∷ cs) (inl same) h =
    let own = (text_eq_iff p.change_key p.change_key).1 refl in
    subst (λ (z : Change). unseen (p.change_key ∷ seen) (z ∷ cs) < unseen seen (z ∷ cs)) (sym same)
      (ground (arith, unseen-more p.change_key seen cs))
unseen-fewer p seen (c ∷ cs) (inr i) h = ground (arith, unseen-fewer p seen cs i h)

-- the walk that has ended at the bottom of the chain: what the bottom hangs on is not open, or is
-- in the chain
abbrev Ended : List (Text × Change) → List Change → Type 0
Ended m chain =
    (bottom : Change) × (rest : List Change) × (chain ≡ bottom ∷ rest)
    × ((p : Change)
        → lookup bottom.base_sha m ≡ some p
        → mem p.change_key (map (λ (c : Change). c.change_key) chain) ≡ true)

module _ (m : List (Text × Change)) (cs : List Change)
    (known : (k : Text) (p : Change) → lookup k m ≡ some p → In p cs) where
  -- the names seen are those of the chain
  abbrev Covers : List Change → List Text → Type 0
  Covers chain seen =
      (k : Text) → mem k seen ≡ true → mem k (map (λ (c : Change). c.change_key) chain) ≡ true

  Covers-more :
      (p : Change) (chain : List Change) (seen : List Text)
      → Covers chain seen
      → Covers (p ∷ chain) (p.change_key ∷ seen)
  unfolding mem
  Covers-more p chain seen cover k h = ground (arith, cover k)

  climb-Ended :
      (fuel : ℕ) (seen : List Text) (bottom : Change) (above : List Change)
      → unseen seen cs ≤ fuel
      → Covers (bottom ∷ above) seen
      → Ended m (climb fuel m seen bottom above)
  unfolding climb next_parent
  climb-Ended zero seen bottom above enough cover = (
    bottom,
    above,
    refl,
    λ p e. elim (Bool-cases (mem p.change_key seen)) [
      | inl s ↦ cover p.change_key s
      | inr s ↦ absurd (ground (arith, unseen-fewer p seen cs (known bottom.base_sha p e) s))
    ],
  )
  climb-Ended (suc fuel) seen bottom above enough cover =
      elim (Option-cases (lookup bottom.base_sha m)) [
        | inl e ↦ rw (e, climb) ((bottom, above, refl, λ p l. absurd (cc)))
        | inr (p, e) ↦ elim (Bool-cases (mem p.change_key seen)) [
          | inl s ↦
              rw (e, s, climb)
                ((
                  bottom,
                  above,
                  refl,
                  λ q l.
                      let same : p ≡ q = cc in
                      subst
                        (λ (z : Change).
                          mem z.change_key (map (λ (c : Change). c.change_key) (bottom ∷ above))
                          ≡ true)
                        same (cover p.change_key s),
                ))
          | inr s ↦
              rw (e, s, climb)
                (climb-Ended fuel (p.change_key ∷ seen) p (bottom ∷ above)
                  (ground (arith, unseen-fewer p seen cs (known bottom.base_sha p e) s))
                  (Covers-more p (bottom ∷ above) seen cover))
        ]
      ]

  climb-Linked :
      (top : Change)
      → ((k : Text) (p : Change) → lookup k m ≡ some p → (p.head_sha ≡ k) × (p.state ≡ opened))
      → (fuel : ℕ) (seen : List Text) (bottom : Change) (above : List Change)
      → Linked top (bottom ∷ above)
      → Linked top (climb fuel m seen bottom above)
  unfolding climb next_parent
  climb-Linked top heads_of zero seen bottom above linked = linked
  climb-Linked top heads_of (suc fuel) seen bottom above linked =
      elim (Option-cases (lookup bottom.base_sha m)) [
        | inl e ↦ rw (e, climb) linked
        | inr (p, e) ↦ elim (Bool-cases (mem p.change_key seen)) [
          | inl s ↦ rw (e, s, climb) linked
          | inr s ↦
              let (head, live) = heads_of bottom.base_sha p e in
              rw (e, s, climb)
                (climb-Linked top heads_of fuel (p.change_key ∷ seen) p (bottom ∷ above)
                  (hung p bottom above head live linked))
        ]
      ]

same_state-opened : (x : ChangeState) → same_state x opened ≡ true → x ≡ opened
unfolding same_state
same_state-opened opened h = refl
same_state-opened landed h = ground arith
same_state-opened abandoned h = ground arith

list_changes-opened :
    (store : MemStore) (c : Change) → In c (list_changes (some opened) store) → c.state ≡ opened
unfolding list_changes
list_changes-opened store c i =
    same_state-opened c.state ((In-keep _ c (values store.changes)).0 ((In-sort_with _ c _).0 i)).1

by_head-lookup :
    (cs : List Change) (k : Text) (p : Change)
    → lookup k (by_head cs) ≡ some p
    → In p cs × (p.head_sha ≡ k)
unfolding by_head lookup
by_head-lookup cs k p h = elim (heads-lookup cs [] k p h) [
  | inl found ↦ found
  | inr l ↦ absurd (ground arith)
]

-- The chain of a change hangs together: each member but the one at the bottom is based on the head
-- of the member below it, all but the change itself are open, and the change is the one at the top.
-- The walk down has ended by itself: the bottom's base is no open change's head, or that change is
-- in the chain already.
pub chain_of-Linked :
    (store : MemStore) (change : Change)
    → Linked change (chain_of store change)
      × ((bottom : Change) × (rest : List Change) × (chain_of store change ≡ bottom ∷ rest)
          × ((p : Change)
              → lookup bottom.base_sha (by_head (list_changes (some opened) store)) ≡ some p
              → mem p.change_key (map (λ (c : Change). c.change_key) (chain_of store change))
                ≡ true))
unfolding chain_of
chain_of-Linked store change =
    let live = list_changes (some opened) store in
    (
      climb-Linked (by_head live) live (λ k p h. (by_head-lookup live k p h).0) change
          (λ k p h. (
            (by_head-lookup live k p h).1,
            list_changes-opened store p (by_head-lookup live k p h).0,
          ))
          (length live) (change.change_key ∷ []) change [] top_alone,
      climb-Ended (by_head live) live (λ k p h. (by_head-lookup live k p h).0) (length live)
          (change.change_key ∷ []) change [] (unseen-length (change.change_key ∷ []) live)
          (λ k h. h),
    )
