-- ===== src/Daemon/Gate/Owners/Entries.antt =====
-- What the loop over the changed paths leaves in the entry of an owner.
use runko.Prelude.{
  ◌≡◌, refl, sym, ap, ◌∙◌, ◌↔◌, ◌⊎◌, inl, inr, Bool, true, ◌&&◌, Option, none, some, List, [], ◌∷◌,
  arith, Bool-cases, Option-cases, In, Text, text_eq, text_eq_iff, mem, lookup, lookup-put,
  if◌then◌else◌,
}
use runko.Index.Types.{IndexedProject}
use runko.Index.AutoApprove.{auto_approved}
use runko.Daemon.Gate.Owners.{add_owner, add_owners, owners_of, owner_map}

-- what one more path makes of an owner's entry
joined : Option Bool → Bool → Bool
joined none auto = auto
joined (some b) auto = b && auto

lookup-add_owner :
    (auto : Bool) (ref k : Text) (m : List (Text × Bool))
    → lookup k (add_owner auto ref m)
      ≡ (if text_eq ref k then some (joined (lookup k m) auto) else lookup k m)
unfolding add_owner joined
lookup-add_owner auto ref k m = elim (Bool-cases (text_eq ref k)) [
  | inl e ↦
      let same : lookup ref m ≡ lookup k m =
        ap (λ (z : Text). lookup z m) ((text_eq_iff ref k).0 e) in
      elim (Option-cases (lookup ref m)) [
        | inl n ↦ ground (arith, lookup-put ref k auto m)
        | inr (b, s) ↦ ground (arith, lookup-put ref k (b && auto) m)
      ]
  | inr e ↦ elim (Option-cases (lookup ref m)) [
    | inl n ↦ ground (arith, lookup-put ref k auto m)
    | inr (b, s) ↦ ground (arith, lookup-put ref k (b && auto) m)
  ]
]

lookup-add_owners :
    (auto : Bool) (refs : List Text) (k : Text) (m : List (Text × Bool))
    → lookup k (add_owners auto refs m)
      ≡ (if mem k refs then some (joined (lookup k m) auto) else lookup k m)
unfolding add_owners mem joined
lookup-add_owners auto [] k m = refl
lookup-add_owners auto (r ∷ refs) k m =
    ground (arith, lookup-add_owners auto refs k (add_owner auto r m), lookup-add_owner auto r k m)

module _ (indexed zones : List IndexedProject) where
  -- the path's owning project has the owner
  abbrev pub requires : Text → Text → Bool
  requires ref path = mem ref (owners_of indexed path)

  -- the owner's entry after the paths
  pub entry_after : Text → List Text → Option Bool → Option Bool
  unfolding joined
  entry_after ref [] o = o
  entry_after ref (path ∷ paths) o =
      entry_after ref paths
        (if requires ref path then some (joined o (auto_approved zones path)) else o)

  pub lookup-owner_map :
      (ref : Text) (paths : List Text) (m : List (Text × Bool))
      → lookup ref (owner_map indexed zones paths m) ≡ entry_after ref paths (lookup ref m)
  unfolding owner_map entry_after
  lookup-owner_map ref [] m = refl
  lookup-owner_map ref (path ∷ paths) m =
      lookup-owner_map ref paths _
      ∙ ap (entry_after ref paths)
          (lookup-add_owners (auto_approved zones path) (owners_of indexed path) ref m)

  -- Every one of the paths that requires the owner lies in a zone.
  abbrev pub AllAuto : Text → List Text → Type 0
  AllAuto ref paths =
      (path : Text) → In path paths → requires ref path ≡ true → auto_approved zones path ≡ true

  -- Some of the paths requires the owner.
  abbrev pub IsRequired : Text → List Text → Type 0
  IsRequired ref paths = (path : Text) × In path paths × (requires ref path ≡ true)

  entry_after-some :
      (ref : Text) (paths : List Text) (b : Bool)
      → (c : Bool) × (entry_after ref paths (some b) ≡ some c)
        × ((c ≡ true) ↔ ((b ≡ true) × AllAuto ref paths))
  unfolding entry_after joined
  entry_after-some ref [] b = (b, refl, (λ h. (h, λ p i. elim i [ ]), λ (h, _). h))
  entry_after-some ref (path ∷ paths) b = elim (Bool-cases (requires ref path)) [
    | inl e ↦
        let (c, k, both) = entry_after-some ref paths (b && auto_approved zones path) in
        let (to, from) = both in
        (
          c,
          rw (e, entry_after) k,
          (
            λ h.
                let (x, all) = to h in
                (
                  ground arith,
                  λ p i r. elim i [
                    | inl s ↦ sym (ap (auto_approved zones) s) ∙ ground arith
                    | inr j ↦ all p j r
                  ],
                ),
            λ (x, all).
                let y = all path (inl refl) e in from (ground arith, λ p i r. all p (inr i) r),
          ),
        )
    | inr e ↦
        let (c, k, both) = entry_after-some ref paths b in
        let (to, from) = both in
        (
          c,
          rw (e, entry_after) k,
          (
            λ h.
                let (x, all) = to h in
                (
                  x,
                  λ p i r. elim i [ inl s ↦ absurd (cc (ap (requires ref) s)) | inr j ↦ all p j r ],
                ),
            λ (x, all). from (x, λ p i r. all p (inr i) r),
          ),
        )
  ]

  -- An owner has an entry exactly if some path requires them, and the entry says whether every path
  -- that does lies in a zone.
  pub entry_after-none :
      (ref : Text) (paths : List Text)
      → ((entry_after ref paths none ≡ none) × ¬ IsRequired ref paths)
        ⊎ ((c : Bool) × (entry_after ref paths none ≡ some c)
            × IsRequired ref paths
            × ((c ≡ true) ↔ AllAuto ref paths))
  unfolding entry_after joined
  entry_after-none ref [] = inl (refl, λ (p, i, r). elim i [ ])
  entry_after-none ref (path ∷ paths) = elim (Bool-cases (requires ref path)) [
    | inl e ↦
        let (c, k, both) = entry_after-some ref paths (auto_approved zones path) in
        let (to, from) = both in
        inr (
          c,
          rw (e, entry_after) k,
          (path, inl refl, e),
          (
            λ h p i r.
                let (x, all) = to h in
                elim i [ inl s ↦ sym (ap (auto_approved zones) s) ∙ x | inr j ↦ all p j r ],
            λ all. from (all path (inl refl) e, λ p i r. all p (inr i) r),
          ),
        )
    | inr e ↦ elim (entry_after-none ref paths) [
      | inl (k, none_requires) ↦ inl (
        rw (e, entry_after) k,
        λ (p, i, r). elim i [
          | inl s ↦ absurd (cc (ap (requires ref) s))
          | inr j ↦ none_requires (p, j, r)
        ],
      )
      | inr (c, k, (p, i, r), both) ↦
          let (to, from) = both in
          inr (
            c,
            rw (e, entry_after) k,
            (p, inr i, r),
            (
              λ h q j s. elim j [ inl t ↦ absurd (cc (ap (requires ref) t)) | inr l ↦ to h q l s ],
              λ all. from (λ q j s. all q (inr j) s),
            ),
          )
    ]
  ]
