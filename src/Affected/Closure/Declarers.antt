-- ===== src/Affected/Closure/Declarers.antt =====
-- The declarers of a name are the projects with an edge to it.
use runko.Prelude.{
  ◌≡◌, refl, ap, inl, inr, true, false, List, [], ◌∷◌, arith, Text, mem, mem-append, text_eq,
  text_eq_iff, In, Bool-cases, if◌then◌else◌,
}
use runko.Affected.Types.{ProjectInfo}
use runko.Affected.Closure.{entries_of, declarers}

-- Some project named `name` lists `dep` among its edges.
abbrev pub Declares : (ProjectInfo → List Text) → List ProjectInfo → Text → Text → Type 0
Declares edges projects name dep =
    (p : ProjectInfo) × In p projects × (p.name ≡ name) × (mem dep (edges p) ≡ true)

mem-entries_of :
    (name : Text) (deps : List Text) (cur x : Text)
    → mem x (entries_of name deps cur) ≡ (if mem cur deps then text_eq name x else false)
unfolding entries_of mem
mem-entries_of name [] cur x = refl
mem-entries_of name (d ∷ deps) cur x = ground (arith, mem-entries_of name deps cur x)

pub declarers_sound :
    (edges : ProjectInfo → List Text) (ps : List ProjectInfo) (cur x : Text)
    → mem x (declarers edges ps cur) ≡ true
    → Declares edges ps x cur
unfolding declarers mem
declarers_sound edges [] cur x h = ground arith
declarers_sound edges (p ∷ ps) cur x h =
    elim (Bool-cases (mem x (entries_of p.name (edges p) cur))) [
      | inl e ↦ (
        p,
        inl refl,
        (text_eq_iff p.name x).0 (ground (arith, mem-entries_of p.name (edges p) cur x)),
        ground (arith, mem-entries_of p.name (edges p) cur x),
      )
      | inr e ↦
          let (q, m, n, d) = declarers_sound edges ps cur x (
            ground
              (arith, mem-append x (entries_of p.name (edges p) cur) (declarers edges ps cur))) in
          (q, inr m, n, d)
    ]

pub declarers_complete :
    (edges : ProjectInfo → List Text) (ps : List ProjectInfo) (cur x : Text)
    → Declares edges ps x cur
    → mem x (declarers edges ps cur) ≡ true
unfolding declarers mem
declarers_complete edges [] cur x (p, m, n, d) = elim m [ ]
declarers_complete edges (p ∷ ps) cur x (q, inl e, n, d) = ground (
  arith,
  mem-append x (entries_of p.name (edges p) cur) (declarers edges ps cur),
  mem-entries_of p.name (edges p) cur x,
  text_eq_iff p.name x,
  ap (λ (r : ProjectInfo). r.name) e,
  ap (λ (r : ProjectInfo). mem cur (edges r)) e,
)
declarers_complete edges (p ∷ ps) cur x (q, inr m, n, d) = ground (
  arith,
  mem-append x (entries_of p.name (edges p) cur) (declarers edges ps cur),
  declarers_complete edges ps cur x (q, m, n, d),
)
