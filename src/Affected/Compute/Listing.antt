-- ===== src/Affected/Compute/Listing.antt =====
-- The names that the scan collects, the rows that they are listed by, and what they reach.
use runko.Prelude.{
  ◌≡◌, refl, sym, ap, ◌∙◌, inl, inr, Bool, true, false, some, List, [], ◌∷◌, map, arith, Text, mem,
  text_eq_iff, text_eq, In, any, Bool-cases, Option-cases, ◌||◌,
}
use runko.Affected.Types.{ProjectInfo, ProjectRef, Options, Result}
use runko.Affected.Closure.Reach.{Walked, seed, depends, Reached, walked, tests}
use runko.Affected.Compute.{
  Verdict, refinable_escalation, blunt_escalation, dropped, attributed, classify, Scan, add_name,
  note_path, scan_paths, by_name,
}

-- the verdict attributes its path to the project named `x`
abbrev pub names_it : Text → Verdict → Bool
names_it x (attributed name) = text_eq name x
names_it x refinable_escalation = false
names_it x blunt_escalation = false
names_it x dropped = false

note_path-direct :
    (s : Scan) (v : Verdict) (x : Text)
    → mem x (note_path s v).direct ≡ (mem x s.direct || names_it x v)
unfolding note_path add_name mem
note_path-direct s refinable_escalation x = ground arith
note_path-direct s blunt_escalation x = ground arith
note_path-direct s dropped x = ground arith
note_path-direct s (attributed name) x = ground (arith, text_eq_iff name x)

pub scan_paths-direct :
    (projects : List ProjectInfo) (opts : Options) (s : Scan) (ps : List Text) (x : Text)
    → mem x (scan_paths projects opts s ps).direct
      ≡ (mem x s.direct || any (λ p. names_it x (classify projects opts p)) ps)
unfolding scan_paths any
scan_paths-direct projects opts s [] x = ground arith
scan_paths-direct projects opts s (p ∷ ps) x =
    let v = classify projects opts p in
    ground (arith, note_path-direct s v x, scan_paths-direct projects opts (note_path s v) ps x)

by_name_sound :
    (ps : List ProjectInfo) (name : Text) (q : ProjectInfo)
    → by_name ps name ≡ some q
    → (q.name ≡ name) × In q ps
unfolding by_name
by_name_sound [] name q h = ground arith
by_name_sound (r ∷ ps) name q h = elim (Option-cases (by_name ps name)) [
  | inr (q', e) ↦ let (n, m) = by_name_sound ps name q (ground arith) in (n, inr m)
  | inl e ↦ elim (Bool-cases (text_eq r.name name)) [
    | inl same ↦
        let eq : r ≡ q = ground arith in
        (ap (λ (t : ProjectInfo). t.name) (sym eq) ∙ (text_eq_iff r.name name).0 same, inl eq)
    | inr other ↦ ground arith
  ]
]

pub by_name_found :
    (ps : List ProjectInfo) (p : ProjectInfo)
    → In p ps
    → (q : ProjectInfo) × (by_name ps p.name ≡ some q) × (q.name ≡ p.name) × In q ps
unfolding by_name
by_name_found [] p m = elim m [ ]
by_name_found (r ∷ ps) p m = elim (Option-cases (by_name ps p.name)) [
  | inr (q, e) ↦ let (n, k) = by_name_sound ps p.name q e in (q, ground arith, n, inr k)
  | inl e ↦ elim m [
    | inr later ↦ let (q, e', n, k) = by_name_found ps p later in ground arith
    | inl here ↦
        let same : r.name ≡ p.name = ap (λ (t : ProjectInfo). t.name) here in
        (r, ground (arith, text_eq_iff r.name p.name), same, inl refl)
  ]
]

pub mem-map :
    (f : Text → ProjectRef) (names : List Text) (x : Text)
    → mem x names ≡ true
    → In (f x) (map f names)
unfolding mem
mem-map f [] x m = ground arith
mem-map f (n ∷ names) x m = elim (Bool-cases (text_eq n x)) [
  | inl e ↦ inl (ap f ((text_eq_iff n x).0 e))
  | inr e ↦ inr (mem-map f names x (ground arith))
]

-- The result lists the project of that name, marked direct or not.
abbrev pub Lists : Result → Text → Bool → Type 0
Lists r name direct =
    (ref : ProjectRef) × In ref r.projects × (ref.name ≡ name) × (ref.direct ≡ direct)

Walked-mono :
    (projects : List ProjectInfo) {xs ys : List Text} {x : Text}
    → ((z : Text) → mem z xs ≡ true → mem z ys ≡ true)
    → Walked projects xs x
    → Walked projects ys x
Walked-mono projects h (seed m) = seed (h _ m)
Walked-mono projects h (depends w d) = depends (Walked-mono projects h w) d

pub Reached-mono :
    (projects : List ProjectInfo) {xs ys : List Text} {x : Text}
    → ((z : Text) → mem z xs ≡ true → mem z ys ≡ true)
    → Reached projects xs x
    → Reached projects ys x
Reached-mono projects h (walked w) = walked (Walked-mono projects h w)
Reached-mono projects h (tests w d) = tests (Walked-mono projects h w) d

-- the names of the projects
abbrev pub IsName : List ProjectInfo → Text → Type 0
IsName projects x = (p : ProjectInfo) × In p projects × (p.name ≡ x)

Walked-IsName :
    (projects : List ProjectInfo) (p : ProjectInfo) {x : Text}
    → In p projects
    → Walked projects (p.name ∷ []) x
    → IsName projects x
unfolding mem
Walked-IsName projects p m (seed {x = x} h) = (p, m, (text_eq_iff p.name x).0 (ground arith))
Walked-IsName projects p m (depends w (q, k, n, _)) = (q, k, n)

pub Reached-IsName :
    (projects : List ProjectInfo) (p : ProjectInfo) {x : Text}
    → In p projects
    → Reached projects (p.name ∷ []) x
    → IsName projects x
Reached-IsName projects p m (walked w) = Walked-IsName projects p m w
Reached-IsName projects p m (tests w (q, k, n, _)) = (q, k, n)
