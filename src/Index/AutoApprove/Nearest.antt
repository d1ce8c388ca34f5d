-- ===== src/Index/AutoApprove/Nearest.antt =====
-- Which project decides a path, and when a set of paths is a zone.
use runko.Prelude.{
  ℕ, suc, ◌≤◌, ◌<◌, ◌≡◌, refl, sym, subst, ◌≢◌, ◌↔◌, ◌⊎◌, inl, inr, Bool, true, false, ◌&&◌, Option,
  none, some, List, [], ◌∷◌, arith, leb, Bool-cases, Option-cases, length, all, In, All, Text,
}
use runko.Index.Types.{IndexedProject}
use runko.Index.AutoApprove.{owns_path, decide_from, auto_approved, auto_approved_all}

-- `p` contains the path and declares `v`.
abbrev pub DeclaresFor : Text → IndexedProject → Bool → Type 0
DeclaresFor path p v = (owns_path p.path path ≡ true) × (p.auto_approve ≡ some v)

-- Every project that contains the path and declares anything has a path shorter than `n`.
abbrev Within : List IndexedProject → Text → ℕ → Type 0
Within projects path n =
    (q : IndexedProject) (w : Bool) → In q projects → DeclaresFor path q w → length q.path < n

Within-cons :
    (p : IndexedProject) (ps : List IndexedProject) (path : Text) (n : ℕ)
    → ((w : Bool) → DeclaresFor path p w → length p.path < n)
    → Within ps path n
    → Within (p ∷ ps) path n
Within-cons p ps path n h k q w (inl e) d =
    subst (λ (z : IndexedProject). DeclaresFor path z w → length z.path < n) e (h w) d
Within-cons p ps path n h k q w (inr i) d = k q w i d

-- The answer is the value that the loop started from, or a declaration of the list.
abbrev Answers : List IndexedProject → Text → ℕ → Option Bool → Bool → ℕ → Type 0
Answers ps path best value v n =
    ((value ≡ some v) × (n ≡ best))
    ⊎ ((p : IndexedProject) × In p ps × DeclaresFor path p v × (n ≡ suc (length p.path)))

Answers-cons :
    (p : IndexedProject) (ps : List IndexedProject) (path : Text) (best : ℕ) (value : Option Bool)
    (v : Bool) (n : ℕ)
    → Answers ps path best value v n
    → Answers (p ∷ ps) path best value v n
Answers-cons p ps path best value v n (inl a) = inl a
Answers-cons p ps path best value v n (inr (r, i, d, e)) = inr (r, inr i, d, e)

decide_from-some :
    (ps : List IndexedProject) (path : Text) (best : ℕ) (value : Option Bool) (v : Bool)
    → decide_from ps path best value ≡ some v
    → (n : ℕ) × (best ≤ n) × Within ps path n × Answers ps path best value v n
unfolding decide_from
decide_from-some [] path best value v h = (best, omega arith, λ q w i. absurd i, inl (h, refl))
decide_from-some (p ∷ ps) path best value v h = elim (Option-cases p.auto_approve) [
  | inl e ↦
      let (n, b, w, a) = decide_from-some ps path best value v (rw (e, decide_from) at h) in
      (
        n,
        b,
        Within-cons p ps path n (λ u d. undeclared u d e) w,
        Answers-cons p ps path best value v n a,
      )
  | inr (declared, e) ↦ elim (Bool-cases (owns_path p.path path && leb best (length p.path))) [
    | inl t ↦
        let (n, b, w, a) =
          decide_from-some ps path (suc (length p.path)) p.auto_approve v
            (rw (e, t, decide_from) at h) in
        (
          n,
          omega (arith, b, at_least t),
          Within-cons p ps path n (λ u d. omega (arith, b)) w,
          elim a [
            | inl (k, m) ↦ inr (p, inl refl, (ground arith, k), m)
            | inr (r, i, d, m) ↦ inr (r, inr i, d, m)
          ],
        )
    | inr t ↦
        let (n, b, w, a) = decide_from-some ps path best value v (rw (e, t, decide_from) at h) in
        (
          n,
          b,
          Within-cons p ps path n (λ u d. omega (arith, b, shorter t d.0)) w,
          Answers-cons p ps path best value v n a,
        )
  ]
]
  where
    undeclared :
        (u : Bool) → DeclaresFor path p u → p.auto_approve ≡ none → {n : ℕ} → length p.path < n
    undeclared u d e = ground arith

    at_least : (owns_path p.path path && leb best (length p.path)) ≡ true → best ≤ length p.path
    at_least t = ground arith

    shorter :
        (owns_path p.path path && leb best (length p.path)) ≡ false
        → owns_path p.path path ≡ true
        → length p.path < best
    shorter t o = ground arith

decide_from-keeps :
    (ps : List IndexedProject) (path : Text) (best : ℕ) (value : Option Bool)
    → decide_from ps path best value ≡ none
    → value ≡ none
unfolding decide_from
decide_from-keeps [] path best value h = h
decide_from-keeps (p ∷ ps) path best value h = elim (Option-cases p.auto_approve) [
  | inl e ↦ decide_from-keeps ps path best value (rw (e, decide_from) at h)
  | inr (declared, e) ↦ elim (Bool-cases (owns_path p.path path && leb best (length p.path))) [
    | inl t ↦
        let k =
          decide_from-keeps ps path (suc (length p.path)) p.auto_approve
            (rw (e, t, decide_from) at h) in
        ground arith
    | inr t ↦ decide_from-keeps ps path best value (rw (e, t, decide_from) at h)
  ]
]

decide_from-none :
    (ps : List IndexedProject) (path : Text) (q : IndexedProject) (w : Bool)
    → decide_from ps path 0 none ≡ none
    → In q ps
    → ¬ DeclaresFor path q w
unfolding decide_from
decide_from-none [] path q w h i d = absurd i
decide_from-none (p ∷ ps) path q w h (inl same) d =
    let (o, e) : DeclaresFor path p w =
      subst (λ (z : IndexedProject). DeclaresFor path z w) (sym same) d in
    let t : (owns_path p.path path && leb 0 (length p.path)) ≡ true = ground arith in
    let k =
      decide_from-keeps ps path (suc (length p.path)) p.auto_approve
        (rw (e, t, decide_from) at h) in
    ground arith
decide_from-none (p ∷ ps) path q w h (inr j) d = elim (Option-cases p.auto_approve) [
  | inl e ↦ decide_from-none ps path q w (rw (e, decide_from) at h) j d
  | inr (declared, e) ↦ elim (Bool-cases (owns_path p.path path && leb 0 (length p.path))) [
    | inl t ↦
        let k =
          decide_from-keeps ps path (suc (length p.path)) p.auto_approve
            (rw (e, t, decide_from) at h) in
        ground arith
    | inr t ↦ decide_from-none ps path q w (rw (e, t, decide_from) at h) j d
  ]
]

-- A path's zone is decided by a declaring project that contains the path and whose own path is the
-- longest of these; where no project that contains the path declares anything, it is no zone.
pub auto_approved_nearest :
    (projects : List IndexedProject) (path : Text)
    → ((auto_approved projects path ≡ false)
        × ((q : IndexedProject) (w : Bool) → In q projects → ¬ DeclaresFor path q w))
      ⊎ ((p : IndexedProject) × In p projects
          × DeclaresFor path p (auto_approved projects path)
          × ((q : IndexedProject) (w : Bool)
              → In q projects
              → DeclaresFor path q w
              → length q.path ≤ length p.path))
unfolding auto_approved
auto_approved_nearest projects path = elim (Option-cases (decide_from projects path 0 none)) [
  | inl e ↦ inl (rw (e, auto_approved) refl, λ q w i d. decide_from-none projects path q w e i d)
  | inr (v, e) ↦
      let (n, b, w, a) = decide_from-some projects path 0 none v e in
      elim a [
        | inl (k, m) ↦ ground arith
        | inr (p, i, d, m) ↦
            inr (p, i, rw (e, auto_approved) d, λ q u j c. omega (arith, w q u j c, m))
      ]
]

-- A set of paths is a zone exactly if it is not empty and each of its paths is one.
pub auto_approved_all_iff :
    (projects : List IndexedProject) (paths : List Text)
    → (auto_approved_all projects paths ≡ true)
      ↔ ((paths ≢ []) × All (λ path. auto_approved projects path ≡ true) paths)
unfolding auto_approved_all
auto_approved_all_iff projects [] = (λ h. ground arith, λ (n, a). absurd (n refl))
auto_approved_all_iff projects (p ∷ ps) =
    let (to, from) = each (p ∷ ps) in (λ h. (λ e. ground arith, to h), λ (n, a). from a)
  where
    each :
        (qs : List Text)
        → (all (auto_approved projects) qs ≡ true)
          ↔ All (λ path. auto_approved projects path ≡ true) qs
    each [] = (λ h. tt, λ h. refl)
    each (q ∷ qs) =
        let (to, from) = each qs in
        (λ h. (ground arith, to (ground arith)), λ (e, a). let k = from a in ground arith)
