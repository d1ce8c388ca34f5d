-- ===== src/Glob/Laws.antt =====
-- What the two recursive forms of a pattern mean, and how an ordered list decides.
use runko.Prelude.{
  ◌≡◌, refl, ap, ◌↔◌, ◌⊎◌, inl, inr, Bool, true, false, not, none, some, List, [], ◌∷◌, ◌++◌, arith,
  ◌==◌, Text, codes, any, text_eq, text_eq_iff, has_prefix_sound, has_prefix-append, cut_prefix,
  Bool-cases, or_iff, In, All, length, ◌<◌, if◌then◌else◌,
}
use runko.Glob.{
  slash, cut_suffix, after_slashes, any_depth, under, match_rooted, match_path, bang,
  match_ordered_which,
}

-- `q` is `p` itself or what follows one of its slashes.
abbrev pub IsTail : Text → Text → Type 0
IsTail q p = (q ≡ p) ⊎ ((before : Text) × (p ≡ before ++ slash ∷ q))

any_sound : (f : Text → Bool) (l : List Text) → any f l ≡ true → (q : Text) × In q l × (f q ≡ true)
unfolding any
any_sound f [] h = ground arith
any_sound f (x ∷ l) h = elim (Bool-cases (f x)) [
  | inl e ↦ (x, inl refl, e)
  | inr e ↦ let (q, m, k) = any_sound f l (ground arith) in (q, inr m, k)
]

any_complete : (f : Text → Bool) (l : List Text) {q : Text} → In q l → f q ≡ true → any f l ≡ true
unfolding any
any_complete f (x ∷ l) (inl e) h = ground arith
any_complete f (x ∷ l) (inr m) h = ground (arith, any_complete f l m h)
any_complete f [] m h = elim m [ ]

In-if : (b : Bool) (x q : Text) (l : List Text) → In q l → In q (if b then x ∷ l else l)
In-if true x q l m = inr m
In-if false x q l m = m

after_slashes_sound :
    (p : Text) {q : Text} → In q (after_slashes p) → (b : Text) × (p ≡ b ++ slash ∷ q)
unfolding after_slashes
after_slashes_sound [] m = elim m [ ]
after_slashes_sound (c ∷ s) {q} m =
    let behind = λ (k : In q (after_slashes s)).
      let (b, h) = after_slashes_sound s k in
      let r : (b : Text) × (c ∷ s ≡ b ++ slash ∷ q) = (c ∷ b, ap (◌∷◌ c) h) in r in
    elim (Bool-cases (c == slash)) [
      | inr e ↦ behind (rw e at m)
      | inl e ↦ elim (let k : In q (s ∷ after_slashes s) = rw e at m in k) [
        | inl h ↦ ([], ground arith)
        | inr k ↦ behind k
      ]
    ]

after_slashes_complete : (b q : Text) → In q (after_slashes (b ++ slash ∷ q))
unfolding after_slashes
after_slashes_complete [] q = inl refl
after_slashes_complete (c ∷ b) q = In-if (c == slash) _ q _ (after_slashes_complete b q)

-- A pattern "**/rest" matches a path exactly when `rest` matches the path or one of its tails.
pub match_path-any_depth :
    (rest p : Text)
    → (match_path (codes "**/" ++ rest) p ≡ true)
      ↔ ((q : Text) × IsTail q p × (match_path rest q ≡ true))
unfolding match_path any_depth
match_path-any_depth rest p = (sound, complete)
  where
    f : Text → Bool
    f = match_path rest

    sound : any_depth f p ≡ true → (q : Text) × IsTail q p × (f q ≡ true)
    sound h = elim (Bool-cases (f p)) [
      | inl e ↦ (p, inl refl, e)
      | inr e ↦
          let (q, m, k) = any_sound f (after_slashes p) (ground arith) in
          (q, inr (after_slashes_sound p m), k)
    ]

    complete : (q : Text) × IsTail q p × (f q ≡ true) → any_depth f p ≡ true
    complete (q, inl e, k) = ground arith
    complete (q, inr (b, e), k) =
        (or_iff (f p) (any f (after_slashes p))).1
          (inr (any_complete f (after_slashes p) (rw e (after_slashes_complete b q)) k))

-- `p` is the directory or file `prefix`, or lies below it.
abbrev pub Below : Text → Text → Type 0
Below p prefix = (p ≡ prefix) ⊎ ((s : Text) × (p ≡ (prefix ++ slash ∷ []) ++ s))

pub under_iff : (p prefix : Text) → (under p prefix ≡ true) ↔ Below p prefix
unfolding under
under_iff p prefix = (sound, complete)
  where
    sound : under p prefix ≡ true → Below p prefix
    sound h = elim ((or_iff (text_eq p prefix) _).0 h) [
      | inl e ↦ inl ((text_eq_iff p prefix).0 e)
      | inr e ↦ inr (has_prefix_sound _ p e)
    ]

    complete : Below p prefix → under p prefix ≡ true
    complete (inl e) = (or_iff _ _).1 (inl ((text_eq_iff p prefix).1 e))
    complete (inr (s, e)) =
        (or_iff (text_eq p prefix) _).1 (inr (rw e (has_prefix-append (prefix ++ slash ∷ []) s)))

cut_suffix_short : (suffix s : Text) → length s < length suffix → cut_suffix suffix s ≡ none
unfolding cut_suffix
cut_suffix_short suffix [] h =
    ground (arith, text_eq_iff [] suffix, λ (e : [] ≡ suffix). ap length e)
cut_suffix_short suffix (c ∷ s) h = ground (
  arith,
  cut_suffix_short suffix s,
  text_eq_iff (c ∷ s) suffix,
  λ (e : c ∷ s ≡ suffix). ap length e,
)

cut_suffix-append : (p suffix : Text) → 0 < length suffix → cut_suffix suffix (p ++ suffix) ≡ some p
unfolding cut_suffix
cut_suffix-append [] [] h = absurd (omega arith)
cut_suffix-append [] (d ∷ suffix) h = ground (
  arith,
  cut_suffix_short (d ∷ suffix) suffix (omega arith),
  text_eq_iff (d ∷ suffix) (d ∷ suffix),
)
cut_suffix-append (c ∷ p) suffix h = ground (arith, cut_suffix-append p suffix h)

-- The test for the "**/" form fails.
abbrev pub IsRooted : Text → Type 0
IsRooted pattern = cut_prefix (codes "**/") pattern ≡ none

match_path-rooted :
    (pattern p : Text) → IsRooted pattern → match_path pattern p ≡ match_rooted pattern p
unfolding match_path cut_prefix
match_path-rooted [] p h = refl
match_path-rooted (a ∷ []) p h = refl
match_path-rooted (a ∷ b ∷ []) p h = refl
match_path-rooted (a ∷ b ∷ c ∷ rest) p h = ground arith

-- A pattern "prefix/**" that does not begin with "**/" matches the prefix and what lies below it.
pub match_path-subtree :
    (prefix p : Text)
    → IsRooted (prefix ++ codes "/**")
    → (match_path (prefix ++ codes "/**") p ≡ true) ↔ Below p prefix
unfolding match_rooted
match_path-subtree prefix p h =
    rw (match_path-rooted _ p h)
      (rw (cut_suffix-append prefix (codes "/**") (omega arith), match_rooted) (under_iff p prefix))

-- No entry of the list matches the path.
abbrev pub Undecided : List Text → Text → Type 0
Undecided entries p = All (λ entry. match_path (bang entry).0 p ≡ false) entries

-- The first entry that matches decides; "!" turns its answer round; with none the answer is no.
pub match_ordered_which_first :
    (entries : List Text) (p : Text)
    → (Undecided entries p × (match_ordered_which entries p ≡ ([], false)))
      ⊎ ((before : List Text) × (entry : Text) × (after : List Text) × (entries
            ≡ before ++ entry ∷ after)
          × Undecided before p
          × (match_path (bang entry).0 p ≡ true)
          × (match_ordered_which entries p ≡ (entry, not (bang entry).1)))
unfolding match_ordered_which
match_ordered_which_first [] p = inl (tt, refl)
match_ordered_which_first (entry ∷ entries) p = elim (Bool-cases (match_path (bang entry).0 p)) [
  | inl e ↦ inr ([], entry, entries, refl, tt, e, ground arith)
  | inr e ↦ elim (match_ordered_which_first entries p) [
    | inl (u, r) ↦ inl ((e, u), ground arith)
    | inr (before, x, after, split, u, m, r) ↦
        inr (entry ∷ before, x, after, ap (◌∷◌ entry) split, (e, u), m, ground arith)
  ]
]

-- Entries appended to a list decide only the paths that the list leaves undecided.
pub match_ordered_which-append :
    (xs ys : List Text) (p : Text)
    → (Undecided xs p × (match_ordered_which (xs ++ ys) p ≡ match_ordered_which ys p))
      ⊎ (match_ordered_which (xs ++ ys) p ≡ match_ordered_which xs p)
unfolding match_ordered_which
match_ordered_which-append [] ys p = inl (tt, refl)
match_ordered_which-append (entry ∷ xs) ys p = elim (Bool-cases (match_path (bang entry).0 p)) [
  | inl e ↦ inr (ground arith)
  | inr e ↦ elim (match_ordered_which-append xs ys p) [
    | inl (u, r) ↦ inl ((e, u), ground arith)
    | inr r ↦ inr (ground arith)
  ]
]
