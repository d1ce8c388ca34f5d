-- ===== src/Land/Rebase.antt =====
-- platform/land/rebase.go: Rebase reads what `git merge-tree` printed and its exit code. The lines
-- are the output cut at newlines, without trailing ones.
use runko.Prelude.{
  ℕ, ◌≡◌, refl, ap, ◌∙◌, ◌↔◌, ◌⊎◌, inl, inr, Bool, true, false, Option, none, some, List, [], ◌∷◌,
  arith, ◌==◌, Bool-cases, Option-cases, Text, codes, text_eq, text_eq_iff, cut_prefix, mem, Some,
  if◌then◌else◌,
}

pub data RebaseResult : Type 0 where
  clean : Text → RebaseResult
  conflicting : List Text → RebaseResult

-- ") : .* in (.+)": the text behind the last " in " that leaves some text
after_last_in : Text → Option Text
after_last_in [] = none
after_last_in (c ∷ s) =
    let later = after_last_in s in
    elim later [
      | some path ↦ some path
      | none ↦ elim (cut_prefix (codes " in ") (c ∷ s)) [
        | none ↦ none
        | some [] ↦ none
        | some (d ∷ path) ↦ some (d ∷ path)
      ]
    ]

-- "[^)]+\)": skips a kind of at least one character and its bracket
after_kind : Bool → Text → Option Text
after_kind seen [] = none
after_kind seen (c ∷ s) = if c == b')' then (if seen then some s else none) else after_kind true s

-- conflictPathPattern
unfoldable pub conflict_path : Text → Option Text
unfolding after_kind after_last_in cut_prefix
conflict_path line = elim (cut_prefix (codes "CONFLICT (") line) [
  | none ↦ none
  | some rest ↦ elim (after_kind false rest) [
    | none ↦ none
    | some tail ↦ elim (cut_prefix (codes ": ") tail) [
      | none ↦ none
      | some message ↦ after_last_in message
    ]
  ]
]

-- the loop over the remaining lines, with `seen`
unfoldable pub conflict_paths : List Text → List Text → List Text
conflict_paths seen [] = []
conflict_paths seen (line ∷ lines) = elim (conflict_path line) [
  | none ↦ conflict_paths seen lines
  | some path ↦ elim (mem path seen) [
    | true ↦ conflict_paths seen lines
    | false ↦ path ∷ conflict_paths (path ∷ seen) lines
  ]
]

-- Rebase; `none` is an error.
unfoldable pub rebase : ℕ → List Text → Option RebaseResult
unfolding conflict_paths
rebase exit_code [] = none
rebase exit_code ([] ∷ lines) = none
rebase exit_code ((c ∷ tree) ∷ lines) =
    if exit_code == 0
    then some (clean (c ∷ tree))
    else if exit_code == 1
    then some (conflicting (conflict_paths [] lines))
    else none

-- some line reports a conflict in that path
abbrev pub Reported : List Text → Text → Type 0
Reported lines path = Some (λ line. conflict_path line ≡ some path) lines

abbrev pub Unique : List Text → Type 0
Unique [] = Unit
Unique (x ∷ xs) = (mem x xs ≡ false) × Unique xs

Reported-tail :
    (line : Text) (lines : List Text) (path : Text)
    → Reported lines path
    → Reported (line ∷ lines) path
unfolding mem
Reported-tail line lines path (l, m, e) = (l, ground arith, e)

Reported-cons :
    (line : Text) (lines : List Text) (path : Text)
    → Reported (line ∷ lines) path
    → (conflict_path line ≡ some path) ⊎ Reported lines path
unfolding mem
Reported-cons line lines path (l, m, e) = elim (Bool-cases (text_eq line l)) [
  | inl same ↦ inl (ap conflict_path ((text_eq_iff line l).0 same) ∙ e)
  | inr other ↦ inr (l, ground arith, e)
]

conflict_paths_sound :
    (seen lines : List Text) (x : Text)
    → mem x (conflict_paths seen lines) ≡ true
    → (mem x seen ≡ false) × Reported lines x
unfolding conflict_paths mem
conflict_paths_sound seen [] x h = ground arith
conflict_paths_sound seen (line ∷ lines) x h = elim (Option-cases (conflict_path line)) [
  | inl e ↦
      let (out, r) = conflict_paths_sound seen lines x (rw (e, conflict_paths) at h) in
      (out, Reported-tail line lines x r)
  | inr (p, e) ↦ elim (Bool-cases (mem p seen)) [
    | inl old ↦
        let (out, r) = conflict_paths_sound seen lines x (ground arith) in
        (out, Reported-tail line lines x r)
    | inr new ↦ elim (Bool-cases (text_eq p x)) [
      | inl same ↦
          let eq : p ≡ x = (text_eq_iff p x).0 same in
          (rw (← eq) new, (line, ground (arith, text_eq_iff line line), e ∙ ap some eq))
      | inr other ↦
          let (out, r) = conflict_paths_sound (p ∷ seen) lines x (ground arith) in
          (ground arith, Reported-tail line lines x r)
    ]
  ]
]

conflict_paths_complete :
    (seen lines : List Text) (x : Text)
    → mem x seen ≡ false
    → Reported lines x
    → mem x (conflict_paths seen lines) ≡ true
unfolding conflict_paths mem
conflict_paths_complete seen [] x out (l, m, e) = ground arith
conflict_paths_complete seen (line ∷ lines) x out r = elim (Reported-cons line lines x r) [
  | inl here ↦ ground (arith, text_eq_iff x x)
  | inr later ↦ elim (Option-cases (conflict_path line)) [
    | inl e ↦ rw (e, conflict_paths) (conflict_paths_complete seen lines x out later)
    | inr (p, e) ↦ elim (Bool-cases (mem p seen)) [
      | inl old ↦ ground (arith, conflict_paths_complete seen lines x out later)
      | inr new ↦ elim (Bool-cases (text_eq p x)) [
        | inl same ↦ ground arith
        | inr other ↦
            let more = conflict_paths_complete (p ∷ seen) lines x (ground arith) later in
            ground arith
      ]
    ]
  ]
]

mem-nil : (x : Text) → mem x [] ≡ false
unfolding mem
mem-nil x = refl

mem-head : (x : Text) (xs : List Text) → mem x (x ∷ xs) ≡ true
unfolding mem
mem-head x xs = ground (arith, text_eq_iff x x)

conflict_paths-Unique : (seen lines : List Text) → Unique (conflict_paths seen lines)
unfolding conflict_paths
conflict_paths-Unique seen [] = tt
conflict_paths-Unique seen (line ∷ lines) = elim (Option-cases (conflict_path line)) [
  | inl e ↦ rw (e, conflict_paths) (conflict_paths-Unique seen lines)
  | inr (p, e) ↦ elim (Bool-cases (mem p seen)) [
    | inl old ↦ let rest = conflict_paths-Unique seen lines in ground arith
    | inr new ↦
        let rest = conflict_paths-Unique (p ∷ seen) lines in
        let apart : mem p (conflict_paths (p ∷ seen) lines) ≡ false =
          elim (Bool-cases (mem p (conflict_paths (p ∷ seen) lines))) [
            | inr out ↦ out
            | inl again ↦
                ground (arith, conflict_paths_sound (p ∷ seen) lines p again, mem-head p seen)
          ] in
        rw (e, conflict_paths) (rw (new, conflict_paths) (apart, rest))
  ]
]

-- A merge that git reports as conflicting answers each path that some line names, once.
pub rebase_conflicting :
    (exit_code : ℕ) (tree : Text) (lines paths : List Text)
    → rebase exit_code (tree ∷ lines) ≡ some (conflicting paths)
    → (exit_code ≡ 1) × ((x : Text) → (mem x paths ≡ true) ↔ Reported lines x) × Unique paths
unfolding rebase
rebase_conflicting exit_code [] lines paths h = ground arith
rebase_conflicting exit_code (c ∷ tree) lines paths h =
    let e : conflict_paths [] lines ≡ paths = ground arith in
    (
      ground arith,
      λ x. (
        λ m. (conflict_paths_sound [] lines x (rw e m)).1,
        λ r. rw (← e) (conflict_paths_complete [] lines x (mem-nil x) r),
      ),
      rw (← e) (conflict_paths-Unique [] lines),
    )
