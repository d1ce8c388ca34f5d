-- ===== src/Prelude/Texts.antt =====
-- Go strings as lists of code points, with the functions of package strings that the program calls.
use Prim.Native.Char.{code}
use Prim.Native.String.{String}
use Prim.Native.Nat.{ℕ}
use mathlib.Core.Path.{◌≡◌, refl, ap, ◌∙◌}
use mathlib.Core.Logic.{◌↔◌, inl, inr}
use mathlib.Core.Bool.{Bool, true, false, ◌&&◌}
use mathlib.Core.Option.{Option, none, some}
use mathlib.Core.List.{List, [], ◌∷◌, ◌++◌, map}
use native.Mathlib.Omega.{arith}
use runko.Prelude.Lists.{any, In}
use runko.Prelude.Tests.{Bool-cases, ◌==◌, ltb, if◌then◌else◌}

abbrev pub Text : Type 0
Text = List ℕ

abbrev pub codes : String → Text
codes String.[] = []
codes (String.◌∷◌ c s) = code c ∷ codes s

unfoldable pub text_eq : Text → Text → Bool
text_eq [] [] = true
text_eq [] (b ∷ t) = false
text_eq (a ∷ s) [] = false
text_eq (a ∷ s) (b ∷ t) = a == b && text_eq s t

pub text_eq_iff : (s t : Text) → (text_eq s t ≡ true) ↔ (s ≡ t)
unfolding text_eq
text_eq_iff [] [] = ground arith
text_eq_iff [] (b ∷ t) = ground arith
text_eq_iff (a ∷ s) [] = ground arith
text_eq_iff (a ∷ s) (b ∷ t) = ground (arith, text_eq_iff s t)

-- strings.CutPrefix: what follows the prefix
unfoldable pub cut_prefix : Text → Text → Option Text
cut_prefix [] s = some s
cut_prefix (a ∷ p) [] = none
cut_prefix (a ∷ p) (b ∷ s) = if a == b then cut_prefix p s else none

pub cut_prefix-append : (p s : Text) → cut_prefix p (p ++ s) ≡ some s
unfolding cut_prefix
cut_prefix-append [] s = refl
cut_prefix-append (a ∷ p) s = ground (arith, cut_prefix-append p s)

pub cut_prefix_sound : (p t s : Text) → cut_prefix p t ≡ some s → t ≡ p ++ s
unfolding cut_prefix
cut_prefix_sound [] t s h = ground arith
cut_prefix_sound (a ∷ p) [] s h = ground arith
cut_prefix_sound (a ∷ p) (b ∷ t) s h = ground (arith, cut_prefix_sound p t s)

-- strings.HasPrefix
unfoldable pub has_prefix : Text → Text → Bool
has_prefix [] s = true
has_prefix (a ∷ p) [] = false
has_prefix (a ∷ p) (b ∷ s) = a == b && has_prefix p s

pub has_prefix_sound : (p t : Text) → has_prefix p t ≡ true → (s : Text) × (t ≡ p ++ s)
unfolding has_prefix
has_prefix_sound [] t h = (t, refl)
has_prefix_sound (a ∷ p) [] h = ground arith
has_prefix_sound (a ∷ p) (b ∷ t) h =
    let (s, e) = has_prefix_sound p t (ground arith) in (s, ground arith)

pub has_prefix-append : (p s : Text) → has_prefix p (p ++ s) ≡ true
unfolding has_prefix
has_prefix-append [] s = refl
has_prefix-append (a ∷ p) s = ground (arith, has_prefix-append p s)

-- Go's `<` on strings
unfoldable pub text_lt : Text → Text → Bool
text_lt [] [] = false
text_lt [] (b ∷ t) = true
text_lt (a ∷ s) [] = false
text_lt (a ∷ s) (b ∷ t) = if ltb a b then true else (a == b && text_lt s t)

pub text_lt_irrefl : (s : Text) → text_lt s s ≡ false
unfolding text_lt
text_lt_irrefl [] = refl
text_lt_irrefl (a ∷ s) = ground (arith, text_lt_irrefl s)

pub text_lt_trans : (s t u : Text) → text_lt s t ≡ true → text_lt t u ≡ true → text_lt s u ≡ true
unfolding text_lt
text_lt_trans [] [] u h k = ground arith
text_lt_trans [] (b ∷ t) [] h k = ground arith
text_lt_trans [] (b ∷ t) (c ∷ u) h k = refl
text_lt_trans (a ∷ s) [] u h k = ground arith
text_lt_trans (a ∷ s) (b ∷ t) [] h k = ground arith
text_lt_trans (a ∷ s) (b ∷ t) (c ∷ u) h k = ground (arith, text_lt_trans s t u)

-- Two texts neither of which is less are the same.
pub text_lt_total : (s t : Text) → text_lt s t ≡ false → text_lt t s ≡ false → s ≡ t
unfolding text_lt
text_lt_total [] [] h k = refl
text_lt_total [] (b ∷ t) h k = ground arith
text_lt_total (a ∷ s) [] h k = ground arith
text_lt_total (a ∷ s) (b ∷ t) h k = ground (arith, text_lt_total s t)

-- A name among names: a Go `map[string]bool` used as a set is the list of its keys.
unfoldable pub mem : Text → List Text → Bool
mem a [] = false
mem a (x ∷ xs) = if text_eq x a then true else mem a xs

pub mem-append :
    (a : Text) (xs ys : List Text) → mem a (xs ++ ys) ≡ (if mem a xs then true else mem a ys)
unfolding mem
mem-append a [] ys = refl
mem-append a (x ∷ xs) ys = ground (arith, mem-append a xs ys)

-- Some member of the list is one that `P` holds of.
abbrev pub Some : (Text → Type 0) → List Text → Type 0
Some P xs = (x : Text) × (mem x xs ≡ true) × P x

any-Some : (f : Text → Bool) (xs : List Text) → any f xs ≡ true → Some (λ x. f x ≡ true) xs
unfolding any mem
any-Some f [] h = ground arith
any-Some f (y ∷ ys) h = elim (Bool-cases (f y)) [
  | inl e ↦ (y, ground (arith, text_eq_iff y y), e)
  | inr e ↦ let (x, m, k) = any-Some f ys (ground arith) in (x, ground arith, k)
]

Some-any : (f : Text → Bool) (xs : List Text) → Some (λ x. f x ≡ true) xs → any f xs ≡ true
unfolding any mem
Some-any f [] (x, m, k) = ground arith
Some-any f (y ∷ ys) (x, m, k) = elim (Bool-cases (text_eq y x)) [
  | inl e ↦ ground (arith, ap f ((text_eq_iff y x).0 e))
  | inr e ↦ ground (arith, Some-any f ys (x, ground arith, k))
]

-- A search over names succeeds exactly where some member passes the test.
pub any_iff : (f : Text → Bool) (xs : List Text) → (any f xs ≡ true) ↔ Some (λ x. f x ≡ true) xs
any_iff f xs = (any-Some f xs, Some-any f xs)

-- A name stands among the images of a list's members.
pub mem-map_iff :
    {A : Type 0} (f : A → Text) (n : Text) (xs : List A)
    → (mem n (map f xs) ≡ true) ↔ ((x : A) × In x xs × (f x ≡ n))
unfolding mem
mem-map_iff f n [] = (λ h. ground arith, λ (x, i, e). elim i [ ])
mem-map_iff f n (x ∷ xs) =
    let (to, from) = mem-map_iff f n xs in
    let (same, same') = text_eq_iff (f x) n in
    elim (Bool-cases (text_eq (f x) n)) [
      | inl e ↦ (λ h. (x, inl refl, same e), λ k. rw e refl)
      | inr e ↦ (
        λ h. let (y, i, k) = to (ground arith) in (y, inr i, k),
        λ (y, i, k). elim i [
          | inl s ↦ absurd (ground (arith, same' (ap f s ∙ k)))
          | inr j ↦ rw e (from (y, j, k))
        ],
      )
    ]

pub mem_iff : (x : Text) (xs : List Text) → (mem x xs ≡ true) ↔ In x xs
unfolding mem
mem_iff x [] = (λ h. cc, λ i. elim i [ ])
mem_iff x (y ∷ ys) =
    let (to, from) = mem_iff x ys in
    let (same, same') = text_eq_iff y x in
    elim (Bool-cases (text_eq y x)) [
      | inl e ↦ (λ h. inl (same e), λ i. rw e refl)
      | inr e ↦ (
        λ h. inr (to (ground arith)),
        λ i. elim i [ inl s ↦ absurd (cc (same' s)) | inr j ↦ rw e (from j) ],
      )
    ]
