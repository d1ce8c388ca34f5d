-- ===== src/Prelude/Lists.antt =====
-- Lists measured by native numbers, and Boolean searches through them.
use Prim.Native.Nat.{ℕ, suc, ◌+◌}
use mathlib.Core.Path.{◌≡◌, refl, ap, sym, ◌∙◌}
use mathlib.Core.Logic.{◌⊎◌, ◌↔◌, inl, inr}
use mathlib.Core.Bool.{Bool, true, false, ◌&&◌, ◌||◌}
use mathlib.Core.List.{List, [], ◌∷◌, ◌++◌, map}
use native.Mathlib.Omega.{arith}
use runko.Prelude.Tests.{if◌then◌else◌, Bool-cases}

module _ {ℓ} {A : Type ℓ} where
  abbrev pub length : List A → ℕ
  length [] = 0
  length (x ∷ xs) = suc (length xs)

  pub length-append : (xs ys : List A) → length (xs ++ ys) ≡ length xs + length ys
  length-append [] ys = omega arith
  length-append (x ∷ xs) ys = omega (arith, length-append xs ys)

  -- Go's `len(xs) == 0`
  abbrev pub is_empty : List A → Bool
  is_empty [] = true
  is_empty (x ∷ xs) = false

  unfoldable pub any : (A → Bool) → List A → Bool
  any p [] = false
  any p (x ∷ xs) = p x || any p xs

  unfoldable pub all : (A → Bool) → List A → Bool
  all p [] = true
  all p (x ∷ xs) = p x && all p xs

  unfoldable pub keep : (A → Bool) → List A → List A
  keep p [] = []
  keep p (x ∷ xs) = if p x then x ∷ keep p xs else keep p xs

  abbrev pub All {κ} : (A → Type κ) → List A → Type κ
  All P [] = Unit
  All P (x ∷ xs) = P x × All P xs

-- Membership, as a predicate by recursion.
abbrev pub In : {A : Type 0} → A → List A → Type 0
In a [] = ⊥
In a (x ∷ xs) = (x ≡ a) ⊎ In a xs

-- A filter keeps the members that pass.
pub In-keep :
    {A : Type 0} (p : A → Bool) (a : A) (xs : List A) → In a (keep p xs) ↔ (In a xs × (p a ≡ true))
unfolding keep
In-keep p a [] = (λ h. elim h [ ], λ h. elim h.0 [ ])
In-keep p a (x ∷ xs) =
    let (f, g) = In-keep p a xs in
    elim (Bool-cases (p x)) [
      | inl e ↦ rw e (
        λ h. elim h [ inl same ↦ (inl same, sym (ap p same) ∙ e) | inr i ↦ (inr (f i).0, (f i).1) ],
        λ (i, k). elim i [ inl same ↦ inl same | inr j ↦ inr (g (j, k)) ],
      )
      | inr e ↦ rw e (
        λ h. (inr (f h).0, (f h).1),
        λ (i, k). elim i [ inl same ↦ absurd (cc (ap p same)) | inr j ↦ g (j, k) ],
      )
    ]

pub In-map :
    {A B : Type 0} (f : A → B) (b : B) (xs : List A)
    → In b (map f xs) ↔ ((a : A) × In a xs × (f a ≡ b))
In-map f b [] = (λ i. elim i [ ], λ (a, i, e). elim i [ ])
In-map f b (x ∷ xs) =
    let (to, from) = In-map f b xs in
    (
      λ i. elim i [ inl e ↦ (x, inl refl, e) | inr j ↦ let (a, k, e) = to j in (a, inr k, e) ],
      λ (a, i, e). elim i [ inl s ↦ inl (ap f s ∙ e) | inr j ↦ inr (from (a, j, e)) ],
    )

pub is_empty-append {ℓ} :
    {A : Type ℓ} (xs ys : List A) → is_empty (xs ++ ys) ≡ (is_empty xs && is_empty ys)
is_empty-append [] ys = refl
is_empty-append (x ∷ xs) ys = refl

pub is_empty-map {ℓ κ} :
    {A : Type ℓ} {B : Type κ} (f : A → B) (xs : List A) → is_empty (map f xs) ≡ is_empty xs
is_empty-map f [] = refl
is_empty-map f (x ∷ xs) = refl

pub is_empty_iff {ℓ} : {A : Type ℓ} (xs : List A) → (is_empty xs ≡ true) ↔ (xs ≡ [])
is_empty_iff [] = (λ h. refl, λ h. refl)
is_empty_iff (x ∷ xs) = (λ h. ground arith, λ h. ground arith)

-- What is empty, by how a list is made.
pub ruleset emptiness = (is_empty-append, is_empty-map)
