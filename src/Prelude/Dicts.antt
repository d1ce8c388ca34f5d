-- ===== src/Prelude/Dicts.antt =====
-- Go maps with string keys, as association lists; a key stands in one entry at most where the
-- entries come from `put`. The order of the entries stands for the unspecified order of a range.
use mathlib.Core.Path.{◌≡◌, refl}
use mathlib.Core.Option.{Option, none, some}
use mathlib.Core.List.{List, [], ◌∷◌}
use native.Mathlib.Omega.{arith}
use mathlib.Core.Logic.{◌↔◌, ◌⊎◌, inl, inr}
use mathlib.Core.Bool.{Bool}
use runko.Prelude.Tests.{if◌then◌else◌, Bool-cases}
use runko.Prelude.Lists.{In}
use runko.Prelude.Texts.{Text, text_eq, text_eq_iff, text_lt}

module _ {V : Type 0} where
  unfoldable pub lookup : Text → List (Text × V) → Option V
  unfolding text_eq
  lookup k [] = none
  lookup k ((key, v) ∷ d) = if text_eq key k then some v else lookup k d

  unfoldable pub put : Text → V → List (Text × V) → List (Text × V)
  unfolding text_eq
  put k v [] = (k, v) ∷ []
  put k v ((key, w) ∷ d) = if text_eq key k then (key, v) ∷ d else (key, w) ∷ put k v d

  unfoldable pub values : List (Text × V) → List V
  values [] = []
  values ((key, v) ∷ d) = v ∷ values d

  -- delete(m, k)
  unfoldable pub remove : Text → List (Text × V) → List (Text × V)
  unfolding text_eq
  remove k [] = []
  remove k ((key, v) ∷ d) = if text_eq key k then remove k d else (key, v) ∷ remove k d

  pub lookup-remove :
      (k j : Text) (d : List (Text × V))
      → lookup j (remove k d) ≡ (if text_eq k j then none else lookup j d)
  unfolding lookup remove
  lookup-remove k j [] = ground arith
  lookup-remove k j ((key, w) ∷ d) =
      ground (arith, lookup-remove k j d, text_eq_iff key k, text_eq_iff key j, text_eq_iff k j)

  -- What a map holds after a store, for the key and for every other.
  pub lookup-put :
      (k j : Text) (v : V) (d : List (Text × V))
      → lookup j (put k v d) ≡ (if text_eq k j then some v else lookup j d)
  unfolding lookup put
  lookup-put k j v [] = refl
  lookup-put k j v ((key, w) ∷ d) = ground (
    arith,
    lookup-put k j v d,
    text_eq_iff key k,
    text_eq_iff key j,
    text_eq_iff k j,
    text_eq_iff j j,
  )

module _ {V : Type 0} where
  insert_by : (V → Text) → V → List V → List V
  unfolding text_lt
  insert_by key x [] = x ∷ []
  insert_by key x (y ∷ ys) = if text_lt (key y) (key x) then y ∷ insert_by key x ys else x ∷ y ∷ ys

  -- sort.Slice by a text
  unfoldable pub sort_by : (V → Text) → List V → List V
  unfolding insert_by
  sort_by key [] = []
  sort_by key (x ∷ xs) = insert_by key x (sort_by key xs)

module _ {V : Type 0} where
  insert_with : (V → V → Bool) → V → List V → List V
  insert_with less x [] = x ∷ []
  insert_with less x (y ∷ ys) = if less y x then y ∷ insert_with less x ys else x ∷ y ∷ ys

  -- sort.Slice by a comparison
  unfoldable pub sort_with : (V → V → Bool) → List V → List V
  unfolding insert_with
  sort_with less [] = []
  sort_with less (x ∷ xs) = insert_with less x (sort_with less xs)

  In-insert_with :
      (less : V → V → Bool) (x y : V) (ys : List V)
      → In y (insert_with less x ys) ↔ ((x ≡ y) ⊎ In y ys)
  unfolding insert_with
  In-insert_with less x y [] = (λ h. h, λ h. h)
  In-insert_with less x y (z ∷ zs) =
      let (f, g) = In-insert_with less x y zs in
      elim (Bool-cases (less z x)) [
        | inr e ↦ rw e (λ h. h, λ h. h)
        | inl e ↦ rw e (
          λ h. elim h [
            | inl a ↦ inr (inl a)
            | inr i ↦ elim (f i) [ inl a ↦ inl a | inr k ↦ inr (inr k) ]
          ],
          λ h. elim h [
            | inl a ↦ inr (g (inl a))
            | inr k ↦ elim k [ inl a ↦ inl a | inr i ↦ inr (g (inr i)) ]
          ],
        )
      ]

  -- Sorting keeps the members.
  pub In-sort_with :
      (less : V → V → Bool) (y : V) (xs : List V) → In y (sort_with less xs) ↔ In y xs
  unfolding sort_with
  In-sort_with less y [] = (λ h. h, λ h. h)
  In-sort_with less y (x ∷ xs) =
      let (f, g) = In-sort_with less y xs in
      let (a, b) = In-insert_with less x y (sort_with less xs) in
      (
        λ h. elim (a h) [ inl e ↦ inl e | inr i ↦ inr (f i) ],
        λ h. elim h [ inl e ↦ b (inl e) | inr i ↦ b (inr (g i)) ],
      )
