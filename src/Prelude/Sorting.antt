-- ===== src/Prelude/Sorting.antt =====
-- sort.Strings, and the canonical list of a set of names.
use runko.Prelude.Texts.{
  Text, text_eq, text_eq_iff, text_lt, text_lt_irrefl, text_lt_trans, text_lt_total, mem,
}
use runko.Prelude.Tests.{if◌then◌else◌, Bool-cases}
use mathlib.Core.Path.{◌≡◌, refl, ap, ap₂, sym, ◌∙◌}
use mathlib.Core.Logic.{inl, inr}
use mathlib.Core.Bool.{true, false}
use mathlib.Core.List.{List, [], ◌∷◌}
use native.Mathlib.Omega.{arith}

insert_text : Text → List Text → List Text
insert_text x [] = x ∷ []
insert_text x (y ∷ ys) = if text_lt y x then y ∷ insert_text x ys else x ∷ y ∷ ys

unfoldable pub sort_texts : List Text → List Text
unfolding insert_text text_lt
sort_texts [] = []
sort_texts (x ∷ xs) = insert_text x (sort_texts xs)

-- Each member of the list is greater than `x`.
abbrev Above : Text → List Text → Type 0
Above x ys = (y : Text) → mem y ys ≡ true → text_lt x y ≡ true

-- No member of the list is less than `x`.
abbrev NotBelow : Text → List Text → Type 0
NotBelow x ys = (y : Text) → mem y ys ≡ true → text_lt y x ≡ false

abbrev pub Ascending : List Text → Type 0
Ascending [] = Unit
Ascending (x ∷ xs) = Above x xs × Ascending xs

abbrev Ordered : List Text → Type 0
Ordered [] = Unit
Ordered (x ∷ xs) = NotBelow x xs × Ordered xs

mem-insert_text :
    (x y : Text) (ys : List Text)
    → mem y (insert_text x ys) ≡ (if text_eq x y then true else mem y ys)
unfolding insert_text mem
mem-insert_text x y [] = refl
mem-insert_text x y (z ∷ zs) = ground (arith, mem-insert_text x y zs)

text_lt_asym : (s t : Text) → text_lt s t ≡ true → text_lt t s ≡ false
text_lt_asym s t h = elim (Bool-cases (text_lt t s)) [
  | inl k ↦ ground (arith, text_lt_trans s t s h k, text_lt_irrefl s)
  | inr k ↦ k
]

-- `x` is not below `z` if it is not below some `y` that is at most as far up.
not_below_trans : (x y z : Text) → text_lt y x ≡ false → text_lt z y ≡ false → text_lt z x ≡ false
not_below_trans x y z h k = elim (Bool-cases (text_lt z x)) [
  | inr r ↦ r
  | inl r ↦ elim (Bool-cases (text_lt y z)) [
    | inl s ↦ ground (arith, text_lt_trans y z x s r)
    | inr s ↦
        let e : y ≡ z = text_lt_total y z s k in ground (arith, ap (λ (t : Text). text_lt t x) e)
  ]
]

insert_text-Ordered : (x : Text) (ys : List Text) → Ordered ys → Ordered (insert_text x ys)
unfolding insert_text mem
insert_text-Ordered x [] o = (λ y m. ground arith, tt)
insert_text-Ordered x (y ∷ ys) o = elim (Bool-cases (text_lt y x)) [
  | inl lt ↦ rw lt (
    λ z m. elim (Bool-cases (text_eq x z)) [
      | inl e ↦ rw (← (text_eq_iff x z).0 e) (text_lt_asym y x lt)
      | inr e ↦ o.0 z (ground (arith, mem-insert_text x z ys))
    ],
    insert_text-Ordered x ys o.1,
  )
  | inr ge ↦ rw ge (
    λ z m. elim (Bool-cases (text_eq y z)) [
      | inl e ↦ rw (← (text_eq_iff y z).0 e) ge
      | inr e ↦ not_below_trans x y z ge (o.0 z (ground arith))
    ],
    o,
  )
]

sort_texts-Ordered : (xs : List Text) → Ordered (sort_texts xs)
unfolding sort_texts
sort_texts-Ordered [] = tt
sort_texts-Ordered (x ∷ xs) = insert_text-Ordered x _ (sort_texts-Ordered xs)

pub mem-sort_texts : (xs : List Text) (y : Text) → mem y (sort_texts xs) ≡ mem y xs
unfolding sort_texts mem
mem-sort_texts [] y = refl
mem-sort_texts (x ∷ xs) y = ground (arith, mem-insert_text x y (sort_texts xs), mem-sort_texts xs y)

dedup_from : Text → List Text → List Text
dedup_from last [] = []
dedup_from last (p ∷ ps) = if text_eq p last then dedup_from last ps else p ∷ dedup_from p ps

-- the loop of dedupSorted over a sorted list
dedup : List Text → List Text
unfolding dedup_from
dedup [] = []
dedup (x ∷ xs) = x ∷ dedup_from x xs

-- dedupSorted
unfoldable pub dedup_sorted : List Text → List Text
unfolding dedup sort_texts
dedup_sorted paths = dedup (sort_texts paths)

mem-dedup_from :
    (last : Text) (xs : List Text) (y : Text)
    → (if text_eq last y then true else mem y (dedup_from last xs))
      ≡ (if text_eq last y then true else mem y xs)
unfolding dedup_from mem
mem-dedup_from last [] y = refl
mem-dedup_from last (p ∷ ps) y = ground (
  arith,
  mem-dedup_from last ps y,
  mem-dedup_from p ps y,
  text_eq_iff p last,
  text_eq_iff p y,
  text_eq_iff last y,
)

mem-dedup : (xs : List Text) (y : Text) → mem y (dedup xs) ≡ mem y xs
unfolding dedup mem
mem-dedup [] y = refl
mem-dedup (x ∷ xs) y = mem-dedup_from x xs y

-- Sorting and removing duplicates keeps the members.
pub mem-dedup_sorted : (xs : List Text) (y : Text) → mem y (dedup_sorted xs) ≡ mem y xs
unfolding dedup_sorted
mem-dedup_sorted xs y = mem-dedup (sort_texts xs) y ∙ mem-sort_texts xs y

dedup_from-Above :
    (last : Text) (xs : List Text)
    → NotBelow last xs
    → Ordered xs
    → Above last (dedup_from last xs) × Ascending (dedup_from last xs)
unfolding dedup_from mem
dedup_from-Above last [] n o = (λ y m. ground arith, tt)
dedup_from-Above last (p ∷ ps) n o = elim (Bool-cases (text_eq p last)) [
  | inl e ↦ rw e (dedup_from-Above last ps (λ y m. n y (ground arith)) o.1)
  | inr e ↦
      let (above, asc) = dedup_from-Above p ps o.0 o.1 in
      let lt = below p n e in
      rw e (
        λ y m. elim (Bool-cases (text_eq p y)) [
          | inl same ↦ rw (← (text_eq_iff p y).0 same) lt
          | inr other ↦ text_lt_trans last p y lt (above y (ground arith))
        ],
        (above, asc),
      )
]
  where
    below : (p : Text) → NotBelow last (p ∷ ps) → text_eq p last ≡ false → text_lt last p ≡ true
    below p n e = elim (Bool-cases (text_lt last p)) [
      | inl lt ↦ lt
      | inr ge ↦ ground (
        arith,
        text_eq_iff p last,
        text_eq_iff p p,
        text_lt_total last p ge (n p (ground (arith, text_eq_iff p p))),
      )
    ]

-- The list that comes out is strictly ascending.
pub dedup_sorted-Ascending : (xs : List Text) → Ascending (dedup_sorted xs)
unfolding dedup_sorted dedup
dedup_sorted-Ascending xs = from (sort_texts xs) (sort_texts-Ordered xs)
  where
    from : (ys : List Text) → Ordered ys → Ascending (dedup ys)
    from [] o = tt
    from (y ∷ ys) o = dedup_from-Above y ys o.0 o.1

abbrev pub SameMembers : List Text → List Text → Type 0
SameMembers xs ys = (y : Text) → mem y xs ≡ mem y ys

Above-not-mem : (x : Text) (xs : List Text) → Above x xs → mem x xs ≡ false
Above-not-mem x xs a = elim (Bool-cases (mem x xs)) [
  | inl m ↦ ground (arith, a x m, text_lt_irrefl x)
  | inr m ↦ m
]

-- Strictly ascending lists with the same members are equal.
Ascending-unique : (xs ys : List Text) → Ascending xs → Ascending ys → SameMembers xs ys → xs ≡ ys
unfolding mem
Ascending-unique [] [] a b s = refl
Ascending-unique [] (y ∷ ys) a b s = ground (arith, s y, text_eq_iff y y)
Ascending-unique (x ∷ xs) [] a b s = ground (arith, s x, text_eq_iff x x)
Ascending-unique (x ∷ xs) (y ∷ ys) a b s =
    let e = heads in ap₂ ◌∷◌ e (Ascending-unique xs ys a.1 b.1 (tails e))
  where
    heads : x ≡ y
    heads = elim (Bool-cases (text_eq x y)) [
      | inl e ↦ (text_eq_iff x y).0 e
      | inr e ↦ ground (
        arith,
        s x,
        s y,
        a.0 y,
        b.0 x,
        text_eq_iff x x,
        text_eq_iff y y,
        text_eq_iff y x,
        text_eq_iff x y,
        text_lt_asym x y,
      )
    ]

    tails : x ≡ y → SameMembers xs ys
    tails e z = elim (Bool-cases (text_eq x z)) [
      | inl same ↦
          let ez : x ≡ z = (text_eq_iff x z).0 same in
          let out : mem x ys ≡ false = rw e (Above-not-mem y ys b.0) in
          rw (← ez) (Above-not-mem x xs a.0 ∙ sym out)
      | inr other ↦ ground (arith, s z, ap (λ (t : Text). text_eq t z) e)
    ]

-- The list depends on the members alone, not on their order or number.
pub dedup_sorted_canonical :
    (xs ys : List Text) → SameMembers xs ys → dedup_sorted xs ≡ dedup_sorted ys
dedup_sorted_canonical xs ys s =
    Ascending-unique _ _ (dedup_sorted-Ascending xs) (dedup_sorted-Ascending ys)
      λ y. mem-dedup_sorted xs y ∙ s y ∙ sym (mem-dedup_sorted ys y)
