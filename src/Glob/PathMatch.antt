-- ===== src/Glob/PathMatch.antt =====
-- Go's path.Match, which platform/affected/compute.go calls: a pattern is read into items, cut at
-- its stars, and each starred chunk is placed at the first position where it fits. Malformed
-- patterns match nothing. Not the repository's code, so no part of it is a component of its own.
use runko.Prelude.{
  ℕ, zero, suc, ◌≡◌, refl, Bool, true, false, not, ◌&&◌, Option, none, some, List, [], ◌∷◌, arith,
  leb, ◌==◌, Text, length, is_empty, all, text_eq, map, if◌then◌else◌, ◌||◌,
}

-- one item of a pattern; a class is negated or not, and holds its ranges
pub data Item : Type 0 where
  star one : Item
  lit : ℕ → Item
  class : Bool → List (ℕ × ℕ) → Item

-- a code point that may not be the last of the pattern
before_more : ℕ → Text → Option (ℕ × Text)
before_more c [] = none
before_more c (d ∷ s) = some (c, d ∷ s)

unescaped : Text → Option (ℕ × Text)
unescaped [] = none
unescaped (c ∷ s) = before_more c s

-- getEsc
bound : Text → Option (ℕ × Text)
unfolding before_more unescaped
bound [] = none
bound (c ∷ s) =
    if c == b'-' || c == b']' then none else if c == 0x5c then unescaped s else before_more c s

-- the upper end of a range, which is its lower end where no dash follows
upper : ℕ → Text → Option (ℕ × Text)
unfolding bound
upper lo [] = none
upper lo (c ∷ s) = if c == b'-' then bound s else some (lo, c ∷ s)

closes : List (ℕ × ℕ) → Text → Option Text
closes [] s = none
closes (r ∷ rs) [] = none
closes (r ∷ rs) (c ∷ s) = if c == b']' then some s else none

one_range : Text → Option ((ℕ × ℕ) × Text)
unfolding bound upper
one_range s = elim (bound s) [
  | none ↦ none
  | some (lo, s') ↦ elim (upper lo s') [ none ↦ none | some (hi, s'') ↦ some ((lo, hi), s'') ]
]

ranges : ℕ → List (ℕ × ℕ) → Text → Option (List (ℕ × ℕ) × Text)
unfolding one_range closes
ranges zero seen s = none
ranges (suc f) seen s = elim (closes seen s) [
  | some rest ↦ some (seen, rest)
  | none ↦ elim (one_range s) [ none ↦ none | some (r, s') ↦ ranges f (r ∷ seen) s' ]
]

negation : Text → Bool × Text
negation [] = (false, [])
negation (c ∷ s) = if c == b'^' then (true, s) else (false, c ∷ s)

class_item : Text → Option (Item × Text)
unfolding negation ranges
class_item s =
    let (negated, s') = negation s in
    elim (ranges (suc (length s')) [] s') [
      | none ↦ none
      | some (rs, rest) ↦ some (class negated rs, rest)
    ]

escaped_item : Text → Option (Item × Text)
escaped_item [] = none
escaped_item (c ∷ s) = some (lit c, s)

-- one item, and what follows it; `none` is path.ErrBadPattern
next_item : ℕ → Text → Option (Item × Text)
unfolding class_item escaped_item
next_item c s =
    if c == b'*'
    then some (star, s)
    else if c == b'?'
    then some (one, s)
    else if c == b'['
    then class_item s
    else if c == 0x5c
    then escaped_item s
    else some (lit c, s)

items_from : ℕ → Text → Option (List Item)
unfolding next_item
items_from f [] = some []
items_from zero (c ∷ s) = none
items_from (suc f) (c ∷ s) = elim (next_item c s) [
  | none ↦ none
  | some (i, rest) ↦ elim (items_from f rest) [ none ↦ none | some is ↦ some (i ∷ is) ]
]

pub items : Text → Option (List Item)
unfolding items_from
items s = items_from (length s) s

in_ranges : ℕ → List (ℕ × ℕ) → Bool
in_ranges c [] = false
in_ranges c ((lo, hi) ∷ rs) = leb lo c && leb c hi || in_ranges c rs

accepts : Item → ℕ → Bool
unfolding in_ranges
accepts star c = false
accepts one c = not (c == b'/')
accepts (lit d) c = d == c
accepts (class negated rs) c = if negated then not (in_ranges c rs) else in_ranges c rs

-- matchChunk: the text behind the chunk
match_chunk : List Item → Text → Option Text
unfolding accepts
match_chunk [] s = some s
match_chunk (i ∷ is) [] = none
match_chunk (i ∷ is) (c ∷ s) = let rest = match_chunk is s in if accepts i c then rest else none

-- The last chunk has to exhaust the text.
fits : Bool → Option Text → Option Text
fits last none = none
fits last (some t) = if last && not (is_empty t) then none else some t

-- The star before the chunk skips no slash.
place : List Item → Bool → Text → Option Text
unfolding match_chunk fits
place is last [] = fits last (match_chunk is [])
place is last (c ∷ s) = elim (fits last (match_chunk is (c ∷ s))) [
  | some t ↦ some t
  | none ↦ elim (c == b'/') [ true ↦ none | false ↦ place is last s ]
]

no_slash : Text → Bool
no_slash s = all (λ c. not (c == b'/')) s

starred : List (List Item) → Text → Bool
unfolding place no_slash all
starred [] s = is_empty s
starred ([] ∷ cs) s = no_slash s
starred ((i ∷ is) ∷ cs) s = elim (place (i ∷ is) (is_empty cs) s) [
  | none ↦ false
  | some t ↦ starred cs t
]

merge : List Item → List (List Item) → List (List Item)
merge [] (d ∷ cs) = d ∷ cs
merge c cs = c ∷ cs

-- the items before the first star, and the chunk behind each run of stars
chunks : List Item → List Item × List (List Item)
unfolding merge
chunks [] = ([], [])
chunks (star ∷ is) = let (c, cs) = chunks is in ([], merge c cs)
chunks (i ∷ is) = let (c, cs) = chunks is in (i ∷ c, cs)

match_items : List Item → Text → Bool
unfolding chunks starred fits match_chunk
match_items is s =
    let (c, cs) = chunks is in
    elim (fits (is_empty cs) (match_chunk c s)) [ none ↦ false | some t ↦ starred cs t ]

unfoldable pub path_match : Text → Text → Bool
unfolding items match_items
path_match pattern name = elim (items pattern) [ none ↦ false | some is ↦ match_items is name ]

-- A pattern with no special character.
abbrev pub is_plain : ℕ → Bool
is_plain c = not (c == b'*' || c == b'?' || c == b'[' || c == 0x5c)

items_from-plain : (p : Text) → all is_plain p ≡ true → items_from (length p) p ≡ some (map lit p)
unfolding items_from all
items_from-plain [] h = refl
items_from-plain (c ∷ p) h = ground (arith, items_from-plain p)

chunks-lit : (p : Text) → chunks (map lit p) ≡ (map lit p, [])
unfolding chunks
chunks-lit [] = refl
chunks-lit (c ∷ p) = rw (chunks-lit p)

fits-lit :
    (p s : Text) → fits true (match_chunk (map lit p) s) ≡ (if text_eq p s then some [] else none)
unfolding fits match_chunk text_eq
fits-lit [] [] = refl
fits-lit [] (c ∷ s) = refl
fits-lit (d ∷ p) [] = refl
fits-lit (d ∷ p) (c ∷ s) = ground (arith, fits-lit p s)

match_items-lit : (p s : Text) → match_items (map lit p) s ≡ text_eq p s
unfolding match_items starred
match_items-lit p s = ground (arith, chunks-lit p, fits-lit p s)

-- A plain pattern matches itself and no other text.
pub path_match-plain : (p s : Text) → all is_plain p ≡ true → path_match p s ≡ text_eq p s
unfolding path_match
path_match-plain p s h = rw (items_from-plain p h, path_match) (match_items-lit p s)
