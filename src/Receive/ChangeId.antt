-- ===== src/Receive/ChangeId.antt =====
-- platform/receive/changeid.go. The trailer's pattern has no newline in it, so that its leftmost
-- match is the first line that is a trailer as a whole. `sha1_hex`, the hexadecimal SHA-1 of a
-- text, is a parameter.
pub mod Trailers
use runko.Prelude.{
  ℕ, ◌≡◌, refl, sym, ap, ◌∙◌, subst, ◌≢◌, ◌⊎◌, inl, inr, Bool, true, false, ◌&&◌, Option, none,
  some, List, [], ◌∷◌, ◌++◌, arith, leb, ◌==◌, Bool-cases, Option-cases, List-cases, length,
  is_empty, all, Text, codes, cut_prefix, cut_prefix-append, if◌then◌else◌, ◌||◌,
}

abbrev newline : ℕ
newline = 10

cons_line : ℕ → List Text → List Text
cons_line c [] = (c ∷ []) ∷ []
cons_line c (l ∷ ls) = (c ∷ l) ∷ ls

lines : Text → List Text
unfolding cons_line
lines [] = [] ∷ []
lines (c ∷ s) = let rest = lines s in if c == newline then [] ∷ rest else cons_line c rest

-- [0-9a-f]
abbrev pub hex_digit : ℕ → Bool
hex_digit c = (leb b'0' c && leb c b'9') || (leb b'a' c && leb c b'f')

-- what a match captures: "I" and 40 hexadecimal digits
trailer_id : Text → Option Text
unfolding cut_prefix all
trailer_id line = elim (cut_prefix (codes "Change-Id: I") line) [
  | none ↦ none
  | some digits ↦ if length digits == 40 && all hex_digit digits then some (b'I' ∷ digits) else none
]

first_trailer : List Text → Option Text
unfolding trailer_id
first_trailer [] = none
first_trailer (line ∷ rest) = elim (trailer_id line) [
  | some id ↦ some id
  | none ↦ first_trailer rest
]

-- ParseChangeID
pub parse_change_id : Text → Option Text
unfolding first_trailer lines
parse_change_id message = first_trailer (lines message)

-- GenerateChangeID
pub generate_change_id : (Text → Text) → Text → Text
generate_change_id sha1_hex seed = b'I' ∷ sha1_hex seed

-- strings.TrimRight(message, "\n")
trim_right_newlines : Text → Text
trim_right_newlines [] = []
trim_right_newlines (c ∷ s) =
    let t = trim_right_newlines s in if c == newline && is_empty t then [] else c ∷ t

-- EnsureChangeID: the id and the message that carries it
pub ensure_change_id : (Text → Text) → Text → Text → Text × Text
unfolding parse_change_id generate_change_id trim_right_newlines
ensure_change_id sha1_hex message seed = elim (parse_change_id message) [
  | some id ↦ (id, message)
  | none ↦
      let id = generate_change_id sha1_hex seed in
      (id, trim_right_newlines message ++ (codes "\n\nChange-Id: " ++ (id ++ codes "\n")))
]
