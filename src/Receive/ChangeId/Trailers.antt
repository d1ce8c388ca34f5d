-- ===== src/Receive/ChangeId/Trailers.antt =====
-- What the message that EnsureChangeID answers parses as.
use runko.Prelude.{
  ℕ, ◌≡◌, refl, sym, ap, ◌∙◌, subst, ◌≢◌, ◌⊎◌, inl, inr, true, false, ◌&&◌, none, some, List, [],
  ◌∷◌, ◌++◌, arith, ◌==◌, Bool-cases, Option-cases, List-cases, length, is_empty, all, Text, codes,
  cut_prefix-append,
}
use runko.Receive.ChangeId.{
  newline, cons_line, lines, hex_digit, trailer_id, first_trailer, parse_change_id,
  generate_change_id, trim_right_newlines, ensure_change_id,
}

-- A SHA-1 prints as 40 hexadecimal digits.
abbrev pub PrintsHex : (Text → Text) → Type 0
PrintsHex sha1_hex = (s : Text) → (length (sha1_hex s) ≡ 40) × (all hex_digit (sha1_hex s) ≡ true)

cons_line-append :
    (c : ℕ) (xs ys : List Text) → xs ≢ [] → cons_line c (xs ++ ys) ≡ cons_line c xs ++ ys
unfolding cons_line
cons_line-append c [] ys n = absurd (n refl)
cons_line-append c (x ∷ xs) ys n = refl

lines-not-empty : (s : Text) → lines s ≢ []
unfolding lines cons_line
lines-not-empty [] e = ground arith
lines-not-empty (c ∷ s) e = elim (List-cases (lines s)) [
  | inl k ↦ lines-not-empty s k
  | inr (l, ls, k) ↦ ground arith
]

-- A newline splits the lines.
lines-append : (a b : Text) → lines (a ++ newline ∷ b) ≡ lines a ++ lines b
unfolding lines
lines-append [] b = refl
lines-append (c ∷ a) b = elim (Bool-cases (c == newline)) [
  | inl e ↦ rw (e, lines-append a b) refl
  | inr e ↦ rw (e, lines-append a b) (cons_line-append c (lines a) (lines b) (lines-not-empty a))
]

first_trailer-append :
    (xs ys : List Text) → first_trailer xs ≡ none → first_trailer (xs ++ ys) ≡ first_trailer ys
unfolding first_trailer
first_trailer-append [] ys h = refl
first_trailer-append (x ∷ xs) ys h = elim (Option-cases (trailer_id x)) [
  | inl e ↦ rw e (first_trailer-append xs ys (rw e at h))
  | inr (id, e) ↦ ground arith
]

first_trailer-prefix :
    (xs ys : List Text) → first_trailer (xs ++ ys) ≡ none → first_trailer xs ≡ none
unfolding first_trailer
first_trailer-prefix [] ys h = refl
first_trailer-prefix (x ∷ xs) ys h = elim (Option-cases (trailer_id x)) [
  | inl e ↦ rw e (first_trailer-prefix xs ys (rw e at h))
  | inr (id, e) ↦ ground arith
]

-- What is trimmed off starts with a newline.
trim_right_newlines-split :
    (m : Text)
    → (trim_right_newlines m ≡ m) ⊎ ((b : Text) × (m ≡ trim_right_newlines m ++ newline ∷ b))
unfolding trim_right_newlines
trim_right_newlines-split [] = inl refl
trim_right_newlines-split (c ∷ s) =
    elim (Bool-cases (c == newline && is_empty (trim_right_newlines s))) [
      | inl e ↦ rw e (inr (s, ground arith))
      | inr e ↦ elim (trim_right_newlines-split s) [
        | inl k ↦ rw e (inl (ground arith))
        | inr (b, k) ↦ rw e (inr (b, ap (λ (t : Text). c ∷ t) k))
      ]
    ]

no_trailer-trim :
    (m : Text)
    → first_trailer (lines m) ≡ none
    → first_trailer (lines (trim_right_newlines m)) ≡ none
no_trailer-trim m h = elim (trim_right_newlines-split m) [
  | inl e ↦ subst (λ (t : Text). first_trailer (lines t) ≡ none) (sym e) h
  | inr (b, e) ↦ first_trailer-prefix (lines (trim_right_newlines m)) (lines b) (
      sym (ap first_trailer (lines-append (trim_right_newlines m) b))
      ∙ (sym (ap (λ (t : Text). first_trailer (lines t)) e) ∙ h))
]

lines-hex : (h : Text) → all hex_digit h ≡ true → lines h ≡ h ∷ []
unfolding lines cons_line all
lines-hex [] e = refl
lines-hex (c ∷ h) e =
    let k = lines-hex h (ground arith) in
    let n : (c == newline) ≡ false = ground arith in rw (n, k) refl

trailer_id-hex :
    (h : Text)
    → length h ≡ 40
    → all hex_digit h ≡ true
    → trailer_id (codes "Change-Id: I" ++ h) ≡ some (b'I' ∷ h)
unfolding trailer_id
trailer_id-hex h l a = ground (arith, cut_prefix-append (codes "Change-Id: I") h)

first_trailer-hit :
    (x : Text) (id : Text) (rest : List Text)
    → trailer_id x ≡ some id
    → first_trailer ([] ∷ x ∷ rest) ≡ some id
unfolding first_trailer trailer_id
first_trailer-hit x id rest h = rw h refl

lines-trailer :
    (h : Text)
    → all hex_digit h ≡ true
    → lines (codes "\nChange-Id: I" ++ (h ++ newline ∷ []))
      ≡ [] ∷ (codes "Change-Id: I" ++ h) ∷ [] ∷ []
unfolding lines cons_line
lines-trailer h a =
    let tail : lines (h ++ newline ∷ []) ≡ h ∷ [] ∷ [] =
      rw (lines-append h [], lines-hex h a) refl in
    rw tail refl

-- The paragraph that is appended parses as its id.
appended-parses :
    (m h : Text)
    → first_trailer (lines m) ≡ none
    → length h ≡ 40
    → all hex_digit h ≡ true
    → first_trailer (lines (m ++ (codes "\n\nChange-Id: " ++ ((b'I' ∷ h) ++ codes "\n"))))
      ≡ some (b'I' ∷ h)
appended-parses m h n l a =
    let body = codes "\nChange-Id: I" ++ (h ++ newline ∷ []) in
    ap first_trailer (lines-append m body)
    ∙ (first_trailer-append (lines m) (lines body) n
        ∙ (ap first_trailer (lines-trailer h a)
            ∙ first_trailer-hit (codes "Change-Id: I" ++ h) (b'I' ∷ h) ([] ∷ [])
                (trailer_id-hex h l a)))

-- Where SHA-1 prints as 40 hexadecimal digits, the message that goes on carries the Change-Id that
-- the change gets: it parses as that id, whether the push brought one or not.
pub ensure_change_id-parses :
    (sha1_hex : Text → Text)
    → PrintsHex sha1_hex
    → (message seed : Text)
    → parse_change_id (ensure_change_id sha1_hex message seed).1
      ≡ some (ensure_change_id sha1_hex message seed).0
unfolding ensure_change_id parse_change_id generate_change_id
ensure_change_id-parses sha1_hex hex message seed =
    elim (Option-cases (first_trailer (lines message))) [
      | inl e ↦
          let (l, a) = hex seed in
          rw (e, ensure_change_id)
            (appended-parses (trim_right_newlines message) (sha1_hex seed)
              (no_trailer-trim message e) l a)
      | inr (id, e) ↦ rw (e, ensure_change_id) e
    ]

-- Pushing that message again, with any seed, changes neither the id nor the message.
pub ensure_change_id-idempotent :
    (sha1_hex : Text → Text)
    → PrintsHex sha1_hex
    → (message seed again : Text)
    → ensure_change_id sha1_hex (ensure_change_id sha1_hex message seed).1 again
      ≡ ensure_change_id sha1_hex message seed
unfolding ensure_change_id
ensure_change_id-idempotent sha1_hex hex message seed again =
    kept (ensure_change_id sha1_hex message seed)
      (ensure_change_id-parses sha1_hex hex message seed)
  where
    kept :
        (r : Text × Text) → parse_change_id r.1 ≡ some r.0 → ensure_change_id sha1_hex r.1 again ≡ r
    kept (id, m) e = rw (e, ensure_change_id) refl
