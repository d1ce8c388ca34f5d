-- ===== src/Receive/MagicRef.antt =====
-- platform/receive/magicref.go.
use runko.Prelude.{
  ◌≡◌, refl, ◌≢◌, ◌↔◌, inl, inr, Bool, true, Option, none, some, [], ◌∷◌, ◌++◌, arith, Option-cases,
  is_empty, Text, codes, text_eq, text_eq_iff, cut_prefix, cut_prefix-append, cut_prefix_sound,
  if◌then◌else◌,
}

abbrev pub magic_ref_prefix : Text
magic_ref_prefix = codes "refs/for/"

-- ParseMagicRef
unfoldable pub parse_magic_ref : Text → Option Text
unfolding cut_prefix
parse_magic_ref ref = elim (cut_prefix magic_ref_prefix ref) [
  | none ↦ none
  | some trunk ↦ if is_empty trunk then none else some trunk
]

-- IsDirectTrunkPush
unfoldable pub is_direct_trunk_push : Text → Text → Bool
unfolding text_eq
is_direct_trunk_push ref trunk_ref = text_eq ref (codes "refs/heads/" ++ trunk_ref)

-- A ref is taken as a magic ref for `trunk` exactly if it is the prefix followed by the non-empty
-- `trunk`.
pub parse_magic_ref_iff :
    (ref trunk : Text)
    → (parse_magic_ref ref ≡ some trunk) ↔ ((ref ≡ magic_ref_prefix ++ trunk) × (trunk ≢ []))
unfolding parse_magic_ref
parse_magic_ref_iff ref trunk =
    (sound, λ (e, n). rw (e, cut_prefix-append magic_ref_prefix trunk) (filled trunk n))
  where
    filled : (t : Text) → t ≢ [] → (if is_empty t then none else some t) ≡ some t
    filled [] n = absurd (n refl)
    filled (c ∷ t) n = refl

    sound : parse_magic_ref ref ≡ some trunk → (ref ≡ magic_ref_prefix ++ trunk) × (trunk ≢ [])
    sound h = elim (Option-cases (cut_prefix magic_ref_prefix ref)) [
      | inl e ↦ ground arith
      | inr ([], e) ↦ ground arith
      | inr (c ∷ t, e) ↦
          let same : c ∷ t ≡ trunk = ground arith in
          (cut_prefix_sound magic_ref_prefix ref trunk (rw (← same) e), λ k. ground arith)
    ]

-- No direct push to a trunk is a magic ref.
pub is_direct_trunk_push-not-magic :
    (ref trunk_ref : Text) → is_direct_trunk_push ref trunk_ref ≡ true → parse_magic_ref ref ≡ none
unfolding is_direct_trunk_push parse_magic_ref cut_prefix
is_direct_trunk_push-not-magic ref trunk_ref h =
    let e = (text_eq_iff ref (codes "refs/heads/" ++ trunk_ref)).0 h in rw e apart
  where
    apart : parse_magic_ref (codes "refs/heads/" ++ trunk_ref) ≡ none
    apart = refl
