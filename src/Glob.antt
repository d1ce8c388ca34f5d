-- ===== src/Glob.antt =====
-- platform/affected/compute.go, the glob dialect: MatchPath, MatchOrdered and MatchOrderedWhich.
pub mod PathMatch
pub mod Laws
mod Examples
use runko.Prelude.{
  ℕ, Bool, true, false, not, ◌&&◌, Option, none, some, List, [], ◌∷◌, ◌==◌, Text, codes, any,
  text_eq, has_prefix, cut_prefix, ◌++◌, if◌then◌else◌, ◌||◌,
}
use PathMatch.{path_match}

abbrev pub slash : ℕ
slash = b'/'

-- strings.CutSuffix: what stands before the suffix
cut_suffix : Text → Text → Option Text
cut_suffix suffix [] = if text_eq [] suffix then some [] else none
cut_suffix suffix (c ∷ s) = elim (cut_suffix suffix s) [
  | some t ↦ some (c ∷ t)
  | none ↦ if text_eq (c ∷ s) suffix then some [] else none
]

-- what follows each slash of a path, the longest first
pub after_slashes : Text → List Text
after_slashes [] = []
after_slashes (c ∷ s) = if c == slash then s ∷ after_slashes s else after_slashes s

-- the loop of the "**/" form: the path itself, then every suffix behind a slash
any_depth : (Text → Bool) → Text → Bool
unfolding any after_slashes
any_depth matches sub = matches sub || any matches (after_slashes sub)

-- p == prefix || strings.HasPrefix(p, prefix+"/"), the containment test of several packages
unfoldable pub under : Text → Text → Bool
unfolding text_eq has_prefix
under p prefix = text_eq p prefix || has_prefix (prefix ++ slash ∷ []) p

-- the "prefix/**" form, else path.Match
match_rooted : Text → Text → Bool
unfolding cut_suffix under path_match
match_rooted pattern p = elim (cut_suffix (codes "/**") pattern) [
  | some prefix ↦ under p prefix
  | none ↦ path_match pattern p
]

-- MatchPath
unfoldable pub match_path : Text → Text → Bool
unfolding any_depth match_rooted
match_path (a ∷ b ∷ c ∷ rest) p =
    if a == b'*' && b == b'*' && c == slash
    then any_depth (match_path rest) p
    else match_rooted (a ∷ b ∷ c ∷ rest) p
match_path pattern p = match_rooted pattern p

-- the pattern of an entry, and whether "!" negates it
pub bang : Text → Text × Bool
unfolding cut_prefix
bang entry = elim (cut_prefix (codes "!") entry) [
  | some pattern ↦ (pattern, true)
  | none ↦ (entry, false)
]

-- MatchOrderedWhich
unfoldable pub match_ordered_which : List Text → Text → Text × Bool
unfolding bang match_path
match_ordered_which [] p = ([], false)
match_ordered_which (entry ∷ entries) p =
    let later = match_ordered_which entries p in
    let (pattern, negated) = bang entry in
    if match_path pattern p then (entry, not negated) else later

-- MatchOrdered
unfoldable pub match_ordered : List Text → Text → Bool
unfolding match_ordered_which
match_ordered entries p = (match_ordered_which entries p).1
