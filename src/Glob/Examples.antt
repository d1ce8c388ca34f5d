-- ===== src/Glob/Examples.antt =====
-- Patterns on which the results of the path matcher apply.
use runko.Prelude.{◌≡◌, ◌⊎◌, true, false, not, List, [], ◌∷◌, ◌++◌, Text, codes}
use runko.Glob.{match_path, match_ordered_which, bang}
use runko.Glob.Laws.{Undecided, match_ordered_which_first}

abbrev readme : Text
readme = codes "docs/a/README"

abbrev entries : List Text
entries = codes "docs/**" ∷ codes "!**/README" ∷ []

match_ordered_which_first_example :
    (Undecided entries readme × (match_ordered_which entries readme ≡ ([], false)))
    ⊎ ((before : List Text) × (entry : Text) × (after : List Text) × (entries
          ≡ before ++ entry ∷ after)
        × Undecided before readme
        × (match_path (bang entry).0 readme ≡ true)
        × (match_ordered_which entries readme ≡ (entry, not (bang entry).1)))
match_ordered_which_first_example = match_ordered_which_first entries readme
