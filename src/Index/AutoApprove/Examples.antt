-- ===== src/Index/AutoApprove/Examples.antt =====
-- Two projects on which the results of the auto-approve zones apply.
use runko.Prelude.{
  ◌≤◌, ◌≡◌, ◌⊎◌, Bool, true, false, none, some, Option, List, [], ◌∷◌, length, In, Text, codes,
}
use runko.Index.Types.{IndexedProject, bare_project}
use runko.Index.AutoApprove.{auto_approved}
use runko.Index.AutoApprove.Nearest.{DeclaresFor, auto_approved_nearest}

abbrev test_project : Text → Option Bool → IndexedProject
test_project path auto = record (bare_project path) { auto_approve = auto }

abbrev projects : List IndexedProject
projects =
    test_project [] (some true)
    ∷ test_project (codes "pay") (some false)
    ∷ test_project (codes "pay/web") none
    ∷ []

abbrev web_file : Text
web_file = codes "pay/web/a.ts"

auto_approved_nearest_example :
    ((auto_approved projects web_file ≡ false)
      × ((q : IndexedProject) (w : Bool) → In q projects → ¬ DeclaresFor web_file q w))
    ⊎ ((p : IndexedProject) × In p projects
        × DeclaresFor web_file p (auto_approved projects web_file)
        × ((q : IndexedProject) (w : Bool)
            → In q projects
            → DeclaresFor web_file q w
            → length q.path ≤ length p.path))
auto_approved_nearest_example = auto_approved_nearest projects web_file
