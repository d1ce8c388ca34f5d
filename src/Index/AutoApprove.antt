-- ===== src/Index/AutoApprove.antt =====
-- platform/index/autoapprove.go: AutoApproved, AutoApprovedAll.
pub mod Nearest
mod Examples
use runko.Prelude.{
  ℕ, suc, ◌≤◌, ◌<◌, ◌≡◌, refl, sym, subst, ◌≢◌, ◌↔◌, ◌⊎◌, inl, inr, Bool, true, false, ◌&&◌, Option,
  none, some, List, [], ◌∷◌, arith, leb, Bool-cases, Option-cases, length, is_empty, all, In, All,
  Text, codes, text_eq, if◌then◌else◌, ◌||◌,
}
use runko.Glob.{under}
use runko.Index.Types.{IndexedProject}

-- ownsPath
unfoldable pub owns_path : Text → Text → Bool
unfolding under text_eq
owns_path project_path path =
    is_empty project_path || text_eq project_path (codes ".") || under path project_path

-- the loop: the best length so far, one more than the source's, and what its project declares
decide_from : List IndexedProject → Text → ℕ → Option Bool → Option Bool
unfolding owns_path
decide_from [] path best value = value
decide_from (p ∷ ps) path best value =
    let taken = decide_from ps path (suc (length p.path)) p.auto_approve in
    let left = decide_from ps path best value in
    elim p.auto_approve [
      | none ↦ left
      | some declared ↦ if owns_path p.path path && leb best (length p.path) then taken else left
    ]

-- AutoApproved
unfoldable pub auto_approved : List IndexedProject → Text → Bool
unfolding decide_from
auto_approved projects path = elim (decide_from projects path 0 none) [
  | none ↦ false
  | some value ↦ value
]

-- AutoApprovedAll
unfoldable pub auto_approved_all : List IndexedProject → List Text → Bool
unfolding auto_approved all
auto_approved_all projects paths =
    if is_empty paths then false else all (auto_approved projects) paths
