-- ===== src/Store/Releases.antt =====
-- The releases' methods: CreateRelease, ListReleases, GetLatestRelease.
pub mod Examples
pub mod Versions
use runko.Prelude.{
  ℕ, zero, suc, ◌+◌, ◌-◌, ◌*◌, ◌≤◌, ◌<◌, ◌≡◌, refl, sym, ap, ◌∙◌, subst, ◌≢◌, ◌↔◌, ◌⊎◌, inl, inr,
  Bool, true, false, not, ◌&&◌, ◌||◌, Option, none, some, List, [], ◌∷◌, ◌++◌, map, arith, ltb, leb,
  ◌==◌, if◌then◌else◌, ==_iff, Bool-cases, Option-cases, List-cases, Bool-ext, or_iff, length,
  length-append, is_empty, is_empty_iff, is_empty-append, is_empty-map, any, all, In, All, Text,
  codes, text_eq, text_eq_iff, cut_prefix, cut_prefix-append, cut_prefix_sound, has_prefix, mem,
  mem-append, Some, any_iff, dedup_sorted, mem-dedup_sorted, SameMembers, lookup, put, values,
  lookup-put,
}
use runko.Store.Model.{Release, MemStore, Answer, release_exists, done, at_key}
use runko.Store.Reviews.{page}

-- whether a release of that version exists
has_version : Text → List Release → Bool
unfolding text_eq
has_version version [] = false
has_version version (r ∷ rs) = if text_eq r.version version then true else has_version version rs

-- CreateRelease
unfoldable pub create_release : Release → ℕ → MemStore → Answer (Release × MemStore)
unfolding has_version put
create_release r now s =
    let earlier = at_key r.project_name s.releases in
    let r' = record r { created_at = now } in
    if has_version r.version earlier
    then release_exists
    else done (r', record s { releases = put r.project_name (earlier ++ r' ∷ []) s.releases })

newest_first : List Release → List Release
newest_first [] = []
newest_first (r ∷ rs) = newest_first rs ++ r ∷ []

-- ListReleases
unfoldable pub list_releases : Text → ℕ → ℕ → MemStore → List Release
unfolding newest_first page
list_releases project limit offset s = page (newest_first (at_key project s.releases)) limit offset

last : List Release → Option Release
last [] = none
last (r ∷ rs) = elim (last rs) [ none ↦ some r | some l ↦ some l ]

-- GetLatestRelease
unfoldable pub get_latest_release : Text → MemStore → Option Release
unfolding last
get_latest_release project s = last (at_key project s.releases)
