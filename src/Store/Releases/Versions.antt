-- ===== src/Store/Releases/Versions.antt =====
-- What creating a release keeps.
use runko.Prelude.{
  ℕ, ◌≡◌, refl, sym, ap, ◌∙◌, subst, inl, inr, true, false, some, List, [], ◌∷◌, ◌++◌, map, arith,
  if◌then◌else◌, Bool-cases, Text, text_eq, text_eq_iff, mem, lookup, put, lookup-put,
}
use runko.Store.Model.{Release, MemStore, Answer, release_exists, done, at_key}
use runko.Store.Releases.{has_version, create_release, last, get_latest_release}

-- No two releases of the list have the same version.
abbrev pub UniqueVersions : List Release → Type 0
UniqueVersions [] = Unit
UniqueVersions (r ∷ rs) = (mem r.version (map (λ q. q.version) rs) ≡ false) × UniqueVersions rs

has_version-mem :
    (v : Text) (rs : List Release) → has_version v rs ≡ mem v (map (λ q. q.version) rs)
unfolding has_version mem
has_version-mem v [] = refl
has_version-mem v (r ∷ rs) = ground (arith, has_version-mem v rs)

mem-snoc :
    (v : Text) (rs : List Release) (r : Release)
    → mem v (map (λ q. q.version) (rs ++ r ∷ []))
      ≡ (if mem v (map (λ q. q.version) rs) then true else text_eq r.version v)
unfolding mem
mem-snoc v [] r = ground arith
mem-snoc v (q ∷ rs) r = ground (arith, mem-snoc v rs r)

UniqueVersions-snoc :
    (rs : List Release) (r : Release)
    → UniqueVersions rs
    → mem r.version (map (λ q. q.version) rs) ≡ false
    → UniqueVersions (rs ++ r ∷ [])
unfolding mem
UniqueVersions-snoc [] r u n = (refl, tt)
UniqueVersions-snoc (q ∷ rs) r (a, u) n = (
  ground (
    arith,
    mem-snoc q.version rs r,
    text_eq_iff q.version r.version,
    text_eq_iff r.version q.version,
  ),
  UniqueVersions-snoc rs r u (ground arith),
)

last-snoc : (rs : List Release) (r : Release) → last (rs ++ r ∷ []) ≡ some r
unfolding last
last-snoc [] r = refl
last-snoc (q ∷ rs) r = let e = last-snoc rs r in rw (e, last) refl

-- What a key of a map of lists reads after a list was put.
stored-at_key :
    (key k : Text) (v : List Release) (d : List (Text × List Release))
    → at_key k (put key v d) ≡ (if text_eq key k then v else at_key k d)
stored-at_key key k v d = elim (Bool-cases (text_eq key k)) [
  | inl e ↦
      let hit : lookup k (put key v d) ≡ some v = lookup-put key k v d ∙ rw e refl in
      rw (hit, e, at_key) refl
  | inr e ↦
      let miss : lookup k (put key v d) ≡ lookup k d = lookup-put key k v d ∙ rw e refl in
      rw (e, miss, at_key) refl
]

stored-UniqueVersions :
    (key k : Text) (r : Release) (d : List (Text × List Release))
    → mem r.version (map (λ q. q.version) (at_key key d)) ≡ false
    → UniqueVersions (at_key k d)
    → UniqueVersions (at_key k (put key (at_key key d ++ r ∷ []) d))
stored-UniqueVersions key k r d n u =
    let e0 = stored-at_key key k (at_key key d ++ r ∷ []) d in
    subst UniqueVersions (sym e0) (elim (Bool-cases (text_eq key k)) [
      | inl e ↦
          let same : at_key k d ≡ at_key key d =
            ap (λ (z : Text). at_key z d) (sym ((text_eq_iff key k).0 e)) in
          rw e (UniqueVersions-snoc (at_key key d) r (subst UniqueVersions same u) n)
      | inr e ↦ rw e u
    ])

-- A release that is created is the project's latest, and where no two releases of a project shared
-- a version before, none do after: a version is released at most once.
pub create_release-UniqueVersions :
    (r created : Release) (now : ℕ) (s s' : MemStore) (project : Text)
    → create_release r now s ≡ done (created, s')
    → UniqueVersions (at_key project s.releases)
    → (get_latest_release r.project_name s' ≡ some created)
      × UniqueVersions (at_key project s'.releases)
unfolding create_release get_latest_release
create_release-UniqueVersions r created now s s' project h u =
    elim (Bool-cases (has_version r.version (at_key r.project_name s.releases))) [
      | inl e ↦
          let q : ◌≡◌ {A = Answer (Release × MemStore)} release_exists (done (created, s')) =
            rw (e, create_release) at h in
          ground arith
      | inr e ↦
          let r' = record r { created_at = now } in
          let d' = put r.project_name (at_key r.project_name s.releases ++ r' ∷ []) s.releases in
          let q : ◌≡◌ {A = Answer (Release × MemStore)} (done (r', record s { releases = d' }))
              (done (created, s')) =
            rw (e, create_release) at h in
          let made : r' ≡ created = cc in
          let stored : d' ≡ s'.releases = cc in
          let n : mem r'.version (map (λ q. q.version) (at_key r.project_name s.releases)) ≡ false =
            sym (has_version-mem r.version (at_key r.project_name s.releases)) ∙ e in
          let own : at_key r.project_name d' ≡ at_key r.project_name s.releases ++ r' ∷ [] =
            stored-at_key r.project_name r.project_name
              (at_key r.project_name s.releases ++ r' ∷ []) s.releases
            ∙ rw ((text_eq_iff r.project_name r.project_name).1 refl) refl in
          let latest : last (at_key r.project_name d') ≡ some r' =
            ap last own ∙ last-snoc (at_key r.project_name s.releases) r' in
          (
            ap (λ (d : List (Text × List Release)). last (at_key r.project_name d)) (sym stored)
                ∙ latest
                ∙ ap some made,
            subst (λ (d : List (Text × List Release)). UniqueVersions (at_key project d)) stored
                (stored-UniqueVersions r.project_name project r' s.releases n u),
          )
    ]
