-- ===== src/Contract/Clean.antt =====
-- What a push without contract violations guarantees.
use runko.Prelude.{
  ◌≡◌, refl, subst, ◌≢◌, ◌⊎◌, inl, inr, true, false, Option, none, some, List, [], ◌∷◌, ◌++◌, arith,
  Bool-cases, is_empty, is_empty_iff, In, Text, codes, text_eq, text_eq_iff, cut_prefix,
  cut_prefix-append, mem, ◌||◌,
}
use runko.Glob.{under, slash}
use runko.Contract.{
  Project, File, owner_of, has_suffix, trim_quotes, sanctioned, check_owned, check_import,
  check_literals, check_file, check_files, check_imports, manifest_of, check_openapi, check,
}

-- The consumer is the owner itself or declares an edge to it.
abbrev pub Declares : Option Project → Project → Type 0
Declares consumer owner =
    (c : Project) × (consumer ≡ some c)
    × ((c.name ≡ owner.name)
        ⊎ ((mem owner.name c.consumes ≡ true) ⊎ (mem owner.name c.dependencies ≡ true)))

-- The import leads into the contract of `owner`.
abbrev pub Imports : Text → List Project → Text → Project → Type 0
Imports module_path projects literal owner =
    (rel : Text) × (trim_quotes literal ≡ (module_path ++ slash ∷ []) ++ rel)
    × (owner_of projects rel ≡ some owner)
    × (owner.contract_gen_dir ≢ [])
    × (under rel owner.contract_gen_dir ≡ true)

empty-left : {A : Type 0} (xs ys : List A) → xs ++ ys ≡ [] → xs ≡ []
empty-left [] ys h = refl
empty-left (x ∷ xs) ys h = ground arith

empty-right : {A : Type 0} (xs ys : List A) → xs ++ ys ≡ [] → ys ≡ []
empty-right [] ys h = h
empty-right (x ∷ xs) ys h = ground arith

sanctioned-Declares :
    (consumer : Option Project) (owner : Project)
    → sanctioned consumer owner ≡ true
    → Declares consumer owner
unfolding sanctioned
sanctioned-Declares none owner h = ground arith
sanctioned-Declares (some c) owner h = (
  c,
  refl,
  elim (Bool-cases (text_eq c.name owner.name)) [
    | inl e ↦ inl ((text_eq_iff c.name owner.name).0 e)
    | inr e ↦ elim (Bool-cases (mem owner.name c.consumes)) [
      | inl f ↦ inr (inl f)
      | inr f ↦ inr (inr (rw (e, f) at h))
    ]
  ],
)

check_owned-clean :
    (consumer : Option Project) (file rel : Text) (owner : Project)
    → check_owned consumer file rel (some owner) ≡ []
    → owner.contract_gen_dir ≢ []
    → under rel owner.contract_gen_dir ≡ true
    → sanctioned consumer owner ≡ true
unfolding check_owned
check_owned-clean consumer file rel owner h n u = elim (Bool-cases (sanctioned consumer owner)) [
  | inl e ↦ e
  | inr e ↦ elim (Bool-cases (is_empty owner.contract_gen_dir)) [
    | inl k ↦ absurd (n ((is_empty_iff owner.contract_gen_dir).0 k))
    | inr k ↦ ground arith
  ]
]

check_import-clean :
    (module_path : Text) (projects : List Project) (file literal : Text) (owner : Project)
    → check_import module_path projects file literal ≡ []
    → Imports module_path projects literal owner
    → Declares (owner_of projects file) owner
unfolding check_import
check_import-clean module_path projects file literal owner h (rel, e, o, n, u) =
    let cut : cut_prefix (module_path ++ slash ∷ []) (trim_quotes literal) ≡ some rel =
      rw e (cut_prefix-append (module_path ++ slash ∷ []) rel) in
    sanctioned-Declares (owner_of projects file) owner (
      check_owned-clean (owner_of projects file) file rel owner (rw (check_import, cut, o) at h) n
        u)

check_literals-clean :
    (module_path : Text) (projects : List Project) (file : Text) (literals : List Text)
    (literal : Text)
    → check_literals module_path projects file literals ≡ []
    → In literal literals
    → check_import module_path projects file literal ≡ []
unfolding check_literals
check_literals-clean module_path projects file [] literal h i = absurd i
check_literals-clean module_path projects file (l ∷ ls) literal h (inl e) =
    subst (λ (t : Text). check_import module_path projects file t ≡ []) e (empty-left _ _ h)
check_literals-clean module_path projects file (l ∷ ls) literal h (inr i) =
    check_literals-clean module_path projects file ls literal (empty-right _ _ h) i

check_files-clean :
    (imports_of : File → Option (List Text)) (module_path : Text) (projects : List Project)
    (files : List File) (f : File)
    → check_files imports_of module_path projects files ≡ []
    → In f files
    → check_file imports_of module_path projects f ≡ []
unfolding check_files
check_files-clean imports_of module_path projects [] f h i = absurd i
check_files-clean imports_of module_path projects (g ∷ gs) f h (inl e) =
    subst (λ (t : File). check_file imports_of module_path projects t ≡ []) e (empty-left _ _ h)
check_files-clean imports_of module_path projects (g ∷ gs) f h (inr i) =
    check_files-clean imports_of module_path projects gs f (empty-right _ _ h) i

-- In a Go monorepo, where the checks find nothing, each import in a changed Go file that parses
-- and leads into a project's contract directory comes from that project, or from a project that
-- declares a consumes or a dependency edge to it; a test dependency on it is not enough.
pub check-edges :
    (imports_of : File → Option (List Text)) (module_path : Text) (projects : List Project)
    → (files : List File) (changed : List Text) → module_path ≢ []
    → check imports_of module_path projects files changed ≡ []
    → (f : File) (literals : List Text) (literal : Text) (owner : Project) → In f files
    → has_suffix (codes ".go") f.path ≡ true
    → imports_of f ≡ some literals
    → In literal literals
    → Imports module_path projects literal owner
    → Declares (owner_of projects f.path) owner
unfolding check check_imports check_file
check-edges imports_of module_path projects files changed n h f literals literal owner i go p l im =
    elim (Bool-cases (is_empty module_path)) [
      | inl k ↦ absurd (n ((is_empty_iff module_path).0 k))
      | inr k ↦
          let all_files : check_files imports_of module_path projects files ≡ [] =
            rw k at (empty-left (check_imports imports_of module_path projects files) _ h) in
          let here = check_files-clean imports_of module_path projects files f all_files i in
          let each : check_literals module_path projects f.path literals ≡ [] =
            rw (go, p) at here in
          check_import-clean module_path projects f.path literal owner
            (check_literals-clean module_path projects f.path literals literal each l) im
    ]

-- The head of the list is fine, and so is the rest.
check_openapi-cons :
    (q : Project) (qs : List Project) (changed : List Text)
    → check_openapi (q ∷ qs) changed ≡ []
    → (check_openapi qs changed ≡ [])
      × (q.declares_http ≡ true
          → is_empty q.openapi_path ≡ false
          → (mem (manifest_of q.path) changed || mem q.openapi_path changed) ≡ true
          → q.openapi_present ≡ true)
unfolding check_openapi
check_openapi-cons q qs changed h = (ground arith, λ d n m. ground arith)

-- Where the checks find nothing, no changed manifest or document leaves a project that declares the
-- http capability without its OpenAPI document.
pub check-openapi :
    (imports_of : File → Option (List Text)) (module_path : Text) (projects : List Project)
    → (files : List File) (changed : List Text)
    → check imports_of module_path projects files changed ≡ []
    → (p : Project) → In p projects
    → p.declares_http ≡ true
    → p.openapi_path ≢ []
    → (mem (manifest_of p.path) changed || mem p.openapi_path changed) ≡ true
    → p.openapi_present ≡ true
unfolding check
check-openapi imports_of module_path projects files changed h p i d n m =
    documents projects (empty-right (check_imports imports_of module_path projects files) _ h) i
  where
    filled : (t : Text) → t ≢ [] → is_empty t ≡ false
    filled [] x = absurd (x refl)
    filled (c ∷ t) x = refl

    documents :
        (ps : List Project) → check_openapi ps changed ≡ [] → In p ps → p.openapi_present ≡ true
    documents [] k j = absurd j
    documents (q ∷ qs) k (inl e) =
        subst
          (λ (z : Project).
            z.declares_http ≡ true
            → z.openapi_path ≢ []
            → (mem (manifest_of z.path) changed || mem z.openapi_path changed) ≡ true
            → z.openapi_present ≡ true)
          e (λ d' n' m'. (check_openapi-cons q qs changed k).1 d' (filled q.openapi_path n') m') d n
          m
    documents (q ∷ qs) k (inr j) = documents qs (check_openapi-cons q qs changed k).0 j
