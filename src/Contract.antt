-- ===== src/Contract.antt =====
-- platform/contract/check.go: the receive-time contract checks. Go's import parser is a parameter,
-- `imports_of`: the quoted import paths of a file, or none where it does not parse. Project roots
-- are clean paths, as the index makes them.
pub mod Clean
pub mod Owner
mod Examples
use runko.Prelude.{
  ℕ, suc, Bool, true, false, not, ◌&&◌, Option, none, some, List, [], ◌∷◌, ◌++◌, leb, ◌==◌, length,
  is_empty, Text, codes, text_eq, cut_prefix, mem, if◌then◌else◌, ◌||◌,
}
use runko.Glob.{under, slash}

pub record Project : Type 0 where
  pub name : Text
  pub path : Text
  pub dependencies : List Text
  pub test_dependencies : List Text
  pub consumes : List Text
  pub contract_gen_dir : Text
  pub declares_http : Bool
  pub openapi_path : Text
  pub openapi_present : Bool

pub record File : Type 0 where
  pub path : Text
  pub content : Text

-- a violation, with what its message names
pub data Violation : Type 0 where
  undeclared_contract_dependency : Text → Text → Option Text → Violation
  missing_openapi_document : Text → Text → Violation

-- "." is the root project's path too
pub root_of : Text → Text
unfolding text_eq
root_of path = if text_eq path (codes ".") then [] else path

pub contains : Text → Text → Bool
unfolding under
contains root p = is_empty root || under p root

-- ownerOf, from the project at hand and the best one so far with its root's length
owner_from : List Project → Text → Option Project → ℕ → Option Project
unfolding root_of contains
owner_from [] p best best_len = best
owner_from (q ∷ qs) p best best_len =
    let root = root_of q.path in
    let taken = owner_from qs p (some q) (suc (length root)) in
    let left = owner_from qs p best best_len in
    if contains root p && leb best_len (length root) then taken else left

-- ownerOf: `best_len` is one more than the source's bestLen, which starts at -1
pub owner_of : List Project → Text → Option Project
unfolding owner_from
owner_of projects p = owner_from projects p none 0

-- strings.HasSuffix
unfoldable pub has_suffix : Text → Text → Bool
unfolding text_eq
has_suffix suffix [] = text_eq [] suffix
has_suffix suffix (c ∷ s) = text_eq (c ∷ s) suffix || has_suffix suffix s

-- strings.Trim(s, `"`), from the left and from the right
trim_left_quotes : Text → Text
trim_left_quotes [] = []
trim_left_quotes (c ∷ s) = let rest = trim_left_quotes s in if c == b'"' then rest else c ∷ s

trim_right_quotes : Text → Text
trim_right_quotes [] = []
trim_right_quotes (c ∷ s) =
    let t = trim_right_quotes s in if c == b'"' && is_empty t then [] else c ∷ t

pub trim_quotes : Text → Text
unfolding trim_left_quotes trim_right_quotes
trim_quotes s = trim_right_quotes (trim_left_quotes s)

-- the consumer's own contract, or a declared edge; the source does not look at test dependencies
pub sanctioned : Option Project → Project → Bool
unfolding text_eq mem
sanctioned none owner = false
sanctioned (some consumer) owner =
    if text_eq consumer.name owner.name
    then true
    else if mem owner.name consumer.consumes
    then true
    else mem owner.name consumer.dependencies

consumer_name : Option Project → Option Text
consumer_name none = none
consumer_name (some q) = some q.name

-- one import whose path below the module is `rel`
pub check_owned : Option Project → Text → Text → Option Project → List Violation
unfolding sanctioned consumer_name under
check_owned consumer file rel none = []
check_owned consumer file rel (some owner) =
    if is_empty owner.contract_gen_dir || not (under rel owner.contract_gen_dir)
    then []
    else if sanctioned consumer owner
    then []
    else undeclared_contract_dependency file owner.name (consumer_name consumer) ∷ []

pub check_import : Text → List Project → Text → Text → List Violation
unfolding check_owned owner_of trim_quotes cut_prefix
check_import module_path projects file literal =
    elim (cut_prefix (module_path ++ slash ∷ []) (trim_quotes literal)) [
      | none ↦ []
      | some rel ↦ check_owned (owner_of projects file) file rel (owner_of projects rel)
    ]

pub check_literals : Text → List Project → Text → List Text → List Violation
unfolding check_import
check_literals module_path projects file [] = []
check_literals module_path projects file (l ∷ ls) =
    check_import module_path projects file l ++ check_literals module_path projects file ls

module _ (imports_of : File → Option (List Text)) where
  pub check_file : Text → List Project → File → List Violation
  unfolding check_literals has_suffix
  check_file module_path projects f =
      if not (has_suffix (codes ".go") f.path) then [] else elim (imports_of f) [
        | none ↦ []
        | some literals ↦ check_literals module_path projects f.path literals
      ]

  pub check_files : Text → List Project → List File → List Violation
  unfolding check_file
  check_files module_path projects [] = []
  check_files module_path projects (f ∷ fs) =
      check_file module_path projects f ++ check_files module_path projects fs

  -- checkImports
  pub check_imports : Text → List Project → List File → List Violation
  unfolding check_files
  check_imports module_path projects files =
      if is_empty module_path then [] else check_files module_path projects files

-- path.Join(p.Path, "PROJECT.yaml") for a clean path
pub manifest_of : Text → Text
unfolding root_of
manifest_of path =
    let root = root_of path in
    if is_empty root then codes "PROJECT.yaml" else root ++ slash ∷ codes "PROJECT.yaml"

-- checkOpenAPI
pub check_openapi : List Project → List Text → List Violation
unfolding manifest_of mem
check_openapi [] changed = []
check_openapi (p ∷ ps) changed =
    let rest = check_openapi ps changed in
    if not p.declares_http || p.openapi_present || is_empty p.openapi_path
    then rest
    else if not (mem (manifest_of p.path) changed) && not (mem p.openapi_path changed)
    then rest
    else missing_openapi_document p.openapi_path p.name ∷ rest

-- Check
pub check :
    (File → Option (List Text)) → Text → List Project → List File → List Text → List Violation
unfolding check_imports check_openapi
check imports_of module_path projects files changed_paths =
    check_imports imports_of module_path projects files ++ check_openapi projects changed_paths
