-- ===== src/Affected/Compute.antt =====
-- platform/affected/compute.go: Compute and CloseOverDependentNames. The map `direct` is kept as
-- the names mapped to true and, apart, the names mapped to false. SHA-256 in hex is a parameter.
pub mod Verdicts
pub mod Escalation
pub mod Listing
pub mod Members
mod Examples
use runko.Prelude.{
  ℕ, zero, suc, Bool, true, false, not, ◌&&◌, Option, none, some, List, [], ◌∷◌, ◌++◌, map, codes,
  Text, text_eq, mem, any, is_empty, dedup_sorted, if◌then◌else◌, ◌||◌,
}
use runko.Glob.{match_ordered_which, match_ordered, under}
use runko.Affected.Types.{
  ProjectInfo, ProjectRef, Options, Result, Reason, direct_path, depends_on, root_invalidation,
  consumes_contract, Strictness, conservative, aggressive,
}
use runko.Affected.Owner.{find_owner, find_root_project}
use runko.Affected.Closure.{close_over_dependents}

-- the branch that the loop over the paths takes for one path
pub data Verdict : Type 0 where
  refinable_escalation blunt_escalation dropped : Verdict
  attributed : Text → Verdict

is_conservative : Strictness → Bool
is_conservative conservative = true
is_conservative aggressive = false

-- an unowned path
pub unowned : Options → Verdict
unfolding is_conservative
unowned opts = if is_conservative opts.strictness then blunt_escalation else dropped

by_owner : List ProjectInfo → Options → Text → Verdict
unfolding find_owner unowned
by_owner projects opts changed = elim (find_owner projects changed) [
  | some owner ↦ attributed owner.name
  | none ↦ unowned opts
]

-- the prose and ownership steps
pub attribute : List ProjectInfo → Options → Text → Verdict
unfolding find_root_project by_owner match_ordered
attribute projects opts changed = elim (find_root_project projects) [
  | some root ↦
      if match_ordered opts.prose_patterns changed
      then attributed root.name
      else by_owner projects opts changed
  | none ↦ by_owner projects opts changed
]

-- the loop body
pub classify : List ProjectInfo → Options → Text → Verdict
classify projects opts changed =
    let (pattern, escalates) = match_ordered_which opts.root_invalidation_patterns changed in
    let refinable = mem pattern opts.refinable_patterns in
    if escalates
    then (if refinable && opts.refinable_handled
        then attribute projects opts changed
        else if refinable
        then refinable_escalation
        else blunt_escalation)
    else attribute projects opts changed

-- the variables of the loop; `direct` holds the names mapped to true
pub record Scan : Type 0 where
  pub run_everything : Bool
  pub escalated_blunt : Bool
  pub escalated_refinable : Bool
  pub saw_direct : Bool
  pub direct : List Text

abbrev pub fresh : Scan
fresh = record {
  run_everything = false;
  escalated_blunt = false;
  escalated_refinable = false;
  saw_direct = false;
  direct = [];
}

add_name : Text → List Text → List Text
add_name name names = if mem name names then names else name ∷ names

note_path : Scan → Verdict → Scan
unfolding add_name
note_path s refinable_escalation = record s { run_everything = true; escalated_refinable = true }
note_path s blunt_escalation = record s { run_everything = true; escalated_blunt = true }
note_path s dropped = s
note_path s (attributed name) = record s { saw_direct = true; direct = add_name name s.direct }

pub scan_paths : List ProjectInfo → Options → Scan → List Text → Scan
scan_paths projects opts s [] = s
scan_paths projects opts s (p ∷ ps) =
    scan_paths projects opts (note_path s (classify projects opts p)) ps

-- underAnyContractRoot
under_any_contract_root : Text → List Text → Bool
unfolding under
under_any_contract_root changed [] = false
under_any_contract_root changed (root ∷ roots) =
    not (is_empty root) && under changed root || under_any_contract_root changed roots

-- the map contractTouched
contract_touched : List ProjectInfo → List Text → List Text
unfolding any under_any_contract_root
contract_touched [] paths = []
contract_touched (p ∷ ps) paths =
    if any (λ changed. under_any_contract_root changed p.contract_paths) paths
    then p.name ∷ contract_touched ps paths
    else contract_touched ps paths

-- the names that the loop over consumes edges maps to false
consumers : List ProjectInfo → List Text → List Text → List Text
unfolding add_name any
consumers [] touched direct = []
consumers (p ∷ ps) touched direct =
    let rest = consumers ps touched direct in
    if any (λ provider. mem provider touched) p.consumes && not (mem p.name direct)
    then add_name p.name rest
    else rest

-- byName: a later project of the same name replaces an earlier one
unfoldable pub by_name : List ProjectInfo → Text → Option ProjectInfo
by_name [] name = none
by_name (p ∷ ps) name = elim (by_name ps name) [
  | some q ↦ some q
  | none ↦ if text_eq p.name name then some p else none
]

ref_of : List ProjectInfo → List Text → Text → ProjectRef
unfolding by_name
ref_of projects direct name = elim (by_name projects name) [
  | some p ↦ record { name = p.name; path = p.path; direct = mem name direct }
  | none ↦ record { name = []; path = []; direct = mem name direct }
]

reason_if : Bool → Reason → List Reason → List Reason
reason_if true r rs = r ∷ rs
reason_if false r rs = rs

join_lines : List Text → Text
join_lines [] = []
join_lines (p ∷ []) = p
join_lines (p ∷ q ∷ ps) = p ++ 0xa ∷ join_lines (q ∷ ps)

take : ℕ → Text → Text
take zero t = []
take (suc n) [] = []
take (suc n) (c ∷ t) = c ∷ take n t

module _ (sha256_hex : Text → Text) where
  pub computation_id : List Text → Text
  unfolding join_lines take
  computation_id paths = codes "aff_" ++ take 12 (sha256_hex (join_lines paths))

  -- Compute after dedupSorted
  pub compute_sorted : List ProjectInfo → List Text → Options → Result
  compute_sorted projects paths opts =
      let s = scan_paths projects opts fresh paths in
      let pulled = consumers projects (contract_touched projects paths) s.direct in
      let (names, saw_dependent) = close_over_dependents projects (s.direct ++ pulled) in
      record {
        computation_id = computation_id paths;
        projects = map (ref_of projects s.direct) (dedup_sorted names);
        paths = paths;
        reason_codes = reason_if s.saw_direct direct_path (
            reason_if saw_dependent depends_on (
              reason_if s.run_everything root_invalidation
                (reason_if (not (is_empty pulled)) consumes_contract [])));
        run_everything = s.run_everything;
        escalation_refinable_only =
            s.run_everything && s.escalated_refinable && not s.escalated_blunt;
      }

  -- Compute
  pub compute : List ProjectInfo → List Text → Options → Result
  unfolding compute_sorted
  compute projects changed opts = compute_sorted projects (dedup_sorted changed) opts
