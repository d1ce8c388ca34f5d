-- ===== src/Daemon/Gate/Examples.antt =====
-- The gate of a change on the daemon of the fixtures.
use runko.Prelude.{
  ◌≡◌, refl, ◌⊎◌, ◌↔◌, true, false, none, some, List, [], ◌∷◌, In, All, Text, codes, mem, map, Bool,
}
use runko.Affected.Types.{Result}
use runko.Checks.Requirements.Gate.{AllPass}
use runko.Index.Types.{IndexedProject, CheckDef}
use runko.Index.Selection.{gates}
use runko.Store.CheckRuns.{list_check_runs}
use runko.Daemon.Repo.{affected_of, compute_affected}
use runko.Daemon.Gate.{GateView, gate_names, gate_owners, stale_names, merge_requirements}
use runko.Daemon.Gate.Names.{required_check_names}
use runko.Daemon.Gate.Names.Owed.{InScope, required_check_names-Owed}
use runko.Daemon.Gate.Owners.{owner_requirements}
use runko.Daemon.Gate.Owners.Entries.{IsRequired, AllAuto}
use runko.Daemon.Gate.Owners.Rows.{IsApproved, owner_requirements-Rows}
use runko.Daemon.Gate.Open.{IsBased, IsPoliced, IsDescribed, IsResolved, merge_requirements-open}
use runko.Daemon.Fixtures.{test_server, lib, test_repo, bottom, test_store}

abbrev hash : Text → Text
hash t = t

abbrev projects : List IndexedProject
projects = lib ∷ []

abbrev lib_affected : Result
lib_affected = affected_of hash test_server projects (codes "l/f" ∷ [])

bottom-affected : compute_affected hash test_server test_repo bottom ≡ some (lib_affected, projects)
unfolding compute_affected
bottom-affected = refl

merge_requirements-open_example :
    (g : GateView) × (merge_requirements hash none test_server test_repo test_store 7 bottom
      ≡ some g)
    × ((g.mergeable ≡ true) ↔ (
        All
          (λ o. o.satisfied ≡ true)
          (gate_owners none test_server test_repo test_store bottom lib_affected projects).0
        × AllPass (list_check_runs bottom.change_key bottom.head_sha test_store) (
            gate_names none test_server test_repo lib_affected projects
              (list_check_runs bottom.change_key bottom.head_sha test_store))
        × (stale_names
              (gate_names none test_server test_repo lib_affected projects
                (list_check_runs bottom.change_key bottom.head_sha test_store))
              7
              (list_check_runs bottom.change_key bottom.head_sha test_store)
            ≡ [])
        × IsBased test_repo test_store bottom
        × IsPoliced test_server test_repo lib_affected
            (gate_names none test_server test_repo lib_affected projects
              (list_check_runs bottom.change_key bottom.head_sha test_store))
            (map
              (λ o. o.owner_ref)
              (gate_owners none test_server test_repo test_store bottom lib_affected projects).0)
        × IsDescribed test_server test_store bottom
        × IsResolved test_server test_store bottom))
merge_requirements-open_example =
    merge_requirements-open hash test_server test_repo test_store 7 bottom lib_affected projects
      bottom-affected

required_check_names-Owed_example :
    (mem (codes "u") (required_check_names lib_affected projects) ≡ true) ↔ (
      (p : IndexedProject) × (d : Bool) × (c : CheckDef) × InScope lib_affected projects p d
      × In c p.checks
      × (gates d c.run_when ≡ true)
      × (c.name ≡ codes "u"))
required_check_names-Owed_example = required_check_names-Owed lib_affected projects (codes "u")

owner_requirements-Rows_example :
    In
      (record { owner_ref = codes "ann"; satisfied = true })
      (owner_requirements (codes "h") (codes "ann") false [] (codes "l/f" ∷ []) projects []).0
    ↔ (IsRequired projects [] (codes "ann") (codes "l/f" ∷ [])
        × ((true ≡ true) ↔ (
            IsApproved (codes "h") (codes "ann") false [] (codes "ann")
            ⊎ AllAuto projects [] (codes "ann") (codes "l/f" ∷ []))))
owner_requirements-Rows_example =
    owner_requirements-Rows (codes "h") (codes "ann") false [] (codes "l/f" ∷ []) projects []
      (codes "ann") true
