-- ===== src/Store/Deploys.antt =====
-- The methods of deploy records: OpenDeployRecord, PruneStalePendingDeployRecords,
-- RecordDeployImage, GetDeployRecord.
pub mod Ready
use runko.Prelude.{
  ℕ, suc, Bool, true, false, not, ◌&&◌, Option, none, some, List, [], ◌∷◌, ltb, Text, lookup, put,
  values, sort_by, if◌then◌else◌, ◌||◌,
}
use runko.Store.Model.{DeployImageRow, DeployRecord, MemStore}

-- DeployRecord as the methods return it
pub record DeployView : Type 0 where
  pub trunk_sha : Text
  pub change_key : Text
  pub expected : List Text
  pub reported : List DeployImageRow
  pub ready : Bool
  pub provenance : Text

-- memDeployToDomain
mem_deploy_to_domain : Text → DeployRecord → DeployView
unfolding values sort_by
mem_deploy_to_domain trunk_sha r = record {
  trunk_sha = trunk_sha;
  change_key = r.change_key;
  expected = r.expected;
  reported = sort_by (λ i. i.image) (values r.reported);
  ready = r.ready;
  provenance = r.provenance;
}

has_key : {V : Type 0} → List (Text × V) → Text → Bool
unfolding lookup
has_key d k = elim (lookup k d) [ none ↦ false | some v ↦ true ]

-- deployComplete
deploy_complete : List Text → List (Text × DeployImageRow) → Bool
unfolding has_key
deploy_complete [] reported = true
deploy_complete (e ∷ expected) reported =
    let rest = deploy_complete expected reported in if has_key reported e then rest else false

-- OpenDeployRecord
unfoldable pub open_deploy_record : Text → Text → Text → List Text → ℕ → MemStore → MemStore
unfolding has_key put
open_deploy_record trunk_sha change_key provenance expected now s =
    if has_key s.deploy_records trunk_sha then s else record s {
      deploy_records =
          put trunk_sha
            (record {
              change_key = change_key;
              expected = expected;
              provenance = provenance;
              reported = [];
              ready = false;
              created_at = now;
            })
            s.deploy_records;
    }

prune : ℕ → List (Text × DeployRecord) → ℕ × List (Text × DeployRecord)
prune older_than [] = (0, [])
prune older_than ((sha, r) ∷ d) =
    let (n, kept) = prune older_than d in
    if not r.ready && ltb r.created_at older_than then (suc n, kept) else (n, (sha, r) ∷ kept)

-- PruneStalePendingDeployRecords
unfoldable pub prune_stale_pending_deploy_records : ℕ → MemStore → ℕ × MemStore
unfolding prune
prune_stale_pending_deploy_records older_than s =
    let (n, kept) = prune older_than s.deploy_records in (n, record s { deploy_records = kept })

-- the record after a report, and whether it is ready by that report
report : DeployImageRow → DeployRecord → DeployRecord × Bool
unfolding deploy_complete put
report img r =
    let reported = put img.image img r.reported in
    let now_ready = not r.ready && deploy_complete r.expected reported in
    (record r { reported = reported; ready = r.ready || now_ready }, now_ready)

-- RecordDeployImage: the record and whether it just became ready, or none where there is no record
unfoldable pub record_deploy_image :
    Text → DeployImageRow → MemStore → Option (DeployView × Bool) × MemStore
unfolding report mem_deploy_to_domain lookup put
record_deploy_image trunk_sha img s = elim (lookup trunk_sha s.deploy_records) [
  | none ↦ (none, s)
  | some r ↦
      let (r', now_ready) = report img r in
      (
        some (mem_deploy_to_domain trunk_sha r', now_ready),
        record s { deploy_records = put trunk_sha r' s.deploy_records },
      )
]

-- GetDeployRecord
unfoldable pub get_deploy_record : Text → MemStore → Option DeployView
unfolding lookup mem_deploy_to_domain
get_deploy_record trunk_sha s = elim (lookup trunk_sha s.deploy_records) [
  | none ↦ none
  | some r ↦ some (mem_deploy_to_domain trunk_sha r)
]
