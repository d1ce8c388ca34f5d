-- ===== src/Index/Infos.antt =====
-- platform/index/affectedinfo.go: AffectedProjectInfos, with RootInvalidation and Prose of scan.go.
-- Paths are clean, as the scan leaves them.
use runko.Prelude.{List, [], ◌∷◌, ◌++◌, map, is_empty, ◌&&◌, Text, if◌then◌else◌}
use runko.Affected.Types.{ProjectInfo}
use runko.Contract.{manifest_of}
use runko.Index.Types.{IndexedProject}

given : Text → List Text
given path = if is_empty path then [] else path ∷ []

-- the declared surface, with the manifest that declares it
contract_paths_of : IndexedProject → List Text
unfolding given
contract_paths_of p =
    if is_empty p.contract_dir && (is_empty p.openapi_path && is_empty p.schema_paths)
    then []
    else manifest_of p.path ∷ (given p.contract_dir ++ (given p.openapi_path ++ p.schema_paths))

affected_project_info : IndexedProject → ProjectInfo
unfolding contract_paths_of
affected_project_info p = record {
  name = p.name;
  path = p.path;
  declared_dependencies = p.declared_dependencies;
  test_dependencies = p.test_dependencies;
  consumes = p.consumes;
  contract_paths = contract_paths_of p;
}

-- AffectedProjectInfos
unfoldable pub affected_project_infos : List IndexedProject → List ProjectInfo
unfolding affected_project_info
affected_project_infos = map affected_project_info

-- RootInvalidation
unfoldable pub root_invalidation : List IndexedProject → List Text
root_invalidation [] = []
root_invalidation (p ∷ ps) = p.root_invalidation ++ root_invalidation ps

-- Prose
unfoldable pub prose : List IndexedProject → List Text
prose [] = []
prose (p ∷ ps) = p.prose ++ prose ps
