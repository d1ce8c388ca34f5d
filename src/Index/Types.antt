-- ===== src/Index/Types.antt =====
-- platform/index/scan.go: IndexedProject and CheckDef, as far as the gate and the zones read them.
use runko.Prelude.{Bool, Option, none, List, [], Text}

-- the check classes, as the scan normalises them
pub data RunWhen : Type 0 where
  affected direct post_land : RunWhen

pub record CheckDef : Type 0 where
  pub name : Text
  pub command : Text
  pub run_when : RunWhen

-- an owner entry is its ref; no declaration of auto_approve is none
pub record IndexedProject : Type 0 where
  pub name : Text
  pub path : Text
  pub declared_dependencies : List Text
  pub test_dependencies : List Text
  pub root_invalidation : List Text
  pub prose : List Text
  pub checks : List CheckDef
  pub auto_approve : Option Bool
  pub owners : List Text
  pub consumes : List Text
  pub contract_dir : Text
  pub schema_paths : List Text
  pub openapi_path : Text

-- a project of that path that declares nothing
abbrev pub bare_project : Text → IndexedProject
bare_project path = record {
  name = path;
  path = path;
  declared_dependencies = [];
  test_dependencies = [];
  root_invalidation = [];
  prose = [];
  checks = [];
  auto_approve = none;
  owners = [];
  consumes = [];
  contract_dir = [];
  schema_paths = [];
  openapi_path = [];
}
