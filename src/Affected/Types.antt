-- ===== src/Affected/Types.antt =====
-- platform/affected/compute.go: ProjectInfo, ProjectRef, Options and Result.
use runko.Prelude.{Bool, List, Text}

pub record ProjectInfo : Type 0 where
  pub name : Text
  pub path : Text
  pub declared_dependencies : List Text
  pub test_dependencies : List Text
  pub consumes : List Text
  pub contract_paths : List Text

pub record ProjectRef : Type 0 where
  pub name : Text
  pub path : Text
  pub direct : Bool

pub data Reason : Type 0 where
  direct_path depends_on root_invalidation consumes_contract : Reason

pub data Strictness : Type 0 where
  conservative aggressive : Strictness

pub record Options : Type 0 where
  pub root_invalidation_patterns : List Text
  pub refinable_patterns : List Text
  pub refinable_handled : Bool
  pub strictness : Strictness
  pub prose_patterns : List Text

pub record Result : Type 0 where
  pub computation_id : Text
  pub projects : List ProjectRef
  pub paths : List Text
  pub reason_codes : List Reason
  pub run_everything : Bool
  pub escalation_refinable_only : Bool
