-- ===== src/Receive/Funnel.antt =====
-- platform/receive/funnel.go and secretscan.go: Decide. The scanner behind SecretScanner, SHA-1 and
-- Go's import parser are parameters; a scan that fails is none. A ref-level rejection is kept as
-- its reason.
pub mod Accepts
mod Examples
use runko.Prelude.{
  ℕ, Bool, true, false, not, ◌&&◌, Option, none, some, List, [], is_empty, Text, if◌then◌else◌,
}
use runko.Contract.{Project, File, Violation, check}
use runko.Receive.Policy.{AgentPolicy, PushSummary, PolicyViolation, evaluate_policy, split_ackable}
use runko.Receive.MagicRef.{parse_magic_ref, is_direct_trunk_push}
use runko.Receive.ChangeId.{ensure_change_id}

pub record SecretFinding : Type 0 where
  pub path : Text
  pub line : ℕ
  pub rule_id : Text
  pub description : Text

pub record Principal : Type 0 where
  pub is_agent : Bool
  pub policy : AgentPolicy

pub record PushRequest : Type 0 where
  pub ref : Text
  pub trunk_ref : Text
  pub commit_message : Text
  pub files : List File
  pub changed_paths : List Text
  pub diff_bytes : ℕ
  pub principal : Principal
  pub workspace_affinity : List Text
  pub modifies_owners : Bool
  pub enabled_capabilities : List Text
  pub is_land_request : Bool
  pub is_project_create : Bool
  pub author : Text
  pub new_project_owners : List Text
  pub change_id_seed : Text
  pub module_path : Text
  pub projects : List Project

pub data Rejection : Type 0 where
  direct_push unrecognized_ref scan_failed : Rejection

pub record Decision : Type 0 where
  pub accepted : Bool
  pub rejection_message : Option Rejection
  pub policy_violations : List PolicyViolation
  pub secret_findings : List SecretFinding
  pub contract_violations : List Violation
  pub ackable_violations : List PolicyViolation
  pub change_id : Text
  pub message : Text

-- the zero Decision: Accepted is false
abbrev refused : Decision
refused = record {
  accepted = false;
  rejection_message = none;
  policy_violations = [];
  secret_findings = [];
  contract_violations = [];
  ackable_violations = [];
  change_id = [];
  message = [];
}

-- the PushSummary that the funnel builds
pub summary_of : PushRequest → PushSummary
summary_of req = record {
  changed_files = req.changed_paths;
  diff_bytes = req.diff_bytes;
  workspace_affinity = req.workspace_affinity;
  modifies_owners = req.modifies_owners;
  enabled_capabilities = req.enabled_capabilities;
  is_land_request = req.is_land_request;
  is_project_create = req.is_project_create;
  author = req.author;
  new_project_owners = req.new_project_owners;
}

-- the hard and the ackable violations of the push; a human has none
pub agent_violations : PushRequest → List PolicyViolation × List PolicyViolation
unfolding summary_of split_ackable
agent_violations req =
    if req.principal.is_agent
    then split_ackable (evaluate_policy req.principal.policy (summary_of req))
    else ([], [])

module _ (scan : List File → Option (List SecretFinding)) where
  module _ (imports_of : File → Option (List Text)) (sha1_hex : Text → Text) where
    -- the contract check and the Change-Id
    pub decide_contract : PushRequest → List PolicyViolation → Decision
    decide_contract req ackable =
        let violations =
          check imports_of req.module_path req.projects req.files req.changed_paths in
        if not (is_empty req.projects) && not (is_empty violations)
        then record refused { contract_violations = violations }
        else record refused {
          accepted = true;
          change_id = (ensure_change_id sha1_hex req.commit_message req.change_id_seed).0;
          message = (ensure_change_id sha1_hex req.commit_message req.change_id_seed).1;
          ackable_violations = ackable;
        }

    -- the secret scan
    pub decide_scan : PushRequest → List PolicyViolation → Option (List SecretFinding) → Decision
    unfolding decide_contract
    decide_scan req ackable none = record refused { rejection_message = some scan_failed }
    decide_scan req ackable (some findings) =
        if is_empty findings
        then decide_contract req ackable
        else record refused { secret_findings = findings }

    -- the agent policy
    pub decide_policy : PushRequest → List PolicyViolation × List PolicyViolation → Decision
    unfolding decide_scan
    decide_policy req (hard, ackable) =
        if is_empty hard
        then decide_scan req ackable (scan req.files)
        else record refused { policy_violations = hard }

    -- Decide
    pub decide : PushRequest → Decision
    unfolding is_direct_trunk_push parse_magic_ref decide_policy agent_violations
    decide req =
        if is_direct_trunk_push req.ref req.trunk_ref
        then record refused { rejection_message = some direct_push }
        else elim (parse_magic_ref req.ref) [
          | none ↦ record refused { rejection_message = some unrecognized_ref }
          | some trunk ↦ decide_policy req (agent_violations req)
        ]
