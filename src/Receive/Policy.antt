-- ===== src/Receive/Policy.antt =====
-- platform/receive/policy.go: AgentPolicy, EvaluatePolicy, SplitAckable. A violation is kept as its
-- code with what its message names; a cap that is not positive is 0.
pub mod Hard
use runko.Prelude.{
  ℕ, Bool, true, false, not, ◌&&◌, Option, none, some, List, [], ◌∷◌, ◌++◌, ltb, length, is_empty,
  Text, codes, mem, if◌then◌else◌,
}
use runko.Glob.{match_path, under}

pub record AgentPolicy : Type 0 where
  pub require_workspace_affinity : Bool
  pub require_description : Bool
  pub max_changed_files : ℕ
  pub max_diff_bytes : ℕ
  pub can_create_projects : Bool
  pub can_land_changes : Bool
  pub can_modify_owners : Bool
  pub can_enable_capabilities : List Text
  pub denylist_paths : List Text

-- DefaultAgentPolicy
abbrev pub default_agent_policy : AgentPolicy
default_agent_policy = record {
  require_workspace_affinity = true;
  require_description = true;
  max_changed_files = 40;
  max_diff_bytes = 512000;
  can_create_projects = true;
  can_land_changes = false;
  can_modify_owners = false;
  can_enable_capabilities = codes "http" ∷ codes "rpc" ∷ [];
  denylist_paths = codes "security/**" ∷ codes "**/.github/workflows/**" ∷ [];
}

pub record PushSummary : Type 0 where
  pub changed_files : List Text
  pub diff_bytes : ℕ
  pub workspace_affinity : List Text
  pub modifies_owners : Bool
  pub enabled_capabilities : List Text
  pub is_land_request : Bool
  pub is_project_create : Bool
  pub author : Text
  pub new_project_owners : List Text

pub data Code : Type 0 where
  workspace_affinity_required max_changed_files_exceeded max_diff_bytes_exceeded : Code
  owners_modification_denied project_create_denied land_denied : Code
  path_outside_affinity owner_self_grant capability_denied : Text → Code
  denylist_path : Text → Text → Code

pub record PolicyViolation : Type 0 where
  pub code : Code
  pub ackable : Bool

-- a violation that refuses the push, and one that the literal marks `Ackable: true`
abbrev pub hard_violation : Code → PolicyViolation
hard_violation c = record { code = c; ackable = false }

abbrev pub ackable_violation : Code → PolicyViolation
ackable_violation c = record { code = c; ackable = true }

-- withinAffinity
unfoldable pub within_affinity : Text → List Text → Bool
unfolding under
within_affinity path [] = false
within_affinity path (root ∷ roots) =
    if is_empty root then true else if under path root then true else within_affinity path roots

-- matchAny
match_any : List Text → Text → Option Text
unfolding match_path
match_any [] p = none
match_any (pat ∷ pats) p = if match_path pat p then some pat else match_any pats p

-- what a guard appends
abbrev pub when : Bool → PolicyViolation → List PolicyViolation
when true v = v ∷ []
when false v = []

outside_affinity : List Text → List Text → List PolicyViolation
unfolding within_affinity
outside_affinity affinity [] = []
outside_affinity affinity (f ∷ fs) =
    when (not (within_affinity f affinity)) (hard_violation (path_outside_affinity f))
    ++ outside_affinity affinity fs

denylisted : List Text → List Text → List PolicyViolation
unfolding match_any
denylisted patterns [] = []
denylisted patterns (f ∷ fs) =
    elim (match_any patterns f) [
      | some pattern ↦ ackable_violation (denylist_path f pattern) ∷ []
      | none ↦ []
    ]
    ++ denylisted patterns fs

denied_capabilities : List Text → List Text → List PolicyViolation
unfolding mem
denied_capabilities allowed [] = []
denied_capabilities allowed (c ∷ cs) =
    when (not (mem c allowed)) (ackable_violation (capability_denied c))
    ++ denied_capabilities allowed cs

over : ℕ → ℕ → Bool
over cap n = ltb 0 cap && ltb cap n

-- EvaluatePolicy
pub evaluate_policy : AgentPolicy → PushSummary → List PolicyViolation
unfolding outside_affinity denylisted denied_capabilities over mem
evaluate_policy p s =
    when (p.require_workspace_affinity && is_empty s.workspace_affinity)
      (hard_violation workspace_affinity_required)
    ++ ((if is_empty s.workspace_affinity
          then []
          else outside_affinity s.workspace_affinity s.changed_files)
        ++ (when (over p.max_changed_files (length s.changed_files))
              (ackable_violation max_changed_files_exceeded)
            ++ (when (over p.max_diff_bytes s.diff_bytes)
                  (ackable_violation max_diff_bytes_exceeded)
                ++ (denylisted p.denylist_paths s.changed_files
                    ++ (when (s.modifies_owners && not p.can_modify_owners)
                          (ackable_violation owners_modification_denied)
                        ++ (when (s.is_project_create && not p.can_create_projects)
                              (ackable_violation project_create_denied)
                            ++ (when
                                  (s.is_project_create
                                    && not (is_empty s.author)
                                    && mem s.author s.new_project_owners)
                                  (ackable_violation (owner_self_grant s.author))
                                ++ (when (s.is_land_request && not p.can_land_changes)
                                      (hard_violation land_denied)
                                    ++ denied_capabilities p.can_enable_capabilities
                                        s.enabled_capabilities))))))))

-- SplitAckable: the hard violations and the ackable ones
unfoldable pub split_ackable : List PolicyViolation → List PolicyViolation × List PolicyViolation
split_ackable [] = ([], [])
split_ackable (v ∷ vs) =
    let (hard, ackable) = split_ackable vs in
    if v.ackable then (hard, v ∷ ackable) else (v ∷ hard, ackable)
