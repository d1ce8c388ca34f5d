-- ===== src/Checks/Requirements.antt =====
-- platform/checks/requirements.go and buildbinding.go: ComputeMergeRequirements. A blocker is kept
-- as the value that its message is printed from. The details URLs, a display map, are left out, and
-- so are the attention set and the auto-approved flag, which the caller fills in.
pub mod Gate
pub mod Partition
mod Examples
use runko.Prelude.{
  ℕ, Bool, true, false, not, List, [], ◌∷◌, ◌++◌, map, length, is_empty, Text, if◌then◌else◌,
}
use runko.Checks.Runs.{CheckRunView, Standing, absent, running, passed, failed, standing}
use runko.Checks.Sets.{CheckSetPolicy, Expansion, expand_check_name, expand_check_set}

pub record OwnerRequirement : Type 0 where
  pub owner_ref : Text
  pub satisfied : Bool

pub record CheckSet : Type 0 where
  pub policy : CheckSetPolicy
  pub projects : List Text

pub data Blocker : Type 0 where
  not_reported still_running check_failed : Text → Blocker
  set_failed set_running : Text → ℕ → ℕ → Blocker
  set_missing : Text → ℕ → Blocker
  waiting_on_owner stale_reporter no_build_binding : Text → Blocker

pub record MergeRequirements : Type 0 where
  pub change_id : Text
  pub required_owners : List Text
  pub satisfied_owners : List Text
  pub outstanding_owners : List Text
  pub required_checks : List Text
  pub passing_checks : List Text
  pub failing_checks : List Text
  pub pending_checks : List Text
  pub mergeable : Bool
  pub blockers : List Blocker

-- the owners with that answer
owners_with : Bool → List OwnerRequirement → List Text
owners_with b [] = []
owners_with true (o ∷ os) =
    if o.satisfied then o.owner_ref ∷ owners_with true os else owners_with true os
owners_with false (o ∷ os) =
    if o.satisfied then owners_with false os else o.owner_ref ∷ owners_with false os

-- the check lists that the loops append to, and the blockers
pub record Tally : Type 0 where
  pub required : List Text
  pub passing : List Text
  pub failing : List Text
  pub pending : List Text
  pub blockers : List Blocker

abbrev pub no_tally : Tally
no_tally = record { required = []; passing = []; failing = []; pending = []; blockers = [] }

abbrev pub join_tally : Tally → Tally → Tally
join_tally s t = record {
  required = s.required ++ t.required;
  passing = s.passing ++ t.passing;
  failing = s.failing ++ t.failing;
  pending = s.pending ++ t.pending;
  blockers = s.blockers ++ t.blockers;
}

-- one individually required name
name_tally : Standing → Text → Tally
name_tally absent name = record no_tally {
  required = name ∷ [];
  pending = name ∷ [];
  blockers = not_reported name ∷ [];
}
name_tally running name = record no_tally {
  required = name ∷ [];
  pending = name ∷ [];
  blockers = still_running name ∷ [];
}
name_tally passed name = record no_tally { required = name ∷ []; passing = name ∷ [] }
name_tally failed name = record no_tally {
  required = name ∷ [];
  failing = name ∷ [];
  blockers = check_failed name ∷ [];
}

pub names_tally : List CheckRunView → List Text → Tally
unfolding name_tally
names_tally runs [] = no_tally
names_tally runs (name ∷ names) =
    join_tally (name_tally (standing runs name) name) (names_tally runs names)

-- the switch over one set: failures first, then missing runs, then pending ones
set_blockers : Text → ℕ → Expansion → List Text → List Blocker
set_blockers pattern total e pending =
    if not (is_empty e.failing)
    then set_failed pattern (length e.failing) total ∷ []
    else if not (is_empty e.missing)
    then set_missing pattern (length e.missing) ∷ []
    else if not (is_empty pending)
    then set_running pattern (length pending) total ∷ []
    else []

-- one check set: its missing members count as pending
set_tally : List CheckRunView → CheckSet → Tally
unfolding set_blockers
set_tally runs cs =
    let e = expand_check_set cs.policy cs.projects runs in
    let pending = e.pending ++ map (expand_check_name cs.policy.pattern) e.missing in
    record {
      required = e.passing ++ (e.failing ++ pending);
      passing = e.passing;
      failing = e.failing;
      pending = pending;
      blockers = set_blockers cs.policy.pattern (length cs.projects) e pending;
    }

pub sets_tally : List CheckRunView → List CheckSet → Tally
unfolding set_tally
sets_tally runs [] = no_tally
sets_tally runs (cs ∷ css) = join_tally (set_tally runs cs) (sets_tally runs css)

-- RequireBuildBindingBlockers
require_build_binding_blockers : List Text → List Blocker
require_build_binding_blockers = map no_build_binding

-- ComputeMergeRequirements
pub compute_merge_requirements :
    Text
    → List OwnerRequirement
    → List Text
    → List CheckRunView
    → List CheckSet
    → List Text
    → List Text
    → MergeRequirements
unfolding owners_with names_tally sets_tally require_build_binding_blockers
compute_merge_requirements change_id owners names runs sets stale unbound =
    let t = join_tally (names_tally runs names) (sets_tally runs sets) in
    let outstanding = owners_with false owners in
    let blockers =
      t.blockers
      ++ (map waiting_on_owner outstanding
          ++ (map stale_reporter stale ++ require_build_binding_blockers unbound)) in
    record {
      change_id = change_id;
      required_owners = map (λ o. o.owner_ref) owners;
      satisfied_owners = owners_with true owners;
      outstanding_owners = outstanding;
      required_checks = t.required;
      passing_checks = t.passing;
      failing_checks = t.failing;
      pending_checks = t.pending;
      mergeable = is_empty blockers;
      blockers = blockers;
    }
