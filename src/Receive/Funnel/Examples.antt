-- ===== src/Receive/Funnel/Examples.antt =====
-- A push on which the results of platform/receive apply.
use runko.Prelude.{◌≡◌, refl, ◌↔◌, true, false, Option, some, List, [], ◌∷◌, all, Text, codes}
use runko.Contract.{File}
use runko.Receive.Policy.{PushSummary, default_agent_policy, evaluate_policy, split_ackable}
use runko.Receive.Policy.Hard.{Unrefused, evaluate_policy-hard}
use runko.Receive.ChangeId.{parse_change_id, ensure_change_id}
use runko.Receive.ChangeId.Trailers.{PrintsHex, ensure_change_id-parses}
use runko.Receive.Funnel.{SecretFinding, PushRequest, decide}
use runko.Receive.Funnel.Accepts.{Admissible, decide-accepted}

abbrev forty_zeros : Text
forty_zeros = codes "0000000000000000000000000000000000000000"

abbrev hash : Text → Text
hash text = forty_zeros

hash-PrintsHex : PrintsHex hash
unfolding all
hash-PrintsHex s = (refl, refl)

abbrev request : PushRequest
request = record {
  ref = codes "refs/for/main";
  trunk_ref = codes "main";
  commit_message = codes "fix\n";
  files = [];
  changed_paths = codes "lib/a.go" ∷ [];
  diff_bytes = 10;
  principal = record { is_agent = true; policy = default_agent_policy };
  workspace_affinity = codes "lib" ∷ [];
  modifies_owners = false;
  enabled_capabilities = [];
  is_land_request = false;
  is_project_create = false;
  author = codes "bot";
  new_project_owners = [];
  change_id_seed = codes "seed";
  module_path = [];
  projects = [];
}

abbrev summary : PushSummary
summary = record {
  changed_files = codes "app/a.go" ∷ [];
  diff_bytes = 900000;
  workspace_affinity = codes "lib" ∷ [];
  modifies_owners = true;
  enabled_capabilities = codes "cron" ∷ [];
  is_land_request = false;
  is_project_create = true;
  author = codes "bot";
  new_project_owners = codes "bot" ∷ [];
}

abbrev no_secrets : List File → Option (List SecretFinding)
no_secrets files = some []

abbrev no_imports : File → Option (List Text)
no_imports file = some []

evaluate_policy-hard_example :
    ((split_ackable (evaluate_policy default_agent_policy summary)).0 ≡ [])
    ↔ Unrefused default_agent_policy summary
evaluate_policy-hard_example = evaluate_policy-hard default_agent_policy summary

ensure_change_id-parses_example :
    parse_change_id (ensure_change_id hash (codes "fix\n\n") (codes "seed")).1
    ≡ some (ensure_change_id hash (codes "fix\n\n") (codes "seed")).0
ensure_change_id-parses_example =
    ensure_change_id-parses hash hash-PrintsHex (codes "fix\n\n") (codes "seed")

decide-accepted_example :
    ((decide no_secrets no_imports hash request).accepted ≡ true)
    ↔ Admissible no_secrets no_imports hash request
decide-accepted_example = decide-accepted no_secrets no_imports hash request
