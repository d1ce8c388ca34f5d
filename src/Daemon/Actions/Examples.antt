-- ===== src/Daemon/Actions/Examples.antt =====
-- An approval and an acknowledgement on the daemon of the fixtures.
use runko.Prelude.{◌≡◌, ◌⊎◌, none, some, [], Text, codes, lookup}
use runko.Store.Model.{opened, MemStore, at_key}
use runko.Daemon.Gate.{GateView}
use runko.Daemon.Land.{Decision}
use runko.Daemon.Actions.{approve_change_core, ack_policy_core}
use runko.Daemon.Actions.Approve.{Acts, Decides, Approved, approve_change_core_cases}
use runko.Daemon.Actions.Acknowledge.{Acknowledged, ack_policy_core_cases}
use runko.Daemon.Fixtures.{ann, test_server, test_repo, bottom, test_store}

abbrev hash : Text → Text
hash t = t

abbrev approved_by_ben : Decision GateView × MemStore
approved_by_ben =
    approve_change_core hash test_server test_repo 7 bottom (codes "ann") (codes "ben") none
      test_store

approve_change_core_cases_example :
    ((approved_by_ben.1 ≡ test_store) × ¬ Decides approved_by_ben.0)
    ⊎ ((by : Text) × (bottom.state ≡ opened)
        × Acts none (codes "ben") by
        × Approved hash test_server test_repo 7 bottom (codes "ann") by test_store approved_by_ben.1
        × (lookup (codes "ann") (at_key bottom.change_key approved_by_ben.1.approvals)
            ≡ some
                (record { owner_ref = codes "ann"; approved_by = by; head_sha = bottom.head_sha })))
approve_change_core_cases_example =
    approve_change_core_cases hash test_server test_repo 7 bottom (codes "ann") (codes "ben") none
      test_store

abbrev acked_by_ann : Decision GateView × MemStore
acked_by_ann = ack_policy_core hash test_server test_repo 7 bottom [] (some ann) test_store

ack_policy_core_cases_example :
    ((acked_by_ann.1 ≡ test_store) × ¬ Decides acked_by_ann.0)
    ⊎ ((by : Text) × (bottom.state ≡ opened)
        × Acts (some ann) [] by
        × Acknowledged hash test_server test_repo 7 bottom by test_store acked_by_ann.1)
ack_policy_core_cases_example =
    ack_policy_core_cases hash test_server test_repo 7 bottom [] (some ann) test_store
