-- ===== src/Daemon/Automerge/Examples.antt =====
-- A sweep on the daemon of the fixtures, with nobody else around.
use runko.Prelude.{◌≡◌, refl, ◌⊎◌, true, some, [], ◌∷◌, Text, codes, lookup}
use runko.Store.Model.{opened, MemStore}
use runko.Store.Listings.{list_changes}
use runko.Daemon.Automerge.{tip_text, sweep_once}
use runko.Daemon.Automerge.Touches.{HasTurn, sweep_once_touches}
use runko.Daemon.Fixtures.{test_server, bottom, test_store, test_world}

abbrev hash : Text → Text
hash t = t

abbrev armed_store : MemStore
armed_store = record test_store {
  changes = (codes "I1", record bottom { automerge = true; automerge_by = codes "ann" }) ∷ [];
}

sweep_once_touches_example :
    (lookup
        (codes "I1")
        (sweep_once hash test_server
          (λ i. test_world)
          (λ i s. s)
          (some (codes "b"))
          []
          armed_store).1.changes
      ≡ lookup (codes "I1") armed_store.changes)
    ⊎ HasTurn hash test_server
        (λ i. test_world)
        (λ i s. s)
        (codes "I1")
        (λ i s. refl)
        0
        (tip_text (some (codes "b")))
        (list_changes (some opened) armed_store)
        []
        armed_store
sweep_once_touches_example =
    sweep_once_touches hash test_server (λ i. test_world) (λ i s. s) (codes "I1") (λ i s. refl)
      (some (codes "b")) [] armed_store
