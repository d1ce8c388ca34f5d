-- ===== src/Daemon/LandStack/Examples.antt =====
-- A stack of two changes, landed while nobody else calls the store.
use runko.Prelude.{◌≡◌, refl, true, none, some, List, [], ◌∷◌, In, arith, Text, lookup, mem, map}
use runko.Store.Model.{opened, Change, MemStore, new_mem_store}
use runko.Store.Changes.{Push, create_or_update_change}
use runko.Store.Changes.Keyed.{IsKeyed}
use runko.Store.Lifecycle.{none_yet, and_then, pushed}
use runko.Store.Lifecycle.Keyed.{Steps-IsKeyed}
use runko.Store.Listings.{list_changes}
use runko.Daemon.Land.{decided}
use runko.Daemon.LandStack.{LandedMember, StackDecision, by_head, chain_of, sweep, land_stack_core}
use runko.Daemon.LandStack.Rounds.{IsLanded}
use runko.Daemon.LandStack.Lands.{land_stack_core-lands}
use runko.Daemon.LandStack.Chain.{Linked, chain_of-Linked}
use runko.Daemon.Fixtures.{ann, test_server, bottom, child, test_store, test_world}

abbrev hash : Text → Text
hash t = t

abbrev push_of : Change → Push
push_of c = record {
  change_key = c.change_key;
  base_sha = c.base_sha;
  head_sha = c.head_sha;
  git_ref = c.git_ref;
  title = c.title;
  authored_by = c.authored_by;
  origin_workspace = [];
  origin_branch = [];
}

abbrev one_pushed : MemStore
one_pushed = (create_or_update_change (push_of bottom) new_mem_store).1

abbrev pushed_store : MemStore
pushed_store = (create_or_update_change (push_of child) one_pushed).1

new_mem_store-IsKeyed : IsKeyed new_mem_store
unfolding lookup
new_mem_store-IsKeyed k c h = ground arith

pushed_store-IsKeyed : IsKeyed pushed_store
pushed_store-IsKeyed =
    Steps-IsKeyed
      (and_then (and_then none_yet (pushed {s = new_mem_store} (push_of bottom)))
        (pushed {s = one_pushed} (push_of child)))
      new_mem_store-IsKeyed

abbrev swept_stack : StackDecision × MemStore
swept_stack =
    sweep hash test_server none (some ann) (λ i. test_world) (λ i s. s) 0
      (chain_of pushed_store child) pushed_store

swept_stack-result :
    land_stack_core hash test_server none (some ann) (λ i. test_world) (λ i s. s) child pushed_store
    ≡ (decided swept_stack.0, swept_stack.1)
unfolding land_stack_core
swept_stack-result = refl

land_stack_core-lands_example :
    ((r : LandedMember) → In r swept_stack.0.landed_members → IsLanded r.change_key swept_stack.1)
    × (swept_stack.0.stopped_key ≡ none
        → (m : Change) (c : Change) → In m (chain_of pushed_store child)
        → lookup m.change_key pushed_store.changes ≡ some c
        → IsLanded m.change_key swept_stack.1)
land_stack_core-lands_example =
    land_stack_core-lands hash test_server none (some ann) (λ i. test_world) (λ i s. s)
      (λ i s. none_yet) child pushed_store swept_stack.0 swept_stack.1 pushed_store-IsKeyed
      swept_stack-result

chain_of-Linked_example :
    Linked child (chain_of test_store child)
    × ((low : Change) × (rest : List Change) × (chain_of test_store child ≡ low ∷ rest)
        × ((p : Change)
            → lookup low.base_sha (by_head (list_changes (some opened) test_store)) ≡ some p
            → mem p.change_key (map (λ (c : Change). c.change_key) (chain_of test_store child))
              ≡ true))
chain_of-Linked_example = chain_of-Linked test_store child
