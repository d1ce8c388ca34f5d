-- ===== src/Affected/Closure.antt =====
-- platform/affected/compute.go: closeOverDependents. Maps from names to name lists are read by
-- lookup only, so each is the function that collects the entry; a set is the list of its keys.
pub mod Scan
pub mod Ends
pub mod Declarers
pub mod Reach
use runko.Prelude.{
  ℕ, zero, suc, ◌+◌, Bool, true, false, List, [], ◌∷◌, ◌++◌, map, Text, text_eq, mem, length,
  if◌then◌else◌,
}
use runko.Affected.Types.{ProjectInfo}

-- what one project adds to the entry of `cur`: its name, once for each edge to `cur`
entries_of : Text → List Text → Text → List Text
entries_of name [] cur = []
entries_of name (dep ∷ deps) cur =
    if text_eq dep cur then name ∷ entries_of name deps cur else entries_of name deps cur

-- the entry of `cur` in a reverse map over one kind of edge
pub declarers : (ProjectInfo → List Text) → List ProjectInfo → Text → List Text
unfolding entries_of
declarers edges [] cur = []
declarers edges (p ∷ ps) cur = entries_of p.name (edges p) cur ++ declarers edges ps cur

pub record Walk : Type 0 where
  pub affected : List Text
  pub walked : List Text
  pub queue : List Text
  pub saw_dependent : Bool

-- if !affected[dep] { affected[dep] = true; sawDependent = true }
join_affected : Walk → Text → Walk
join_affected w dep =
    if mem dep w.affected then w else record w { affected = dep ∷ w.affected; saw_dependent = true }

-- if !walked[dep] { walked[dep] = true; queue = append(queue, dep) }
join_walked : Walk → Text → Walk
join_walked w dep =
    if mem dep w.walked
    then w
    else record w { walked = dep ∷ w.walked; queue = w.queue ++ dep ∷ [] }

-- the loop over dependents[cur]
pub visit_dependents : Walk → List Text → Walk
unfolding join_affected join_walked
visit_dependents w [] = w
visit_dependents w (dep ∷ deps) = visit_dependents (join_walked (join_affected w dep) dep) deps

-- the loop over testDependents[cur]
pub visit_tests : Walk → List Text → Walk
unfolding join_affected
visit_tests w [] = w
visit_tests w (dep ∷ deps) = visit_tests (join_affected w dep) deps

module _ (projects : List ProjectInfo) where
  pub dependents : Text → List Text
  unfolding declarers
  dependents = declarers (λ p. p.declared_dependencies) projects

  pub test_dependents : Text → List Text
  unfolding declarers
  test_dependents = declarers (λ p. p.test_dependencies) projects

  -- one round of the `for len(queue) > 0` loop, after `cur` left the queue
  pub expand : Walk → Text → List Text → Walk
  unfolding visit_dependents visit_tests dependents test_dependents
  expand w cur rest =
      visit_tests (visit_dependents (record w { queue = rest }) (dependents cur))
        (test_dependents cur)

  pub walk : ℕ → Walk → Walk
  unfolding expand
  walk zero w = w
  walk (suc fuel) w = elim w.queue [ [] ↦ w | cur ∷ rest ↦ walk fuel (expand w cur rest) ]

  pub start : List Text → Walk
  start direct = record {
    affected = direct;
    walked = direct;
    queue = direct;
    saw_dependent = false;
  }

  -- Every name is queued at most once beyond the seeds.
  pub rounds : List Text → ℕ
  rounds direct = length direct + length (map (λ p. p.name) projects)

  pub final : List Text → Walk
  unfolding walk start rounds
  final direct = walk (rounds direct) (start direct)

  -- closeOverDependents
  unfoldable pub close_over_dependents : List Text → List Text × Bool
  unfolding final mem
  close_over_dependents direct = let w = final direct in (w.affected, w.saw_dependent)
