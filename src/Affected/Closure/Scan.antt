-- ===== src/Affected/Closure/Scan.antt =====
-- What one round of the walk adds to the two sets and to the queue.
use runko.Prelude.{
  ◌≡◌, refl, true, false, List, [], ◌∷◌, arith, Text, mem, mem-append, text_eq_iff, if◌then◌else◌,
}
use runko.Affected.Types.{ProjectInfo}
use runko.Affected.Closure.{
  Walk, join_affected, join_walked, visit_dependents, visit_tests, dependents, test_dependents,
  expand,
}

mem-visit_dependents_affected :
    (w : Walk) (deps : List Text) (x : Text)
    → mem x (visit_dependents w deps).affected ≡ (if mem x w.affected then true else mem x deps)
unfolding visit_dependents join_affected join_walked mem
mem-visit_dependents_affected w [] x = ground arith
mem-visit_dependents_affected w (d ∷ deps) x = ground (
  arith,
  mem-visit_dependents_affected (join_walked (join_affected w d) d) deps x,
  text_eq_iff d x,
)

mem-visit_dependents_walked :
    (w : Walk) (deps : List Text) (x : Text)
    → mem x (visit_dependents w deps).walked ≡ (if mem x w.walked then true else mem x deps)
unfolding visit_dependents join_affected join_walked mem
mem-visit_dependents_walked w [] x = ground arith
mem-visit_dependents_walked w (d ∷ deps) x =
    ground (
      arith,
      mem-visit_dependents_walked (join_walked (join_affected w d) d) deps x,
      text_eq_iff d x,
    )

-- A name waits in the queue if it did, or if the round walked it anew.
mem-visit_dependents_queue :
    (w : Walk) (deps : List Text) (x : Text)
    → mem x (visit_dependents w deps).queue
      ≡ (if mem x w.queue then true else if mem x w.walked then false else mem x deps)
unfolding visit_dependents join_affected join_walked mem
mem-visit_dependents_queue w [] x = ground arith
mem-visit_dependents_queue w (d ∷ deps) x = ground (
  arith,
  mem-visit_dependents_queue (join_walked (join_affected w d) d) deps x,
  mem-append x w.queue (d ∷ []),
  text_eq_iff d x,
)

mem-visit_tests_affected :
    (w : Walk) (deps : List Text) (x : Text)
    → mem x (visit_tests w deps).affected ≡ (if mem x w.affected then true else mem x deps)
unfolding visit_tests join_affected mem
mem-visit_tests_affected w [] x = ground arith
mem-visit_tests_affected w (d ∷ deps) x =
    ground (arith, mem-visit_tests_affected (join_affected w d) deps x, text_eq_iff d x)

pub walked-visit_tests : (w : Walk) (deps : List Text) → (visit_tests w deps).walked ≡ w.walked
unfolding visit_tests join_affected
walked-visit_tests w [] = refl
walked-visit_tests w (d ∷ deps) = ground (arith, walked-visit_tests (join_affected w d) deps)

pub queue-visit_tests : (w : Walk) (deps : List Text) → (visit_tests w deps).queue ≡ w.queue
unfolding visit_tests join_affected
queue-visit_tests w [] = refl
queue-visit_tests w (d ∷ deps) = ground (arith, queue-visit_tests (join_affected w d) deps)

module _ (projects : List ProjectInfo) (w : Walk) (cur : Text) (rest : List Text) where
  pub mem-expand_walked :
      (x : Text)
      → mem x (expand projects w cur rest).walked
        ≡ (if mem x w.walked then true else mem x (dependents projects cur))
  unfolding expand
  mem-expand_walked x =
      rw (walked-visit_tests, expand)
        (mem-visit_dependents_walked (record w { queue = rest }) (dependents projects cur) x)

  pub mem-expand_queue :
      (x : Text)
      → mem x (expand projects w cur rest).queue ≡ (
          if mem x rest
          then true
          else if mem x w.walked
          then false
          else mem x (dependents projects cur))
  unfolding expand
  mem-expand_queue x =
      rw (queue-visit_tests, expand)
        (mem-visit_dependents_queue (record w { queue = rest }) (dependents projects cur) x)

  pub mem-expand_affected :
      (x : Text)
      → mem x (expand projects w cur rest).affected ≡ (
          if mem x w.affected
          then true
          else if mem x (dependents projects cur)
          then true
          else mem x (test_dependents projects cur))
  unfolding expand
  mem-expand_affected x =
      let w' = record w { queue = rest } in
      ground (
        arith,
        mem-visit_tests_affected (visit_dependents w' (dependents projects cur))
            (test_dependents projects cur) x,
        mem-visit_dependents_affected w' (dependents projects cur) x,
      )
