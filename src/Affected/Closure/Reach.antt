-- ===== src/Affected/Closure/Reach.antt =====
-- The closure is exactly what the declared edges reach: dependency edges any number of times, and
-- one test edge at the end.
use runko.Prelude.{
  ℕ, zero, suc, ◌≡◌, inl, inr, ◌↔◌, true, false, List, ◌∷◌, arith, Text, mem, text_eq, text_eq_iff,
  Bool-cases, List-cases, if◌then◌else◌,
}
use runko.Affected.Types.{ProjectInfo}
use runko.Affected.Closure.{
  Walk, dependents, test_dependents, expand, walk, start, rounds, final, close_over_dependents,
}
use runko.Affected.Closure.Scan.{mem-expand_walked, mem-expand_queue, mem-expand_affected}
use runko.Affected.Closure.Ends.{final_ends}
use runko.Affected.Closure.Declarers.{Declares, declarers_sound, declarers_complete}

module _ (projects : List ProjectInfo) (direct : List Text) where
  -- the names that the walk continues through
  pub data Walked : Text → Type 0 where
    seed : {x : Text} → mem x direct ≡ true → Walked x
    depends :
        {x y : Text} → Walked x → Declares (λ p. p.declared_dependencies) projects y x → Walked y

  -- the names of the closure: a test edge joins its declarer and leads no further
  pub data Reached : Text → Type 0 where
    walked : {x : Text} → Walked x → Reached x
    tests : {x y : Text} → Walked x → Declares (λ p. p.test_dependencies) projects y x → Reached y

  record Inv (w : Walk) : Type 0 where
    walked_sound : (x : Text) → mem x w.walked ≡ true → Walked x
    affected_sound : (x : Text) → mem x w.affected ≡ true → Reached x
    queued : (x : Text) → mem x w.queue ≡ true → mem x w.walked ≡ true
    joined : (x : Text) → mem x w.walked ≡ true → mem x w.affected ≡ true
    seeds : (x : Text) → mem x direct ≡ true → mem x w.walked ≡ true
    closed :
        (x y : Text)
        → mem x w.walked ≡ true
        → mem x w.queue ≡ false
        → mem y (dependents projects x) ≡ true
        → mem y w.walked ≡ true
    tested :
        (x y : Text)
        → mem x w.walked ≡ true
        → mem x w.queue ≡ false
        → mem y (test_dependents projects x) ≡ true
        → mem y w.affected ≡ true

  start-Inv : Inv (start projects direct)
  unfolding start
  start-Inv = record {
    walked_sound = λ x h. seed h;
    affected_sound = λ x h. walked (seed h);
    queued = λ x h. h;
    joined = λ x h. h;
    seeds = λ x h. h;
    closed = λ x y h q d. ground arith;
    tested = λ x y h q d. ground arith;
  }

  module _ (w : Walk) (cur : Text) (rest : List Text) (e : w.queue ≡ cur ∷ rest) (i : Inv w) where
    abbrev next : Walk
    next = expand projects w cur rest

    in_queue : (x : Text) → mem x w.queue ≡ (if text_eq cur x then true else mem x rest)
    unfolding mem
    in_queue x = rw e

    cur-Walked : Walked cur
    cur-Walked =
        i.walked_sound cur (i.queued cur (ground (arith, in_queue cur, text_eq_iff cur cur)))

    next_walked_sound : (x : Text) → mem x next.walked ≡ true → Walked x
    unfolding dependents
    next_walked_sound x h = elim (Bool-cases (mem x w.walked)) [
      | inl m ↦ i.walked_sound x m
      | inr m ↦ depends cur-Walked (
          declarers_sound _ projects cur x
            (ground (arith, mem-expand_walked projects w cur rest x)))
    ]

    next_affected_sound : (x : Text) → mem x next.affected ≡ true → Reached x
    unfolding dependents test_dependents
    next_affected_sound x h = elim (Bool-cases (mem x w.affected)) [
      | inl m ↦ i.affected_sound x m
      | inr m ↦ elim (Bool-cases (mem x (dependents projects cur))) [
        | inl d ↦ walked (depends cur-Walked (declarers_sound _ projects cur x d))
        | inr d ↦ tests cur-Walked (
            declarers_sound _ projects cur x
              (ground (arith, mem-expand_affected projects w cur rest x)))
      ]
    ]

    next_closed :
        (x y : Text)
        → mem x next.walked ≡ true
        → mem x next.queue ≡ false
        → mem y (dependents projects x) ≡ true
        → mem y next.walked ≡ true
    next_closed x y h q d = elim (Bool-cases (text_eq cur x)) [
      | inl same ↦
          let k : mem y (dependents projects cur) ≡ true = rw ((text_eq_iff cur x).0 same) d in
          ground (arith, mem-expand_walked projects w cur rest y)
      | inr other ↦ ground (
        arith,
        mem-expand_walked projects w cur rest y,
        mem-expand_walked projects w cur rest x,
        mem-expand_queue projects w cur rest x,
        in_queue x,
        i.closed x y,
      )
    ]

    next_tested :
        (x y : Text)
        → mem x next.walked ≡ true
        → mem x next.queue ≡ false
        → mem y (test_dependents projects x) ≡ true
        → mem y next.affected ≡ true
    next_tested x y h q d = elim (Bool-cases (text_eq cur x)) [
      | inl same ↦
          let k : mem y (test_dependents projects cur) ≡ true = rw ((text_eq_iff cur x).0 same) d in
          ground (arith, mem-expand_affected projects w cur rest y)
      | inr other ↦ ground (
        arith,
        mem-expand_affected projects w cur rest y,
        mem-expand_walked projects w cur rest x,
        mem-expand_queue projects w cur rest x,
        in_queue x,
        i.tested x y,
      )
    ]

    expand-Inv : Inv next
    expand-Inv = record {
      walked_sound = next_walked_sound;
      affected_sound = next_affected_sound;
      queued = λ x h. ground (
        arith,
        mem-expand_queue projects w cur rest x,
        mem-expand_walked projects w cur rest x,
        in_queue x,
        i.queued x,
      );
      joined = λ x h. ground (
        arith,
        mem-expand_walked projects w cur rest x,
        mem-expand_affected projects w cur rest x,
        i.joined x,
      );
      seeds = λ x h. ground (arith, mem-expand_walked projects w cur rest x, i.seeds x);
      closed = next_closed;
      tested = next_tested;
    }

  walk-Inv : (fuel : ℕ) (w : Walk) → Inv w → Inv (walk projects fuel w)
  unfolding walk
  walk-Inv zero w i = i
  walk-Inv (suc fuel) w i = elim (List-cases w.queue) [
    | inl e ↦ rw (e, walk) i
    | inr (cur, rest, e) ↦
        rw (e, walk) (walk-Inv fuel (expand projects w cur rest) (expand-Inv w cur rest e i))
  ]

  final-Inv : Inv (final projects direct)
  unfolding final
  final-Inv = walk-Inv (rounds projects direct) (start projects direct) start-Inv

  final_empty : (x : Text) → mem x (final projects direct).queue ≡ false
  unfolding mem
  final_empty x = rw (final_ends projects direct)

  Walked-mem : {x : Text} → Walked x → mem x (final projects direct).walked ≡ true
  unfolding dependents
  Walked-mem (seed h) = final-Inv.seeds _ h
  Walked-mem (depends {x} {y} r d) =
      final-Inv.closed x y (Walked-mem r) (final_empty x) (declarers_complete _ projects x y d)

  Reached-mem : {x : Text} → Reached x → mem x (final projects direct).affected ≡ true
  unfolding test_dependents
  Reached-mem (walked r) = final-Inv.joined _ (Walked-mem r)
  Reached-mem (tests {x} {y} r d) =
      final-Inv.tested x y (Walked-mem r) (final_empty x) (declarers_complete _ projects x y d)

-- The closure holds exactly the names that are reached: the seeds, whatever declares a dependency
-- on a walked name, any number of times, and whatever declares a test dependency on a walked name.
pub close_over_dependents_correct :
    (projects : List ProjectInfo) (direct : List Text) (x : Text)
    → (mem x (close_over_dependents projects direct).0 ≡ true) ↔ Reached projects direct x
unfolding close_over_dependents
close_over_dependents_correct projects direct x =
    ((final-Inv projects direct).affected_sound x, Reached-mem projects direct)
