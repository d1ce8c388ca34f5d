-- ===== src/Affected/Closure/Ends.antt =====
-- The walk empties its queue within the rounds that it is given.
use runko.Prelude.{
  ℕ, zero, suc, ◌+◌, ◌≤◌, ◌<◌, ◌≡◌, ap, inl, inr, true, false, List, [], ◌∷◌, map, arith, Text, mem,
  mem-append, text_eq_iff, length, length-append, List-cases, if◌then◌else◌,
}
use runko.Affected.Types.{ProjectInfo}
use runko.Affected.Closure.{
  Walk, entries_of, declarers, join_affected, join_walked, visit_dependents, dependents,
  test_dependents, expand, walk, start, rounds, final,
}
use runko.Affected.Closure.Scan.{walked-visit_tests, queue-visit_tests}

-- how many of the names are not walked yet
abbrev pub unwalked : List Text → List Text → ℕ
unwalked [] walked = 0
unwalked (u ∷ us) walked = if mem u walked then unwalked us walked else suc (unwalked us walked)

unwalked-cons_le :
    (us walked : List Text) (d : Text) → unwalked us (d ∷ walked) ≤ unwalked us walked
unfolding mem
unwalked-cons_le [] walked d = omega arith
unwalked-cons_le (u ∷ us) walked d = ground (arith, unwalked-cons_le us walked d)

unwalked-cons_lt :
    (us walked : List Text) (d : Text)
    → mem d us ≡ true
    → mem d walked ≡ false
    → unwalked us (d ∷ walked) < unwalked us walked
unfolding mem
unwalked-cons_lt [] walked d m h = ground arith
unwalked-cons_lt (u ∷ us) walked d m h = ground (
  arith,
  unwalked-cons_lt us walked d,
  unwalked-cons_le us walked d,
  text_eq_iff u d,
  text_eq_iff d u,
)

unwalked-le-length : (us walked : List Text) → unwalked us walked ≤ length us
unwalked-le-length [] walked = omega arith
unwalked-le-length (u ∷ us) walked = ground (arith, unwalked-le-length us walked)

-- every name of the first list is in the second
abbrev pub Within : List Text → List Text → Type 0
Within ds us = (x : Text) → mem x ds ≡ true → mem x us ≡ true

offer_work :
    (us : List Text) (w : Walk) (d : Text)
    → mem d us ≡ true
    → unwalked us (join_walked (join_affected w d) d).walked
        + length (join_walked (join_affected w d) d).queue
      ≤ unwalked us w.walked + length w.queue
unfolding join_walked join_affected
offer_work us w d m =
    ground (arith, unwalked-cons_lt us w.walked d m, length-append w.queue (d ∷ []))

visit_dependents_work :
    (us : List Text) (w : Walk) (ds : List Text)
    → Within ds us
    → unwalked us (visit_dependents w ds).walked + length (visit_dependents w ds).queue
      ≤ unwalked us w.walked + length w.queue
unfolding visit_dependents mem
visit_dependents_work us w [] h = omega arith
visit_dependents_work us w (d ∷ ds) h = omega (
  arith,
  offer_work us w d (h d (ground (arith, text_eq_iff d d))),
  visit_dependents_work us (join_walked (join_affected w d) d) ds (λ x m. h x (ground arith)),
)

entries_of-Within :
    (name : Text) (deps : List Text) (cur : Text) (us : List Text)
    → mem name us ≡ true
    → Within (entries_of name deps cur) us
unfolding entries_of mem
entries_of-Within name [] cur us h x m = ground arith
entries_of-Within name (d ∷ deps) cur us h x m =
    ground (arith, entries_of-Within name deps cur us h x, text_eq_iff name x)

abbrev pub names : List ProjectInfo → List Text
names = map (λ p. p.name)

declarers-Within :
    (edges : ProjectInfo → List Text) (ps : List ProjectInfo) (cur : Text)
    → Within (declarers edges ps cur) (names ps)
unfolding declarers mem
declarers-Within edges [] cur x m = ground arith
declarers-Within edges (p ∷ ps) cur x m = ground (
  arith,
  mem-append x (entries_of p.name (edges p) cur) (declarers edges ps cur),
  entries_of-Within p.name (edges p) cur (p.name ∷ names ps)
      (ground (arith, text_eq_iff p.name p.name)) x,
  declarers-Within edges ps cur x,
)

module _ (projects : List ProjectInfo) where
  abbrev work : Walk → ℕ
  work w = unwalked (names projects) w.walked + length w.queue

  work-expand :
      (w : Walk) (cur : Text) (rest : List Text)
      → w.queue ≡ cur ∷ rest
      → work (expand projects w cur rest) < work w
  unfolding expand
  work-expand w cur rest e =
      let w' = record w { queue = rest } in
      let v = visit_dependents w' (dependents projects cur) in
      rw
        (
          walked-visit_tests v (test_dependents projects cur),
          queue-visit_tests v (test_dependents projects cur),
          expand,
        )
        (omega (
          arith,
          ap length e,
          visit_dependents_work (names projects) w' (dependents projects cur)
              (declarers-Within (λ p. p.declared_dependencies) projects cur),
        ))

  walk_ends : (fuel : ℕ) (w : Walk) → work w ≤ fuel → (walk projects fuel w).queue ≡ []
  unfolding walk
  walk_ends zero w h = elim (List-cases w.queue) [
    | inl e ↦ e
    | inr (cur, rest, e) ↦ absurd (omega (arith, ap length e))
  ]
  walk_ends (suc fuel) w h = elim (List-cases w.queue) [
    | inl e ↦ rw (e, walk) e
    | inr (cur, rest, e) ↦
        rw (e, walk)
          (walk_ends fuel (expand projects w cur rest) (omega (arith, work-expand w cur rest e)))
  ]

  -- The loop ends by its own test: no name is left in the queue.
  pub final_ends : (direct : List Text) → (final projects direct).queue ≡ []
  unfolding final start rounds
  final_ends direct =
      walk_ends (rounds projects direct) (start projects direct)
        (omega (arith, unwalked-le-length (names projects) direct))
