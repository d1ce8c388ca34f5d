-- ===== src/Land/Attempt/Retry.antt =====
-- runkod/land.go: the loop of attemptLand over land attempts, `maxLandRaceRetries` of them. An
-- attempt reads and changes a state of any type, such as the repository, and gives what Land
-- returned, `none` for an error, and the state that it leaves.
use runko.Prelude.{
  ℕ, zero, suc, ◌<◌, ◌≡◌, refl, ◌⊎◌, inl, inr, true, false, Option, none, some, arith, Bool-cases,
  Option-cases,
}
use runko.Land.Attempt.{Outcome, zero_outcome}

abbrev pub max_land_race_retries : ℕ
max_land_race_retries = 5

abbrev pub raced : Outcome
raced = record zero_outcome { race_retry = true }

module _ {S : Type 0} (attempt : S → Option Outcome × S) where
  attempts_from : ℕ → S → Option Outcome × S
  attempts_from zero s = (some raced, s)
  attempts_from (suc left) s =
      let (returned, s') = attempt s in
      elim returned [
        | none ↦ (none, s')
        | some outcome ↦ elim outcome.race_retry [
          | true ↦ attempts_from left s'
          | false ↦ (some outcome, s')
        ]
      ]

  -- attemptLand
  unfoldable pub attempt_land : S → Option Outcome × S
  unfolding attempts_from
  attempt_land s = attempts_from max_land_race_retries s

  -- The state before the attempt `n`, as the attempts leave it one by one.
  abbrev pub state_before : ℕ → S → S
  state_before zero s = s
  state_before (suc n) s = state_before n (attempt s).1

  -- The attempt lost the compare-and-swap.
  abbrev pub Raced : S → ℕ → Type 0
  Raced s n = (o : Outcome) × ((attempt (state_before n s)).0 ≡ some o) × (o.race_retry ≡ true)

  abbrev pub AllRaced : S → ℕ → Type 0
  AllRaced s n = (i : ℕ) → i < n → Raced s i

  -- What the attempt `n` returned was an error, or no lost race.
  abbrev pub IsLast : S → ℕ → Type 0
  IsLast s n = (o : Outcome) → (attempt (state_before n s)).0 ≡ some o → o.race_retry ≡ false

  AllRaced-suc : (s : S) (n : ℕ) → Raced s 0 → AllRaced (attempt s).1 n → AllRaced s (suc n)
  AllRaced-suc s n first rest zero h = first
  AllRaced-suc s n first rest (suc i) h = rest i (omega arith)

  attempts_from_cases :
      (left : ℕ) (s : S)
      → ((attempts_from left s ≡ (some raced, state_before left s)) × AllRaced s left)
        ⊎ ((k : ℕ) × (k < left)
            × AllRaced s k
            × IsLast s k
            × (attempts_from left s ≡ attempt (state_before k s)))
  unfolding attempts_from
  attempts_from_cases zero s = inl (refl, λ j h. absurd (omega arith))
  attempts_from_cases (suc left) s = elim (Option-cases (attempt s).0) [
    | inl e ↦ inr (
      0,
      omega arith,
      λ j h. absurd (omega arith),
      λ o k. ground arith,
      rw (e, attempts_from) refl,
    )
    | inr (o, e) ↦ elim (Bool-cases o.race_retry) [
      | inr won ↦
          inr (0, omega arith, λ j h. absurd (omega arith), λ o' k. ground arith, ground arith)
      | inl lost ↦ elim (attempts_from_cases left (attempt s).1) [
        | inl (e', all) ↦ inl (rw (e, lost, attempts_from) e', AllRaced-suc s left (o, e, lost) all)
        | inr (k, a, before, last, e') ↦ inr (
          suc k,
          omega arith,
          AllRaced-suc s k (o, e, lost) before,
          last,
          rw (e, lost, attempts_from) e',
        )
      ]
    ]
  ]

  -- Either all five attempts raced, each on the state that the one before it left, and the loop
  -- gives up with a race; or the first attempt that did not race is the last one that is made: the
  -- loop returns what it returned and leaves the state that it left.
  pub attempt_land_cases :
      (s : S)
      → ((attempt_land s ≡ (some raced, state_before max_land_race_retries s))
          × AllRaced s max_land_race_retries)
        ⊎ ((k : ℕ) × (k < max_land_race_retries)
            × AllRaced s k
            × IsLast s k
            × (attempt_land s ≡ attempt (state_before k s)))
  unfolding attempt_land
  attempt_land_cases s = attempts_from_cases max_land_race_retries s
