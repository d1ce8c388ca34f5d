-- ===== src/Checks/Delivery.antt =====
-- platform/checks/delivery.go: NextBackoff and MaxDeliveryAttempts. A time.Duration is an int64: a
-- value from 2 ^ 63 up stands for a negative one, and doubling wraps.
use runko.Prelude.{
  ℕ, zero, suc, ◌-◌, ◌*◌, ◌≤◌, ◌<◌, ◌≡◌, ap, inl, inr, Bool, true, false, ◌&&◌, arith, ltb, leb,
  Bool-cases, if◌then◌else◌,
}
use Prim.Native.Nat.{◌%◌, ◌^◌, min}
use native.Mathlib.Nat.{pow-suc}

abbrev pub max_delivery_attempts : ℕ
max_delivery_attempts = 8

double64 : ℕ → ℕ
double64 d = (d * 2) % 2 ^ 64

-- d >= maxDelay on int64, for a maxDelay that is not negative
at_least : ℕ → ℕ → Bool
at_least d max_delay = ltb d (2 ^ 63) && leb max_delay d

-- the rounds of the loop that are left
backoff_rounds : ℕ → ℕ → ℕ → ℕ
unfolding double64 at_least
backoff_rounds zero d max_delay = d
backoff_rounds (suc left) d max_delay =
    let rest = backoff_rounds left (double64 d) max_delay in
    if at_least (double64 d) max_delay then max_delay else rest

-- NextBackoff; an attempt number below 1 counts as 1.
unfoldable pub next_backoff : ℕ → ℕ → ℕ → ℕ
unfolding backoff_rounds
next_backoff n base max_delay = backoff_rounds (n - 1) base max_delay

two_pow_pos : (n : ℕ) → 0 < 2 ^ n
two_pow_pos zero = omega arith
two_pow_pos (suc n) = rw pow-suc (omega (arith, two_pow_pos n))

at_least_le : (d m : ℕ) → d < 2 ^ 63 → at_least d m ≡ true → m ≤ d
unfolding at_least
at_least_le d m h k = ground arith

not_at_least_le : (d m : ℕ) → d < 2 ^ 63 → at_least d m ≡ false → d ≤ m
unfolding at_least
not_at_least_le d m h k = ground arith

double64-lt : (d : ℕ) → d < 2 ^ 62 → (double64 d ≡ d * 2) × (double64 d < 2 ^ 63)
unfolding double64
double64-lt d h = omega arith

-- the factor of the remaining rounds
double_pow : (d left : ℕ) → d * 2 ^ suc left ≡ d * 2 * 2 ^ left
double_pow d left = rw pow-suc (grind arith)

pow_grows : (d left : ℕ) → d ≤ d * 2 ^ left
pow_grows d left = grind (arith, two_pow_pos left)

backoff_rounds-min :
    (left d max_delay : ℕ)
    → d ≤ max_delay
    → max_delay < 2 ^ 62
    → backoff_rounds left d max_delay ≡ min max_delay (d * 2 ^ left)
unfolding backoff_rounds
backoff_rounds-min zero d max_delay h k = omega arith
backoff_rounds-min (suc left) d max_delay h k =
    let (e, small) = double64-lt d (omega arith) in
    elim (Bool-cases (at_least (double64 d) max_delay)) [
      | inl over ↦ rw over (
          omega (
            arith,
            at_least_le (double64 d) max_delay small over,
            pow_grows (d * 2) left,
            double_pow d left,
          ))
      | inr below ↦ rw below (
          omega (
            arith,
            backoff_rounds-min left (double64 d) max_delay
                (not_at_least_le (double64 d) max_delay small below) k,
            double_pow d left,
            ap (λ (t : ℕ). t * 2 ^ left) e,
          ))
    ]

-- Up to the cap the delay doubles with each attempt, and it never passes the cap. No product wraps
-- where the cap is below 2 ^ 62 nanoseconds.
pub next_backoff-min :
    (n base max_delay : ℕ)
    → base ≤ max_delay
    → max_delay < 2 ^ 62
    → next_backoff n base max_delay ≡ min max_delay (base * 2 ^ (n - 1))
unfolding next_backoff
next_backoff-min n base max_delay h k = backoff_rounds-min (n - 1) base max_delay h k
