-- ===== src/Checks/Runs.antt =====
-- platform/checks/checkset.go: the check-run view and findRun; platform/checks/staleness.go: IsStale.
-- Times are seconds; a TTL that is not positive is 0.
use runko.Prelude.{
  ℕ, ◌+◌, ◌-◌, ◌<◌, ◌≡◌, refl, ◌≢◌, ◌↔◌, Bool, true, false, Option, none, some, List, [], ◌∷◌,
  arith, ltb, ◌==◌, Text, text_eq, if◌then◌else◌,
}

pub data CheckStatus : Type 0 where
  queued in_progress completed : CheckStatus

-- `unset` is the empty conclusion of a run that is not completed
pub data CheckConclusion : Type 0 where
  success failure cancelled skipped timed_out action_required neutral unset : CheckConclusion

pub record CheckRunView : Type 0 where
  pub name : Text
  pub status : CheckStatus
  pub conclusion : CheckConclusion
  pub last_seen_at : ℕ
  pub ttl_seconds : ℕ
  pub details_url : Text
  pub copied_from_head_sha : Text
  pub reporter : Text

-- findRun
unfoldable pub find_run : List CheckRunView → Text → Option CheckRunView
unfolding text_eq
find_run [] name = none
find_run (r ∷ runs) name = if text_eq r.name name then some r else find_run runs name

-- what the switch over a looked-up run tells apart
pub data Standing : Type 0 where
  absent running passed failed : Standing

unfoldable pub standing_of : CheckStatus → CheckConclusion → Standing
standing_of queued conclusion = running
standing_of in_progress conclusion = running
standing_of completed success = passed
standing_of completed _ = failed

unfoldable pub standing : List CheckRunView → Text → Standing
unfolding find_run standing_of
standing runs name = elim (find_run runs name) [
  | none ↦ absent
  | some run ↦ standing_of run.status run.conclusion
]

-- IsStale, for a TTL that fits a time.Duration
unfoldable pub is_stale : CheckStatus → ℕ → ℕ → ℕ → Bool
is_stale completed last_seen_at ttl_seconds now = false
is_stale status last_seen_at ttl_seconds now =
    if ttl_seconds == 0 then false else ltb ttl_seconds (now - last_seen_at)

-- A run is stale exactly if it is not completed, has a TTL, and was last seen longer ago than that.
is_stale_iff :
    (status : CheckStatus) (seen ttl now : ℕ)
    → (is_stale status seen ttl now ≡ true)
      ↔ ((status ≢ completed) × (0 < ttl) × (seen + ttl < now))
unfolding is_stale
is_stale_iff completed seen ttl now = (λ h. ground arith, λ (n, _, _). absurd (n refl))
is_stale_iff queued seen ttl now =
    (λ h. (λ e. cc, ground arith, ground arith), λ (n, a, b). ground arith)
is_stale_iff in_progress seen ttl now =
    (λ h. (λ e. cc, ground arith, ground arith), λ (n, a, b). ground arith)
