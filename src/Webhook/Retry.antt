-- ===== src/Webhook/Retry.antt =====
-- internal/webhook/retry.go: the schedule of retries, in nanoseconds. The jitter is drawn at random
-- in floating point, so what it makes of a delay is a function that the caller passes.
use recon_sync.Common.{
  ℕ, zero, suc, ◌+◌, ◌*◌, Bool, true, false, ◌||◌, List, [], ◌∷◌, ltb, leb, ◌==◌, if◌then◌else◌,
  length,
}

abbrev second : ℕ
second = 1_000_000_000

-- `retrySchedule`.
abbrev pub retry_schedule : List ℕ
retry_schedule =
    0 ∷ (30 * second) ∷ (120 * second) ∷ (600 * second) ∷ (3_600 * second) ∷ (21_600 * second) ∷ []

abbrev pub max_attempts : ℕ
max_attempts = length retry_schedule

-- `schedule[i]`, or the last entry beyond the end.
abbrev delay_at : ℕ → List ℕ → ℕ
delay_at n [] = 0
delay_at zero (d ∷ ds) = d
delay_at (suc n) (d ∷ []) = d
delay_at (suc n) (d ∷ e ∷ ds) = delay_at n (e ∷ ds)

-- Attempts count from 0, so the source's test for a negative one does not fire.
unfoldable pub retry_delay : ℕ → ℕ
retry_delay attempt = delay_at attempt retry_schedule

unfoldable pub should_retry : ℕ → Bool
should_retry attempt = ltb (attempt + 1) max_attempts

unfoldable pub next_retry_at : (ℕ → ℕ) → ℕ → ℕ → ℕ
unfolding retry_delay
next_retry_at jitter now attempt = now + jitter (retry_delay attempt)

unfoldable pub retryable_status : ℕ → Bool
retryable_status code =
    if leb 500 code then true else if code == 408 || code == 429 then true else false
