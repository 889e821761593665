-- ===== src/Retry/Bounds.antt =====
-- The waits and the attempt limits of retry.go stay within the policy.
use t_sync_sdk_go.Base.{ℕ, ◌+◌, ◌*◌, ◌/◌, ◌^◌, ◌≤◌, ◌<◌, max, ◌≡◌, arith, pos}
use t_sync_sdk_go.Errors.{GoError}
use t_sync_sdk_go.Retry.{
  RetryPolicy, second, mul64, upload_attempt_timeout, capped, backoff, attempt_limit, wait,
}

-- For every payload of at most 5 GiB, the largest part that a provider takes, the deadline of an
-- upload attempt does not overflow: it is 60 s plus the time at 256 KiB/s.
pub upload_attempt_timeout_exact :
    (n : ℕ)
    → n ≤ 5 * 2 ^ 30
    → upload_attempt_timeout n ≡ pos (60 * second + n * second / (256 * 1024))
unfolding upload_attempt_timeout mul64
upload_attempt_timeout_exact n h = ground arith

pub capped-le : (p : RetryPolicy) (retry : ℕ) → 0 < p.max_delay → capped p retry ≤ p.max_delay
unfolding capped
capped-le p retry h = ground arith

-- `rand.N` returns a value below its argument.
abbrev pub IsRand : (ℕ → ℕ) → Type 0
IsRand rand = (n : ℕ) → 0 < n → rand n < n

-- With a positive cap, every backoff lies between half of the capped delay and the capped delay,
-- which is at most the policy's MaxDelay.
pub backoff_bounds :
    (rand : ℕ → ℕ) (p : RetryPolicy) (retry : ℕ)
    → IsRand rand
    → 0 < p.base_delay
    → 0 < p.max_delay
    → (capped p retry / 2 ≤ backoff rand p retry)
      × (backoff rand p retry ≤ capped p retry)
      × (capped p retry ≤ p.max_delay)
unfolding backoff
backoff_bounds rand p retry r b h = ground (arith, capped-le p retry h, r (capped p retry / 2 + 1))

backoff-le :
    (rand : ℕ → ℕ) (p : RetryPolicy) (retry : ℕ)
    → IsRand rand
    → 0 < p.max_delay
    → backoff rand p retry ≤ p.max_delay
unfolding backoff
backoff-le rand p retry r h = ground (arith, capped-le p retry h, r (capped p retry / 2 + 1))

-- With a positive MaxDelay, no wait is longer than the larger of MaxDelay and MaxRetryAfter, and a
-- wait is never shorter than the backoff.
pub wait_bounds :
    (rand : ℕ → ℕ) (p : RetryPolicy) (retry : ℕ) (e : GoError)
    → IsRand rand
    → 0 < p.max_delay
    → (backoff rand p retry ≤ wait rand p retry e)
      × (wait rand p retry e ≤ max p.max_delay p.max_retry_after)
unfolding wait
wait_bounds rand p retry e r h = ground (arith, backoff-le rand p retry r h)

pub attempt_limit-le :
    (p : RetryPolicy) (e : GoError)
    → attempt_limit p e ≤ max (max p.max_attempts p.max_status_attempts) 1
unfolding attempt_limit
attempt_limit-le p e = ground arith
