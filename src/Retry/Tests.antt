-- ===== src/Retry/Tests.antt =====
-- Tests of the retry policy.
use t_sync_sdk_go.Base.{
  ℕ, eqb, if◌then◌else◌, ◌+◌, ◌*◌, ◌/◌, ◌^◌, ◌≤◌, ◌<◌, max, ◌≡◌, refl, Option, none, some, false, ℤ,
  arith, length, pos,
}
use t_sync_sdk_go.Base.Bytes.{Bytes, codes, trim_space}
use t_sync_sdk_go.Errors.{GoError, status}
use t_sync_sdk_go.Retry.{
  default_retry_policy, second, upload_attempt_timeout, mul64, capped, shift_left, is_positive,
  backoff, wait, Attempt, run_attempt, Finish, run,
}
use t_sync_sdk_go.Retry.After.{IsHint, parse_retry_after, parse_retry_after-IsHint}
use t_sync_sdk_go.Retry.Bounds.{IsRand, upload_attempt_timeout_exact, wait_bounds}
use t_sync_sdk_go.Retry.Loop.{IsRetried, run_retries}

abbrev busy : GoError
busy = status (record { status_code = 503; retry_after = 3 * second })

-- A random source that always gives 0.
abbrev no_jitter : ℕ → ℕ
no_jitter n = 0

no_jitter-IsRand : IsRand no_jitter
no_jitter-IsRand n h = h

abbrev attempt_with : Option GoError → Attempt
attempt_with e = record {
  returned = e;
  ctx_in_attempt = none;
  deadline_passed = false;
  ctx_after = none;
  ctx_done = none;
}

-- The server is busy once.
abbrev busy_once : ℕ → Attempt
busy_once n = if eqb n 1 then attempt_with (some busy) else attempt_with none

capped-second : capped default_retry_policy 2 ≡ second
unfolding capped shift_left is_positive mul64
capped-second = refl

upload_attempt_timeout_exact_example :
    upload_attempt_timeout (5 * 2 ^ 30) ≡ pos (60 * second + 5 * 2 ^ 30 * second / (256 * 1024))
upload_attempt_timeout_exact_example = upload_attempt_timeout_exact (5 * 2 ^ 30) (omega arith)

wait_bounds_example :
    (backoff no_jitter default_retry_policy 1 ≤ wait no_jitter default_retry_policy 1 busy)
    × (wait no_jitter default_retry_policy 1 busy
        ≤ max default_retry_policy.max_delay default_retry_policy.max_retry_after)
wait_bounds_example =
    wait_bounds no_jitter default_retry_policy 1 busy no_jitter-IsRand (omega arith)

abbrev jitters : ℕ → ℕ → ℕ
jitters n = no_jitter

run_retries_example :
    (r : Finish) × (run default_retry_policy second jitters busy_once ≡ some r)
    × (1 ≤ r.attempts)
    × (r.attempts
        ≤ max (max default_retry_policy.max_attempts default_retry_policy.max_status_attempts) 1)
    × ((m : ℕ)
        → 1 ≤ m
        → m < r.attempts
        → (e : GoError) × (IsRetried default_retry_policy second busy_once m e))
    × (r.error ≡ none → run_attempt second (busy_once r.attempts) ≡ none)
    × (run_attempt second (busy_once r.attempts) ≡ none → r.error ≡ none)
    × (r.attempts ≤ length r.waits + 1)
    × (length r.waits ≤ r.attempts)
run_retries_example = run_retries default_retry_policy second jitters busy_once

-- No text is a date.
abbrev no_date : Bytes → Option ℤ
no_date v = none

parse_retry_after-IsHint_example :
    IsHint no_date
      (trim_space (codes " 99999999 "))
      (parse_retry_after no_date (codes " 99999999 "))
parse_retry_after-IsHint_example = parse_retry_after-IsHint no_date (codes " 99999999 ")
