-- ===== src/Retry.antt =====
-- storage_clients/retry.go: the retry policy, its waits and the loop `RetryPolicy.Do`.
-- Durations are numbers of nanoseconds. A policy field or a timeout that is 0 or negative is 0 here:
-- the code reads each of them only behind a test `> 0` or `<= 0`.
pub mod Bounds
pub mod Loop
pub mod After
mod Tests
use t_sync_sdk_go.Base.{
  ℕ, zero, suc, ◌+◌, ◌-◌, ◌*◌, ◌/◌, ◌%◌, ◌^◌, max, min, Bool, true, false, ◌&&◌, ◌||◌, not, Option,
  none, some, List, [], ◌∷◌, ◌++◌, if◌then◌else◌, eqb, ltb, leb, ℤ, pos, sub_ℕ,
}
use t_sync_sdk_go.Errors.{
  Sentinel, attempt_timeout, GoError, StatusError, sentinel, wrap, both, is, as_status,
  is_permanent, is_retryable, retryable,
}

pub record RetryPolicy : Type 0 where
  pub max_attempts : ℕ
  pub max_status_attempts : ℕ
  pub base_delay : ℕ
  pub max_delay : ℕ
  pub max_retry_after : ℕ

abbrev pub second : ℕ
second = 1_000_000_000

abbrev pub default_retry_policy : RetryPolicy
default_retry_policy = record {
  max_attempts = 4;
  max_status_attempts = 8;
  base_delay = 500_000_000;
  max_delay = 20 * second;
  max_retry_after = 60 * second;
}

-- An `int64` product as its bit pattern.
unfoldable pub mul64 : ℕ → ℕ → ℕ
mul64 a b = a * b % 2 ^ 64

-- `UploadAttemptTimeout`: a wrapped product is negative, and Go's division rounds towards 0.
unfoldable pub upload_attempt_timeout : ℕ → ℤ
upload_attempt_timeout n =
    let v = mul64 n second in
    if ltb v (2 ^ 63)
    then pos (60 * second + v / (256 * 1024))
    else sub_ℕ (60 * second) ((2 ^ 64 - v) / (256 * 1024))

-- `base << shift` on an `int64`, as its bit pattern, and whether such a pattern is positive.
unfoldable pub shift_left : ℕ → ℕ → ℕ
shift_left base shift = mul64 base (2 ^ shift)

unfoldable pub is_positive : ℕ → Bool
is_positive v = ltb 0 v && ltb v (2 ^ 63)

-- The delay before its jitter.
unfoldable pub capped : RetryPolicy → ℕ → ℕ
capped p retry =
    let v = shift_left p.base_delay (retry - 1) in
    if ltb (retry - 1) 32 && is_positive v && (eqb p.max_delay 0 || ltb v p.max_delay)
    then v
    else p.max_delay

-- `backoff`; `rand` stands for `rand.N`, whose result lies below its argument.
unfoldable pub backoff : (ℕ → ℕ) → RetryPolicy → ℕ → ℕ
backoff rand p retry =
    if eqb p.base_delay 0
    then 0
    else let d = capped p retry in if eqb d 0 then 0 else d / 2 + rand (d / 2 + 1)

abbrev is_retryable_status : Option StatusError → Bool
is_retryable_status none = false
is_retryable_status (some e) = retryable e

unfoldable pub attempt_limit : RetryPolicy → GoError → ℕ
attempt_limit p e =
    max
      (if ltb 0 p.max_status_attempts && is_retryable_status (as_status e)
        then p.max_status_attempts
        else p.max_attempts)
      1

abbrev hint : Option StatusError → ℕ
hint none = 0
hint (some e) = e.retry_after

unfoldable pub wait : (ℕ → ℕ) → RetryPolicy → ℕ → GoError → ℕ
wait rand p retry e =
    let d = backoff rand p retry in
    let after = hint (as_status e) in
    if ltb 0 p.max_retry_after && ltb 0 after then max d (min after p.max_retry_after) else d

-- What one round of the loop meets: what `fn` returns (`none` is nil), `ctx.Err()` and whether the
-- attempt's own deadline has passed when `runAttempt` looks, `ctx.Err()` when `Do` looks, and what
-- ends the wait: the context (`some`) or the timer.
pub record Attempt : Type 0 where
  pub returned : Option GoError
  pub ctx_in_attempt : Option Sentinel
  pub deadline_passed : Bool
  pub ctx_after : Option Sentinel
  pub ctx_done : Option Sentinel

-- `runAttempt`
unfoldable pub run_attempt : ℕ → Attempt → Option GoError
run_attempt timeout a = if eqb timeout 0 then a.returned else elim a.returned [
  | none ↦ none
  | some e ↦ elim a.ctx_in_attempt [
    | none ↦ if a.deadline_passed then some (both (sentinel attempt_timeout) e) else some e
    | some c ↦ some e
  ]
]

-- What the body of the loop does with a failed attempt before the wait.
pub data Decision : Type 0 where
  give_up : GoError → Decision
  try_again : Decision

unfoldable pub decide : RetryPolicy → ℕ → Attempt → GoError → Decision
decide p attempt a e = elim a.ctx_after [
  | some c ↦ if is e c then give_up (wrap e) else give_up (both (sentinel c) e)
  | none ↦
      if is_permanent e || (not (is e attempt_timeout) && not (is_retryable e))
      then give_up (wrap e)
      else if leb (attempt_limit p e) attempt
      then give_up (wrap e)
      else try_again
]

-- How a call of `Do` ends: its error (`none` is nil), the attempts made, and the waits begun.
pub record Finish : Type 0 where
  pub error : Option GoError
  pub attempts : ℕ
  pub waits : List ℕ

-- How one round ends: the call returns, or the loop goes on after another wait.
pub data Round : Type 0 where
  done : Finish → Round
  go_on : List ℕ → Round

module _ (p : RetryPolicy) (timeout : ℕ) (rand : ℕ → ℕ → ℕ) (env : ℕ → Attempt) where
  abbrev stop : Option GoError → ℕ → List ℕ → Round
  stop e attempt waits = done (record { error = e; attempts = attempt; waits = waits })

  -- The body of the loop in round `attempt`.
  unfoldable pub round : ℕ → List ℕ → Round
  unfolding decide
  round attempt waits = elim (run_attempt timeout (env attempt)) [
    | none ↦ stop none attempt waits
    | some e ↦ elim (decide p attempt (env attempt) e) [
      | give_up r ↦ stop (some r) attempt waits
      | try_again ↦
          let waits' = waits ++ wait (rand attempt) p attempt e ∷ [] in
          elim (env attempt).ctx_done [
            | none ↦ go_on waits'
            | some c ↦ stop (some (both (sentinel c) e)) attempt waits'
          ]
    ]
  ]

  -- The loop from round `attempt` on; `none` means that the fuel ran out.
  unfoldable pub loop : ℕ → ℕ → List ℕ → Option Finish
  loop zero attempt waits = none
  loop (suc fuel) attempt waits = elim (round attempt waits) [
    | done r ↦ some r
    | go_on waits' ↦ loop fuel (attempt + 1) waits'
  ]

  -- `Do`, with fuel for as many rounds as any attempt limit allows.
  unfoldable pub run : Option Finish
  run = loop (max (max p.max_attempts p.max_status_attempts) 1) 1 []
