-- ===== src/Retry/Loop.antt =====
-- `RetryPolicy.Do` ends, within its attempt budget, and retries only what may be retried.
use t_sync_sdk_go.Base.{
  ℕ, zero, suc, ◌+◌, ◌≤◌, ◌<◌, max, ◌≡◌, refl, ◌||◌, true, false, none, some, List, [], ◌∷◌, ◌++◌,
  arith, length, length-append, ◌⊎◌, subst, Option-cases, inl, inr,
}
use native.Mathlib.Decide.{dec_lt}
use t_sync_sdk_go.Errors.{attempt_timeout, GoError, is, is_permanent, is_retryable}
use t_sync_sdk_go.Retry.{
  RetryPolicy, Attempt, run_attempt, attempt_limit, wait, Finish, Round, done, go_on, round, loop,
  run,
}
use t_sync_sdk_go.Retry.Bounds.{attempt_limit-le}

-- The failure that the loop goes on from: the context is live, the error is not marked permanent,
-- it is an attempt timeout or retryable, and the attempt is below the limit for its class.
pub record IsRetried (p : RetryPolicy) (timeout : ℕ) (env : ℕ → Attempt) (n : ℕ) (e : GoError)
    : Type 0 where
  pub failed : run_attempt timeout (env n) ≡ some e
  pub live : (env n).ctx_after ≡ none
  pub not_permanent : is_permanent e ≡ false
  pub may_retry : (is e attempt_timeout || is_retryable e) ≡ true
  pub below_limit : n < attempt_limit p e

Round-cases : (x : Round) → ((r : Finish) × (x ≡ done r)) ⊎ ((w : List ℕ) × (x ≡ go_on w))
Round-cases (done r) = inl (r, refl)
Round-cases (go_on w) = inr (w, refl)

module _ (p : RetryPolicy) (timeout : ℕ) (rand : ℕ → ℕ → ℕ) (env : ℕ → Attempt) where
  abbrev budget : ℕ
  budget = max (max p.max_attempts p.max_status_attempts) 1

  -- What a finished call tells of its last round.
  abbrev Ends : Finish → Type 0
  Ends r =
      (r.error ≡ none → run_attempt timeout (env r.attempts) ≡ none)
      × (run_attempt timeout (env r.attempts) ≡ none → r.error ≡ none)

  round-go_on :
      (n : ℕ) (waits more : List ℕ)
      → round p timeout rand env n waits ≡ go_on more
      → (e : GoError) × (IsRetried p timeout env n e)
        × (more ≡ waits ++ wait (rand n) p n e ∷ [])
        × (n < budget)
  unfolding round
  round-go_on n waits more h = elim (Option-cases (run_attempt timeout (env n))) [
    | inl f ↦ absurd (ground arith)
    | inr (e, f) ↦ (
      e,
      record {
        failed = f;
        live = ground arith;
        not_permanent = ground arith;
        may_retry = ground arith;
        below_limit = ground arith;
      },
      ground arith,
      ground (arith, attempt_limit-le p e),
    )
  ]

  round-done :
      (n : ℕ) (waits : List ℕ) (r : Finish)
      → round p timeout rand env n waits ≡ done r
      → (r.attempts ≡ n)
        × (length waits ≤ length r.waits)
        × (length r.waits ≤ length waits + 1)
        × Ends r
  unfolding round
  round-done n waits r h =
      let more = λ (e : GoError). length-append waits (wait (rand n) p n e ∷ []) in
      elim (Option-cases (run_attempt timeout (env n))) [
        | inl f ↦ (ground arith, ground arith, ground arith, ground arith)
        | inr (e, f) ↦ (ground arith, ground (arith, more e), ground (arith, more e), ground arith)
      ]

  -- What is known of a call that is in round `n` and finishes with `r`.
  pub record Finishes (n : ℕ) (waits : List ℕ) (r : Finish) : Type 0 where
    pub not_before : n ≤ r.attempts
    pub in_budget : n ≤ budget → r.attempts ≤ budget
    pub retried : (m : ℕ) → n ≤ m → m < r.attempts → (e : GoError) × (IsRetried p timeout env m e)
    pub waits_ge : r.attempts + length waits ≤ length r.waits + n
    pub waits_le : length r.waits + n ≤ r.attempts + length waits + 1
    pub ends : Ends r

  Finishes-step :
      (n : ℕ) (waits : List ℕ) (e : GoError) (r : Finish)
      → IsRetried p timeout env n e
      → n < budget
      → Finishes (n + 1) (waits ++ wait (rand n) p n e ∷ []) r
      → Finishes n waits r
  Finishes-step n waits e r t b f =
      let more = length-append waits (wait (rand n) p n e ∷ []) in
      record {
        not_before = omega arith;
        in_budget = λ _. f.in_budget (omega arith);
        retried = λ m lo hi. elim (dec_lt n m) [
          | yes later ↦ f.retried m (omega arith) hi
          | no now ↦
              let same : n ≡ m = omega arith in
              subst (λ k. (e : GoError) × (IsRetried p timeout env k e)) same (e, t)
        ];
        waits_ge = omega (arith, more);
        waits_le = omega (arith, more);
        ends = f.ends;
      }

  loop-Finishes :
      (fuel n : ℕ) (waits : List ℕ)
      → budget < n + fuel
      → n ≤ budget
      → (r : Finish) × (loop p timeout rand env fuel n waits ≡ some r) × (Finishes n waits r)
  unfolding loop
  loop-Finishes zero n waits h b = absurd (omega arith)
  loop-Finishes (suc fuel) n waits h b = elim (Round-cases (round p timeout rand env n waits)) [
    | inl (r, d) ↦
        let (at, ge, le, ends) = round-done n waits r d in
        (
          r,
          rw (d, loop),
          record {
            not_before = omega arith;
            in_budget = λ _. omega arith;
            retried = λ m lo hi. absurd (omega arith);
            waits_ge = omega arith;
            waits_le = omega arith;
            ends = ends;
          },
        )
    | inr (more, g) ↦
        let (e, t, same, b') = round-go_on n waits more g in
        let (r, l, f) = loop-Finishes fuel (n + 1) more (omega arith) (omega arith) in
        (
          r,
          rw (g, loop) l,
          Finishes-step n waits e r t b' (subst (λ w. Finishes (n + 1) w r) same f),
        )
  ]

-- Whatever the attempts meet, `Do` returns: it makes at least one attempt and at most as many as
-- the largest attempt limit. Every attempt before the last failed under a live context, with an
-- error that is not permanent and is an attempt timeout or retryable, below the limit for its
-- class. It returns nil exactly when its last attempt does, and it begins one wait for each further attempt, plus
-- at most one that the context cuts short.
pub run_retries :
    (p : RetryPolicy) (timeout : ℕ) (rand : ℕ → ℕ → ℕ) (env : ℕ → Attempt)
    → (r : Finish) × (run p timeout rand env ≡ some r)
      × (1 ≤ r.attempts)
      × (r.attempts ≤ max (max p.max_attempts p.max_status_attempts) 1)
      × ((m : ℕ) → 1 ≤ m → m < r.attempts → (e : GoError) × (IsRetried p timeout env m e))
      × (r.error ≡ none → run_attempt timeout (env r.attempts) ≡ none)
      × (run_attempt timeout (env r.attempts) ≡ none → r.error ≡ none)
      × (r.attempts ≤ length r.waits + 1)
      × (length r.waits ≤ r.attempts)
unfolding run
run_retries p timeout rand env =
    let (r, l, f) =
      loop-Finishes p timeout rand env (max (max p.max_attempts p.max_status_attempts) 1) 1 []
        (omega arith) (omega arith) in
    (
      r,
      l,
      f.not_before,
      f.in_budget (omega arith),
      f.retried,
      f.ends.0,
      f.ends.1,
      omega (arith, f.waits_ge),
      omega (arith, f.waits_le),
    )
