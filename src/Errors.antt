-- ===== src/Errors.antt =====
-- The error values of storage_clients/errors.go and tsync/errors.go, and Go's `errors.Is` and
-- `errors.As` on chains of wrapped errors.
pub mod Classify
mod Tests
use t_sync_sdk_go.Base.{
  ℕ, ◌≡◌, refl, ◌⊎◌, inl, inr, Bool, true, false, ◌&&◌, ◌||◌, not, Option, none, some, arith, Eq,
  ◌==◌, if◌then◌else◌, eqb, leb,
}

-- The values of `errors.New`, which Go compares by identity: the SDK's and those of `context` and
-- `io` and the zip library that the SDK tests for.
pub data Sentinel : Type 0 where
  not_found upload_not_found unsupported_provider invalid_config : Sentinel
  invalid_range invalid_response attempt_timeout : Sentinel
  timestamp_equals_latest timestamp_before_latest timestamp_in_future : Sentinel
  version_id_exists version_not_found : Sentinel
  store_not_initialized corrupt_metadata unsupported_schema : Sentinel
  invalid_options key_not_found invalid_name path_collision unsafe_path : Sentinel
  private_key_required decryption_failed corrupt_part source_changed : Sentinel
  not_zip corrupt_zip unsupported_encryption unsupported_method : Sentinel
  insufficient_disk_space writer_closed incomplete_run : Sentinel
  canceled deadline_exceeded zip_password zip_checksum eof unexpected_eof file_not_exist : Sentinel

unfoldable pub Sentinel-discrete : Discrete Sentinel
Sentinel-discrete = hlevel

instance abbrev pub sentinel_eq : Eq Sentinel
sentinel_eq = record { dec = Sentinel-discrete }

-- `StatusError` without its texts. The hint is 0 where the server sent none.
pub record StatusError : Type 0 where
  pub status_code : ℕ
  pub retry_after : ℕ

mutual
  pub data GoError : Type 0 where
    sentinel : Sentinel → GoError
    -- A `StatusError` whose `Err` is nil, and one with an underlying error.
    status : StatusError → GoError
    status_of : StatusError → GoError → GoError
    permanent : GoError → GoError
    -- `UnsupportedSchemaError`
    schema : ℕ → GoError
    -- `fmt.Errorf` with one `%w`; with several, or `errors.Join`; with none.
    wrap : GoError → GoError
    several : GoErrors → GoError
    plain : GoError
    -- An error of another package, with the sentinels that its `Is` method answers to.
    foreign : (Sentinel → Bool) → GoError

  pub data GoErrors : Type 0 where
    nil : GoErrors
    cons : GoError → GoErrors → GoErrors

-- `fmt.Errorf("%w: … %w", a, b)`, and `errors.Join(a, b)` of two errors.
abbrev pub both : GoError → GoError → GoError
both a b = several (cons a (cons b nil))

-- `StatusError.Is`
unfoldable pub status_is : StatusError → Sentinel → Bool
status_is e target = target == not_found && eqb e.status_code 404

-- `errors.Is`: the error itself, its `Is` method, then what it unwraps to.
unfoldable mutual
  pub is : GoError → Sentinel → Bool
  is (sentinel s) target = s == target
  is (status e) target = status_is e target
  is (status_of e cause) target = status_is e target || is cause target
  is (permanent cause) target = is cause target
  is (schema version) target = target == unsupported_schema
  is (wrap cause) target = is cause target
  is (several causes) target = any_is causes target
  is plain target = false
  is (foreign answers) target = answers target

  pub any_is : GoErrors → Sentinel → Bool
  any_is nil target = false
  any_is (cons e causes) target = is e target || any_is causes target

-- `errors.As` into a `*StatusError`: the first of the chain, depth first.
abbrev or_else : Option StatusError → Option StatusError → Option StatusError
or_else none b = b
or_else (some a) b = some a

unfoldable mutual
  pub as_status : GoError → Option StatusError
  as_status (sentinel s) = none
  as_status (status e) = some e
  as_status (status_of e cause) = some e
  as_status (permanent cause) = as_status cause
  as_status (schema version) = none
  as_status (wrap cause) = as_status cause
  as_status (several causes) = any_as_status causes
  as_status plain = none
  as_status (foreign answers) = none

  pub any_as_status : GoErrors → Option StatusError
  any_as_status nil = none
  any_as_status (cons e causes) = or_else (as_status e) (any_as_status causes)

-- `isPermanent`: `errors.As` into a `*permanentError`.
unfoldable mutual
  pub is_permanent : GoError → Bool
  is_permanent (sentinel s) = false
  is_permanent (status e) = false
  is_permanent (status_of e cause) = is_permanent cause
  is_permanent (permanent cause) = true
  is_permanent (schema version) = false
  is_permanent (wrap cause) = is_permanent cause
  is_permanent (several causes) = any_is_permanent causes
  is_permanent plain = false
  is_permanent (foreign answers) = false

  pub any_is_permanent : GoErrors → Bool
  any_is_permanent nil = false
  any_is_permanent (cons e causes) = is_permanent e || any_is_permanent causes

-- `chainHasContextSentinel`: by identity, so a foreign error's `Is` method does not count.
unfoldable mutual
  pub chain_has_context_sentinel : GoError → Bool
  chain_has_context_sentinel (sentinel s) = s == canceled || s == deadline_exceeded
  chain_has_context_sentinel (status e) = false
  chain_has_context_sentinel (status_of e cause) = chain_has_context_sentinel cause
  chain_has_context_sentinel (permanent cause) = chain_has_context_sentinel cause
  chain_has_context_sentinel (schema version) = false
  chain_has_context_sentinel (wrap cause) = chain_has_context_sentinel cause
  chain_has_context_sentinel (several causes) = any_has_context_sentinel causes
  chain_has_context_sentinel plain = false
  chain_has_context_sentinel (foreign answers) = false

  pub any_has_context_sentinel : GoErrors → Bool
  any_has_context_sentinel nil = false
  any_has_context_sentinel (cons e causes) =
      chain_has_context_sentinel e || any_has_context_sentinel causes

-- `StatusError.Retryable`
unfoldable pub retryable : StatusError → Bool
retryable e = eqb e.status_code 408 || eqb e.status_code 429 || leb 500 e.status_code

abbrev retryable_status : Option StatusError → Bool
retryable_status none = true
retryable_status (some e) = retryable e

-- `IsRetryable` of an error that is not nil.
unfoldable pub is_retryable : GoError → Bool
unfolding retryable
is_retryable e =
    if chain_has_context_sentinel e
    then false
    else if is e not_found || is e upload_not_found || is e invalid_range || is e invalid_config
    then false
    else retryable_status (as_status e)

-- A result of a Go function that returns a value or an error.
pub data Result {ℓ} (A : Type ℓ) : Type ℓ where
  ok : A → Result A
  err : GoError → Result A

-- To split on a result and keep the equation.
pub Result-cases {ℓ} :
    {A : Type ℓ} (r : Result A) → ((a : A) × (r ≡ ok a)) ⊎ ((e : GoError) × (r ≡ err e))
Result-cases (ok a) = inl (a, refl)
Result-cases (err e) = inr (e, refl)

-- `if test { return e }`
abbrev pub fail_if : Bool → GoError → Result (Unit {0})
fail_if false e = ok tt
fail_if true e = err e

infixl 5 ◌>>◌
-- The statement after a check.
abbrev pub ◌>>◌ {ℓ} : {B : Type ℓ} → Result (Unit {0}) → Result B → Result B
err failure >> rest = err failure
ok _ >> rest = rest

infixl 5 ◌>>=◌
-- `if err != nil { return err }` after a call, and what comes after it.
abbrev pub ◌>>=◌ {ℓ κ} : {A : Type ℓ} {B : Type κ} → Result A → (A → Result B) → Result B
err failure >>= rest = err failure
ok value >>= rest = rest value

module _ {ℓ κ} {A : Type ℓ} {B : Type κ} where
  -- What has returned when a call and what comes after it have.
  pub bind_ok :
      (r : Result A) (rest : A → Result B) (b : B)
      → (r >>= rest) ≡ ok b
      → (a : A) × (r ≡ ok a) × (rest a ≡ ok b)
  bind_ok (ok a) rest b h = (a, refl, h)
  bind_ok (err e) rest b h = absurd (ground arith)
