-- ===== src/Errors/Classify.antt =====
-- What `errors.Is` finds in a chain, and what `IsRetryable` refuses.
use t_sync_sdk_go.Base.{◌≡◌, refl, ◌⊎◌, inl, inr, Bool, true, false, ◌||◌, arith}
use t_sync_sdk_go.Errors.{
  Sentinel, not_found, upload_not_found, invalid_range, invalid_config, canceled, deadline_exceeded,
  sentinel_eq, GoError, GoErrors, StatusError, sentinel, status_of, permanent, wrap, several, cons,
  is, any_is, chain_has_context_sentinel, any_has_context_sentinel, is_retryable, status_is,
}

-- An error that wraps a sentinel somewhere in its chain: `%w` of it, at any depth, on any branch.
pub data Wraps (s : Sentinel) : GoError → Type 0 where
  itself : Wraps s (sentinel s)
  under_wrap : {e : GoError} → Wraps s e → Wraps s (wrap e)
  under_status : (t : StatusError) {e : GoError} → Wraps s e → Wraps s (status_of t e)
  under_permanent : {e : GoError} → Wraps s e → Wraps s (permanent e)
  first : {e : GoError} (es : GoErrors) → Wraps s e → Wraps s (several (cons e es))
  later : (e : GoError) {es : GoErrors} → Wraps s (several es) → Wraps s (several (cons e es))

or_intro_r : (a b : Bool) → b ≡ true → (a || b) ≡ true
or_intro_r a b h = ground arith

pub is-Wraps : {s : Sentinel} {e : GoError} → Wraps s e → is e s ≡ true
unfolding is
is-Wraps {s} itself = ground arith
is-Wraps (under_wrap w) = is-Wraps w
is-Wraps {s} (under_status t {e} w) = or_intro_r (status_is t s) (is e s) (is-Wraps w)
is-Wraps (under_permanent w) = is-Wraps w
is-Wraps {s} (first {e} es w) = ground (arith, is-Wraps w)
is-Wraps {s} (later e {es} w) = or_intro_r (is e s) (any_is es s) (is-Wraps w)

chain-Wraps :
    {s : Sentinel} {e : GoError}
    → Wraps s e
    → (s ≡ canceled) ⊎ (s ≡ deadline_exceeded)
    → chain_has_context_sentinel e ≡ true
unfolding chain_has_context_sentinel
chain-Wraps {s} itself h = ground arith
chain-Wraps (under_wrap w) h = chain-Wraps w h
chain-Wraps (under_status t w) h = chain-Wraps w h
chain-Wraps (under_permanent w) h = chain-Wraps w h
chain-Wraps (first {e} es w) h = ground (arith, chain-Wraps w h)
chain-Wraps (later e {es} w) h =
    or_intro_r (chain_has_context_sentinel e) (any_has_context_sentinel es) (chain-Wraps w h)

-- The sentinels that no retry helps with.
pub data IsFinal : Sentinel → Type 0 where
  is_not_found : IsFinal not_found
  is_upload_not_found : IsFinal upload_not_found
  is_invalid_range : IsFinal invalid_range
  is_invalid_config : IsFinal invalid_config
  is_canceled : IsFinal canceled
  is_deadline : IsFinal deadline_exceeded

-- An error that wraps, at any depth and through any mix of single, multiple, status and permanent
-- wrapping, one of ErrNotFound, ErrUploadNotFound, ErrInvalidRange, ErrInvalidConfig or a context
-- sentinel is not retryable.
pub is_retryable-Wraps :
    {s : Sentinel} {e : GoError} → IsFinal s → Wraps s e → is_retryable e ≡ false
unfolding is_retryable
is_retryable-Wraps is_not_found w = ground (arith, is-Wraps w)
is_retryable-Wraps is_upload_not_found w = ground (arith, is-Wraps w)
is_retryable-Wraps is_invalid_range w = ground (arith, is-Wraps w)
is_retryable-Wraps is_invalid_config w = ground (arith, is-Wraps w)
is_retryable-Wraps is_canceled w = ground (arith, chain-Wraps w (inl refl))
is_retryable-Wraps is_deadline w = ground (arith, chain-Wraps w (inr refl))
