-- ===== src/Errors/Tests.antt =====
-- Tests of the error values.
use t_sync_sdk_go.Base.{◌≡◌, refl, true, false}
use t_sync_sdk_go.Errors.{
  GoError, nil, sentinel, status, wrap, permanent, canceled, is_retryable, is, status_is, as_status,
  chain_has_context_sentinel, retryable, both, Sentinel-discrete,
}
use t_sync_sdk_go.Errors.Classify.{
  itself, under_wrap, first, later, under_permanent, is_canceled, is_retryable-Wraps,
}

abbrev unavailable : GoError
unavailable = status (record { status_code = 503; retry_after = 0 })

abbrev missing : GoError
missing = wrap (status (record { status_code = 404; retry_after = 0 }))

-- A cancellation beside a server error, under two layers.
abbrev canceled_upload : GoError
canceled_upload = wrap (both unavailable (permanent (sentinel canceled)))

unavailable_retries : is_retryable unavailable ≡ true
unfolding is_retryable is status_is as_status chain_has_context_sentinel retryable Sentinel-discrete
unavailable_retries = refl

missing_is_final : is_retryable missing ≡ false
unfolding is_retryable is status_is as_status chain_has_context_sentinel retryable Sentinel-discrete
missing_is_final = refl

is_retryable-Wraps_example : is_retryable canceled_upload ≡ false
is_retryable-Wraps_example =
    is_retryable-Wraps {s = canceled} {e = canceled_upload} is_canceled
      (under_wrap (later unavailable (first nil (under_permanent itself))))
