-- ===== src/Errors.antt =====
-- The errors that cross the gateway: internal/provider/errors.go, with the sentinels of the
-- circuit breaker, of the registry and of `context` that the router tells apart.
-- `errors.Is` and `errors.As` walk the chain of wrapped errors, as here.
pub mod Http
use x_beacon.Prelude.{
  ℕ, ◌≡◌, refl, Bool, true, false, ◌||◌, Option, none, some, String, arith, ◌==◌, if◌then◌else◌,
}
use x_beacon.Prelude.Int.{ℤ, pos}

pub data Sentinel : Type 0 where
  auth rate_limited context_length invalid_request upstream unavailable timeout : Sentinel
  open_state too_many_requests no_provider_for_model canceled deadline_exceeded : Sentinel

sentinel_code : Sentinel → ℕ
sentinel_code auth = 0
sentinel_code rate_limited = 1
sentinel_code context_length = 2
sentinel_code invalid_request = 3
sentinel_code upstream = 4
sentinel_code unavailable = 5
sentinel_code timeout = 6
sentinel_code open_state = 7
sentinel_code too_many_requests = 8
sentinel_code no_provider_for_model = 9
sentinel_code canceled = 10
sentinel_code deadline_exceeded = 11

pub record UpstreamError : Type 0 where
  pub provider : String
  pub status_code : ℕ
  pub retry_after : ℤ  -- nanoseconds, int64
  pub message : String
  pub sentinel : Sentinel

pub data Err : Type 0 where
  bare : Sentinel → Err  -- a sentinel itself
  upstream_error : UpstreamError → Err  -- *UpstreamError
  wrapped : String → Err → Err  -- fmt.Errorf("…%w…")
  other : String → Err  -- any error without a sentinel

unfoldable pub new_upstream_error : String → Sentinel → ℕ → String → UpstreamError
new_upstream_error provider_name sentinel status message = record {
  provider = provider_name;
  status_code = status;
  retry_after = pos 0;
  message = message;
  sentinel = sentinel;
}

-- errors.Is(err, target), for a target that is a sentinel
unfoldable pub is : Err → Sentinel → Bool
unfolding sentinel_code
is (bare s) t = sentinel_code s == sentinel_code t
is (upstream_error u) t = sentinel_code u.sentinel == sentinel_code t
is (wrapped m e) t = is e t
is (other m) t = false

-- errors.As(err, &ue)
unfoldable pub as_upstream : Err → Option UpstreamError
as_upstream (bare s) = none
as_upstream (upstream_error u) = some u
as_upstream (wrapped m e) = as_upstream e
as_upstream (other m) = none

unfoldable pub is_retryable : Err → Bool
unfolding is
is_retryable e = is e rate_limited || is e upstream || is e unavailable || is e timeout

-- router/breaker.go
unfoldable pub is_breaker_error : Err → Bool
unfolding is
is_breaker_error e = is e open_state || is e too_many_requests

-- router/breaker.go: what the breaker is told of a failed call
unfoldable pub breaker_observation : Option Err → Option Err
breaker_observation none = none
breaker_observation (some e) = if is_retryable e then some e else none

-- router/router.go
unfoldable pub extract_retry_after : Err → ℤ
unfolding as_upstream
extract_retry_after e = elim (as_upstream e) [ none ↦ pos 0 | some u ↦ u.retry_after ]

-- No error is both a rejection by the breaker and a retryable failure of the upstream.
pub breaker-not-retryable : (e : Err) → is_breaker_error e ≡ true → is_retryable e ≡ false
unfolding is_retryable is_breaker_error
breaker-not-retryable (bare auth) h = ground arith
breaker-not-retryable (bare s) h = ground arith
breaker-not-retryable (upstream_error u) h = ground arith
breaker-not-retryable (wrapped m e) h = breaker-not-retryable e h
breaker-not-retryable (other m) h = refl
