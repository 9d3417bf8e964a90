-- ===== src/Errors/Http/Laws.antt =====
-- What the translations keep: which failures may be retried, and what the client is told.
use x_beacon.Prelude.{
  ap, ℕ, ◌≡◌, refl, Bool, true, false, ◌||◌, not, Option, none, some, String, arith, ◌==◌,
  if◌then◌else◌, str_eq, inl, inr, str_eq_iff, Bool-cases, ◌∙◌,
}
use x_beacon.Prelude.Int.{ℤ}
use x_beacon.Errors.{
  Sentinel, auth, rate_limited, context_length, invalid_request, upstream, unavailable, timeout,
  canceled, Err, bare, upstream_error, wrapped, other, is, new_upstream_error, is_retryable,
  is_breaker_error,
}
use x_beacon.Errors.Http.{
  map_http_error, map_request_error, map_to_sentinel, map_vendor_error, map_provider_error,
}

-- the statuses that blame the request or its credentials
abbrev is_final_status : ℕ → Bool
is_final_status s = s == 400 || s == 401 || s == 403 || s == 404 || s == 422

-- An answer of an OpenAI-style upstream may be retried unless its status is one of 400, 401, 403,
-- 404 and 422, whatever the body and the headers say.
map_http_error_retryable :
    (name : String) (status : ℕ) (code message raw : String) (retry_after : ℤ)
    → is_retryable (map_http_error name status code message raw retry_after)
      ≡ not (is_final_status status)
unfolding is_retryable map_http_error
map_http_error_retryable name status code message raw retry_after = ground arith

-- A failed connection may be retried, unless its error is (or wraps) `context.Canceled`; that one
-- is handed on unchanged.
pub map_request_error_lem :
    (name : String) (e : Err) (text : String)
    → (is e canceled ≡ true → map_request_error name e text ≡ e)
      × (is e canceled ≡ false → is_retryable (map_request_error name e text) ≡ true)
unfolding is_retryable map_request_error
map_request_error_lem name e text = (λ h. rw h, λ h. ground arith)

-- the vendor's own words for a failure that is not the request's fault
abbrev is_transient_type : String → Bool
is_transient_type t =
    str_eq t "rate_limit_error" || str_eq t "overloaded_error" || str_eq t "api_error"

abbrev is_known_type : String → Bool
is_known_type t =
    str_eq t "authentication_error"
    || str_eq t "permission_error"
    || str_eq t "invalid_request_error"
    || str_eq t "not_found_error"
    || str_eq t "request_too_large"
    || is_transient_type t

known_type_retryable :
    (status : ℕ) (t : String)
    → is_retryable (bare (map_to_sentinel status t))
      ≡ (if is_known_type t then is_transient_type t else not (is_final_status status))
unfolding is_retryable map_to_sentinel
known_type_retryable status t = elim (Bool-cases (str_eq t "authentication_error")) [
  | inl e ↦ rw ((str_eq_iff t "authentication_error").0 e)
  | inr h0 ↦ elim (Bool-cases (str_eq t "permission_error")) [
    | inl e ↦ rw ((str_eq_iff t "permission_error").0 e)
    | inr h1 ↦ elim (Bool-cases (str_eq t "rate_limit_error")) [
      | inl e ↦ rw ((str_eq_iff t "rate_limit_error").0 e)
      | inr h2 ↦ elim (Bool-cases (str_eq t "overloaded_error")) [
        | inl e ↦ rw ((str_eq_iff t "overloaded_error").0 e)
        | inr h3 ↦ elim (Bool-cases (str_eq t "invalid_request_error")) [
          | inl e ↦ rw ((str_eq_iff t "invalid_request_error").0 e)
          | inr h4 ↦ elim (Bool-cases (str_eq t "not_found_error")) [
            | inl e ↦ rw ((str_eq_iff t "not_found_error").0 e)
            | inr h5 ↦ elim (Bool-cases (str_eq t "request_too_large")) [
              | inl e ↦ rw ((str_eq_iff t "request_too_large").0 e)
              | inr h6 ↦ elim (Bool-cases (str_eq t "api_error")) [
                | inl e ↦ rw ((str_eq_iff t "api_error").0 e)
                | inr h7 ↦ rw (h0, h1, h2, h3, h4, h5, h6, h7) (ground arith)
              ]
            ]
          ]
        ]
      ]
    ]
  ]
]

vendor_sentinel :
    (name : String) (status : ℕ) (error_type message body : String) (retry_after : ℤ)
    → is_retryable (map_vendor_error name status error_type message body retry_after)
      ≡ is_retryable (bare (map_to_sentinel status error_type))
unfolding is_retryable is map_vendor_error new_upstream_error
vendor_sentinel name status t message body retry_after =
    elim (Bool-cases (status == 429 || str_eq t "overloaded_error")) [ inl h ↦ rw h | inr h ↦ rw h ]

-- For an Anthropic-style upstream a known error type decides alone whether the call may be
-- retried, whatever the status; with an unknown type the status decides as for OpenAI.
pub map_vendor_error_retryable :
    (name : String) (status : ℕ) (error_type message body : String) (retry_after : ℤ)
    → is_retryable (map_vendor_error name status error_type message body retry_after) ≡ (
        if is_known_type error_type
        then is_transient_type error_type
        else not (is_final_status status))
map_vendor_error_retryable name status t message body retry_after =
    vendor_sentinel name status t message body retry_after ∙ known_type_retryable status t

-- the sentinel at the root of an error
abbrev root : Err → Option Sentinel
root (bare s) = some s
root (upstream_error u) = some u.sentinel
root (wrapped m e) = root e
root (other m) = none

abbrev client_status : Option Sentinel → ℕ
client_status (some auth) = 502
client_status (some rate_limited) = 429
client_status (some context_length) = 400
client_status (some invalid_request) = 400
client_status (some upstream) = 502
client_status (some unavailable) = 503
client_status (some timeout) = 504
client_status _ = 500

-- The status that the client sees is fixed by the sentinel at the root of the error, however the
-- error was wrapped; every error without a provider sentinel is a 500.
map_provider_error-status :
    (seconds : ℤ → ℕ) (e : Err) → (map_provider_error seconds e).status ≡ client_status (root e)
unfolding map_provider_error
map_provider_error-status seconds (bare auth) = refl
map_provider_error-status seconds (bare s) = ground arith
map_provider_error-status seconds (upstream_error u) = ground arith
map_provider_error-status seconds (wrapped m e) = map_provider_error-status seconds e
map_provider_error-status seconds (other m) = refl

client_status_error : (o : Option Sentinel) → (client_status o == 200) ≡ false
client_status_error none = refl
client_status_error (some auth) = refl
client_status_error (some s) = ground arith

-- no error is answered with a 200
pub map_provider_error-failure :
    (seconds : ℤ → ℕ) (e : Err) → ((map_provider_error seconds e).status == 200) ≡ false
map_provider_error-failure seconds e =
    ap (λ n. n == 200) (map_provider_error-status seconds e) ∙ client_status_error (root e)

-- A rejection by an open circuit breaker is answered as an internal error with status 500, without
-- a Retry-After header, and so is never told apart from a fault of the gateway.
pub breaker_answered_500 :
    (seconds : ℤ → ℕ) (e : Err)
    → is_breaker_error e ≡ true
    → ((map_provider_error seconds e).status ≡ 500)
      × ((map_provider_error seconds e).type ≡ "internal_error")
      × ((map_provider_error seconds e).retry_after ≡ 0)
unfolding map_provider_error is_breaker_error
breaker_answered_500 seconds (bare auth) h = cc
breaker_answered_500 seconds (bare s) h = ground arith
breaker_answered_500 seconds (upstream_error u) h = ground arith
breaker_answered_500 seconds (wrapped m e) h = breaker_answered_500 seconds e h
breaker_answered_500 seconds (other m) h = cc
