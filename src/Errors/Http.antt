-- ===== src/Errors/Http.antt =====
-- The translations of errors at the gateway's edges: the HTTP status of an upstream to a sentinel
-- (internal/provider/openai/errors.go, internal/provider/anthropic/errors.go), and an error to
-- the client's response (internal/server/errmap.go).
pub mod Laws
use Prim.Native.String.{len, slice, ◌++◌ as str_append}
use x_beacon.Prelude.{
  ℕ, ◌≤◌, ◌<◌, ◌≡◌, Bool, true, false, ◌&&◌, ◌||◌, Option, none, some, String, ◌==◌, leb, ltb,
  str_eq, if◌then◌else◌,
}
use x_beacon.Prelude.Int.{ℤ, pos, ltz}
use x_beacon.Errors.{
  Sentinel, auth, rate_limited, context_length, invalid_request, upstream, unavailable, timeout,
  canceled, deadline_exceeded, UpstreamError, Err, upstream_error, new_upstream_error, is,
  as_upstream,
}

-- openai.mapStatusToSentinel
unfoldable pub map_status_to_sentinel : ℕ → String → Sentinel
map_status_to_sentinel status code =
    if status == 401 || status == 403
    then auth
    else if status == 429
    then rate_limited
    else if status == 400
    then (if str_eq code "context_length_exceeded" then context_length else invalid_request)
    else if status == 404 || status == 422
    then invalid_request
    else if status == 408
    then timeout
    else if status == 503
    then unavailable
    else if leb 500 status && ltb status 600
    then upstream
    else upstream

abbrev max_embedded_body_len : ℕ
max_embedded_body_len = 200

-- the message of the body, or the body itself, cut to a length in bytes
unfoldable pub embedded_message : String → String → String
embedded_message message body =
    if str_eq message ""
    then (if ltb max_embedded_body_len (len body)
        then str_append (slice body 0 max_embedded_body_len) "..."
        else body)
    else message

-- openai.mapHTTPError. The body is decoded by `encoding/json` outside: `code` and `message` are
-- what it found (empty on failure); `retry_after` is the parsed header.
unfoldable pub map_http_error : String → ℕ → String → String → String → ℤ → Err
unfolding map_status_to_sentinel new_upstream_error embedded_message
map_http_error provider_name status code message body retry_after =
    let sentinel = map_status_to_sentinel status code in
    let msg = embedded_message message body in
    let ue = new_upstream_error provider_name sentinel status msg in
    upstream_error (if status == 429 then record ue { retry_after = retry_after } else ue)

-- openai.mapRequestError, anthropic.mapRequestError; `text` is err.Error()
unfoldable pub map_request_error : String → Err → String → Err
unfolding is new_upstream_error
map_request_error provider_name e text =
    if is e canceled
    then e
    else if is e deadline_exceeded
    then upstream_error (new_upstream_error provider_name timeout 0 "request deadline exceeded")
    else upstream_error (new_upstream_error provider_name unavailable 0 text)

by_status : ℕ → Sentinel
by_status status =
    if status == 401 || status == 403
    then auth
    else if status == 429
    then rate_limited
    else if status == 400 || status == 404 || status == 422
    then invalid_request
    else if status == 408
    then timeout
    else if status == 503
    then unavailable
    else if status == 529
    then unavailable
    else if leb 500 status && ltb status 600
    then upstream
    else upstream

-- anthropic.mapToSentinel: the vendor's error type first, then the status
unfoldable pub map_to_sentinel : ℕ → String → Sentinel
unfolding by_status
map_to_sentinel status error_type =
    if str_eq error_type "authentication_error" || str_eq error_type "permission_error"
    then auth
    else if str_eq error_type "rate_limit_error"
    then rate_limited
    else if str_eq error_type "overloaded_error"
    then unavailable
    else if str_eq error_type "invalid_request_error" || str_eq error_type "not_found_error"
    then invalid_request
    else if str_eq error_type "request_too_large"
    then context_length
    else if str_eq error_type "api_error"
    then upstream
    else by_status status

-- anthropic.mapHTTPError
unfoldable pub map_vendor_error : String → ℕ → String → String → String → ℤ → Err
unfolding map_to_sentinel new_upstream_error embedded_message
map_vendor_error provider_name status error_type message body retry_after =
    let sentinel = map_to_sentinel status error_type in
    let msg = embedded_message message body in
    let ue = new_upstream_error provider_name sentinel status msg in
    upstream_error (
      if status == 429 || str_eq error_type "overloaded_error"
      then record ue { retry_after = retry_after }
      else ue)

pub record MappedError : Type 0 where
  pub status : ℕ
  pub type : String
  pub code : String
  pub message : String
  pub retry_after : ℕ  -- seconds, 0 = no header

unfoldable pub message_or_default : Err → String → String
unfolding as_upstream
message_or_default e fallback = elim (as_upstream e) [
  | none ↦ fallback
  | some u ↦ if str_eq u.message "" then fallback else u.message
]

unfoldable pub answer : ℕ → String → String → String → MappedError
answer status type code message = record {
  status = status;
  type = type;
  code = code;
  message = message;
  retry_after = 0;
}

-- What an upstream's 429 adds; `seconds` is `int(d.Seconds())`, a truncation in floating point.
rate_limit_answer : (ℤ → ℕ) → Option UpstreamError → MappedError
unfolding answer
rate_limit_answer seconds none = answer 429 "rate_limit_error" "" "Upstream rate limit exceeded"
rate_limit_answer seconds (some u) =
    record (answer 429 "rate_limit_error" ""
      (if str_eq u.message "" then "Upstream rate limit exceeded" else u.message)) {
        retry_after = if ltz (pos 0) u.retry_after then seconds u.retry_after else 0;
      }

unfoldable pub map_provider_error : (ℤ → ℕ) → Err → MappedError
unfolding is answer rate_limit_answer message_or_default
map_provider_error seconds e =
    if is e auth
    then answer 502 "upstream_error" "upstream_auth_failed"
        "Upstream provider rejected the gateway's credentials"
    else if is e rate_limited
    then rate_limit_answer seconds (as_upstream e)
    else if is e context_length
    then answer 400 "invalid_request_error" "context_length_exceeded"
        (message_or_default e "Request exceeds the model's context length")
    else if is e invalid_request
    then answer 400 "invalid_request_error" "" (message_or_default e "Invalid request")
    else if is e timeout
    then answer 504 "timeout_error" "" (message_or_default e "Upstream request timed out")
    else if is e unavailable
    then answer 503 "service_unavailable" ""
        (message_or_default e "Upstream provider is unavailable")
    else if is e upstream
    then answer 502 "upstream_error" "" (message_or_default e "Upstream provider returned an error")
    else answer 500 "internal_error" "" "Internal server error"
