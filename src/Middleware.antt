-- ===== src/Middleware.antt =====
-- internal/server/middleware: who may call, and how often. The handlers behind are functions from
-- the principal to what they do.
pub mod Guards
use Prim.Native.String.{len, slice}
use Prim.Native.String.{◌++◌ as append}
use x_beacon.Prelude.{
  ℕ, ◌+◌, ◌/◌, ◌%◌, ◌≡◌, Bool, true, false, ◌||◌, not, ◌==◌, Result, ok, err, Option, none, some,
  String, List, [], ◌∷◌, ◌++◌, ltb, leb, str_eq, if◌then◌else◌,
}
use x_beacon.Prelude.Int.{ℤ, pos, negsuc, ltz, lez}
use x_beacon.Errors.{Err}
use x_beacon.Errors.Http.{MappedError, answer}
use x_beacon.Auth.{AuthError, missing_credentials, wrapped_auth, is_invalid, Principal, has_scope}
use x_beacon.RateLimit as Limit
use x_beacon.Chat.Effects.{Effect, header, retry_after, error_reply, Out, first}

-- what the middleware needs of the standard library
pub record Library : Type 0 where
  pub equal_fold : String → String → Bool
  pub trim_space : String → String
  pub decimal : ℤ → String  -- strconv.Itoa
  pub unix_seconds : ℤ → ℤ  -- a time, which is 0 where it is not set
  pub limit_message : Limit.Decision → String
  pub bytes : String → Limit.Bytes

-- the two headers with a credential
pub record Headers : Type 0 where
  pub authorization : String
  pub x_api_key : String

abbrev pub Handler : Type 0 → Type 0
Handler W = Option Principal → W → Out W

-- errors.Is(err, ErrMissingCredentials)
unfoldable pub is_missing : AuthError → Bool
is_missing missing_credentials = true
is_missing (wrapped_auth s e) = is_missing e
is_missing _ = false

abbrev auth_refusal : ℕ → String → String → MappedError
auth_refusal status code message = answer status "authentication_error" code message

-- what Auth answers to an error of the authenticator
unfoldable pub map_auth_error : AuthError → MappedError
unfolding is_missing
map_auth_error e =
    if is_missing e
    then auth_refusal 401 "missing_credentials"
        "Missing Authorization header (expected: Bearer <key>)"
    else if is_invalid e
    then auth_refusal 401 "invalid_credentials" "Invalid API key"
    else auth_refusal 500 "internal_error" "Authentication backend error"

nonblank : String → Option String
nonblank s = if str_eq s "" then none else some s

key_id : Option Principal → String
key_id none = ""
key_id (some p) = p.id

-- retryAfterSeconds
unfoldable pub retry_after_seconds : ℤ → ℤ
retry_after_seconds (negsuc n) = pos 0
retry_after_seconds (pos n) =
    let s = n / 1_000_000_000 in
    let rounded = if ltb 0 (n % 1_000_000_000) then s + 1 else s in
    if n == 0 then pos 0 else pos (if ltb rounded 1 then 1 else rounded)

module _ (go : Library) where
  unfoldable pub bearer_token : String → Option String
  unfolding nonblank
  bearer_token value =
      if leb (len value) 7
      then none
      else if not (go.equal_fold (slice value 0 7) "bearer ")
      then none
      else nonblank (go.trim_space (slice value 7 (len value)))

  -- credentialFrom
  unfoldable pub credential_from : Headers → Option String
  unfolding bearer_token nonblank
  credential_from h = elim (bearer_token h.authorization) [
    | some key ↦ some key
    | none ↦ nonblank (go.trim_space h.x_api_key)
  ]

  -- buildKeyContext
  unfoldable pub build_key_context : Option Principal → Limit.KeyContext
  unfolding key_id
  build_key_context p = record { api_key_id = go.bytes (key_id p); model = [] }

  -- writeRateLimitHeaders
  unfoldable pub limit_headers : Limit.Decision → List Effect
  limit_headers d =
      (if ltz (pos 0) (Limit.Decision.limit d)
        then header "X-RateLimit-Limit" (go.decimal (Limit.Decision.limit d))
          ∷ header "X-RateLimit-Remaining" (go.decimal (Limit.Decision.remaining d))
          ∷ []
        else [])
      ++ (elim (Limit.Decision.reset d) [
        | pos n ↦
            if n == 0
            then []
            else header "X-RateLimit-Reset" (go.decimal (go.unix_seconds (pos n))) ∷ []
        | negsuc n ↦ header "X-RateLimit-Reset" (go.decimal (go.unix_seconds (negsuc n))) ∷ []
      ])

  -- writeRateLimitDenied
  unfoldable pub limit_denied : Limit.Decision → List Effect
  unfolding retry_after_seconds
  limit_denied d =
      (if ltz (pos 0) (Limit.Decision.retry_after d)
        then retry_after (retry_after_seconds (Limit.Decision.retry_after d)) ∷ []
        else [])
      ++ error_reply (answer 429 "rate_limit_error" "rate_limit_exceeded" (go.limit_message d)) ∷ []

  module _ {W : Type 0} where
    turned_away : MappedError → W → Out W
    turned_away m w = record { effects = error_reply m ∷ []; world = w }

    after_authenticate : Handler W → Result AuthError Principal × W → Out W
    unfolding map_auth_error turned_away
    after_authenticate next (err e, w) = turned_away (map_auth_error e) w
    after_authenticate next (ok p, w) = next (some p) w

    after_credential :
        (String → W → Result AuthError Principal × W) → Handler W → W → Option String → Out W
    unfolding after_authenticate turned_away
    after_credential authenticate next w none =
        turned_away
          (auth_refusal 401 "missing_credentials"
            "Missing credentials (expected: Authorization: Bearer <key>, or x-api-key header)")
          w
    after_credential authenticate next w (some key) = after_authenticate next (authenticate key w)

    -- Auth; the handler behind it gets the principal
    unfoldable pub auth :
        (String → W → Result AuthError Principal × W) → Headers → Handler W → Handler W
    unfolding after_credential
    auth authenticate h next before w = after_credential authenticate next w (credential_from h)

    -- RequireScope
    unfoldable pub require_scope : String → String → Handler W → Handler W
    unfolding turned_away
    require_scope category value next p w =
        if not (has_scope p category value)
        then turned_away
            (answer 403 "permission_error" "insufficient_scope"
              (append "API key lacks required scope " (append category (append ":" value))))
            w
        else next p w

    after_check : Handler W → Option Principal → Result Err Limit.Decision × W → Out W
    unfolding limit_headers limit_denied
    after_check next p (err e, w) = next p w
    after_check next p (ok d, w) =
        if not (Limit.Decision.allowed d)
        then record { effects = limit_headers d ++ limit_denied d; world = w }
        else first (limit_headers d) (next p w)

    -- RateLimit; no rules stand for a nil limiter as well
    unfoldable pub rate_limit : List (Limit.Rule W) → Handler W → Handler W
    unfolding after_check build_key_context
    rate_limit [] next p w = next p w
    rate_limit (r ∷ rules) next p w =
        after_check next p (Limit.check_requests (r ∷ rules) (build_key_context p) (pos 1) w)
