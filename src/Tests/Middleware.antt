-- ===== src/Tests/Middleware.antt =====
-- A key "k" with the scope admin:webui, and a limiter that always denies.
use x_beacon.Prelude.{
  ℕ, ◌+◌, ◌≡◌, true, Result, ok, err, none, some, String, [], ◌∷◌, str_eq, arith, if◌then◌else◌,
}
use x_beacon.Prelude.Int.{pos, negsuc, int64_max}
use x_beacon.Auth.{AuthError, invalid_credentials, Principal, has_scope}
use x_beacon.RateLimit as Limit
use x_beacon.Chat.Effects.{retry_after}
use x_beacon.Chat.Handler.{retry_after_header}
use x_beacon.Chat.Handler.RetryAfter.{retry_after_header_overflow}
use x_beacon.Middleware.{Library, Headers, Handler, auth, require_scope}
use x_beacon.Middleware.Guards.{Guarded, require_scope-Guarded}

abbrev go : Library
go = record {
  equal_fold = λ a b. str_eq a "Bearer ";
  trim_space = λ s. s;
  decimal = λ n. "0";
  unix_seconds = λ n. n;
  limit_message = λ d. "";
  bytes = λ s. [];
}

abbrev admin : Principal
admin = record { id = "p1"; name = "admin"; scopes = ("admin", "webui" ∷ []) ∷ [] }

abbrev accepts_k : String → ℕ → Result AuthError Principal × ℕ
accepts_k key w = (if str_eq key "k" then ok admin else err invalid_credentials, w)

abbrev counts : Handler ℕ
counts p w = record { effects = []; world = w + 1 }

abbrev headers : Headers
headers = record { authorization = "Bearer k"; x_api_key = "" }

require_scope-Guarded_example :
    Guarded go accepts_k headers
      (λ p. has_scope (some p) "admin" "webui" ≡ true)
      counts
      0
      (auth go accepts_k headers (require_scope go "admin" "webui" counts) none 0)
require_scope-Guarded_example =
    require_scope-Guarded go accepts_k headers "admin" "webui" counts none 0

abbrev closed : Limit.Rule ℕ
closed = record {
  name = [];
  key_by = Limit.by_api_key ∷ [];
  limiter = λ key cost s. (ok Limit.no_decision, s);
  unit = Limit.requests;
}

retry_after_header_overflow_example :
    (k : ℕ) × (retry_after_header (pos int64_max) ≡ retry_after (negsuc k) ∷ [])
retry_after_header_overflow_example =
    retry_after_header_overflow int64_max (omega arith) (omega arith)
