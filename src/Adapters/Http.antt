-- ===== src/Adapters/Http.antt =====
-- The HTTP side of the adapters, which net/http and encoding/json provide: parameters.
use x_beacon.Prelude.{ℕ, Result, String, List}
use x_beacon.Prelude.Int.{ℤ}
use x_beacon.Errors.{Err}

-- a failed call, with its text
pub record Failure : Type 0 where
  pub error : Err
  pub text : String

pub record Reply : Type 0 where
  pub status_code : ℕ
  pub retry_after : ℤ  -- the header, as parseRetryAfter reads it
  pub body : Result Failure String  -- io.ReadAll
  pub raw : String  -- what has been read, whether or not it fails
  pub lines : List String  -- the body as the scanner gives it

-- `Req` is the type of the request on the wire, and `Resp` that of the answer
pub record HttpApi (Req Resp : Type 0) : Type 0 where
  pub marshal : Req → Result String String
  pub build : String → Result String String  -- http.NewRequestWithContext, and setHeaders
  pub send : String → Result Failure Reply  -- httpClient.Do
  pub error_kind : String → String  -- the code, or the type, in an error body
  pub error_message : String → String
  pub unmarshal : String → Result String Resp
