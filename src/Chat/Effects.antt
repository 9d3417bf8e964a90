-- ===== src/Chat/Effects.antt =====
-- What the handlers of internal/server/chat.go and chat_stream.go do to the outside, in order, and
-- the services they work with. Metrics, traces and logs are left out.
use x_beacon.Prelude.{
  ℕ, Bool, Result, Option, none, some, String, List, [], ◌∷◌, ◌++◌, if◌then◌else◌,
}
use x_beacon.Prelude.Int.{ℤ}
use x_beacon.Errors.{Err}
use x_beacon.Errors.Http.{MappedError}
use x_beacon.Wire.{Message, ChatRequest, ChatResponse, ChatStreamChunk}
use x_beacon.Auth.{Principal}
use x_beacon.Prompt.{Compression}
use x_beacon.Prompt.Tokens.{Tokenizer}
use x_beacon.RateLimit as Limit
use x_beacon.Route as Classify
use x_beacon.Router.Stream.{StreamEvent}
use x_beacon.Chat.Replay.{Sent}

-- billing.Event, without its times
pub record BillingEvent : Type 0 where
  pub request_id : String
  pub api_key_id : String
  pub provider : String
  pub model : String
  pub prompt_tokens : ℤ
  pub completion_tokens : ℤ
  pub status : ℕ
  pub streamed : Bool
  pub error_code : String

pub data Effect : Type 0 where
  header : String → String → Effect  -- w.Header().Set
  retry_after : ℤ → Effect  -- the header Retry-After, in seconds
  error_reply : MappedError → Effect  -- writeError
  json_reply : ChatResponse → Effect  -- status 200 with the answer
  sse_reply : List Sent → Effect  -- an event stream, with the frames that got through
  asked : ChatRequest → Effect  -- a call of the router
  stored : String → ChatResponse → ℤ → Effect  -- exactCache.Set
  billed : BillingEvent → Effect

-- cache.Exact
pub record Exact (W : Type 0) : Type 0 where
  pub get : String → W → Result Err ChatResponse × W
  pub set : String → ChatResponse → ℤ → W → W

-- what chatCompletionsHandler is given, and the packages it calls
pub record Services : Type 1 where
  pub W : Type 0
  pub unmarshal : String → Result String ChatRequest  -- encoding/json
  pub classifier : Option (ChatRequest → W → Classify.Decision × W)
  pub compressor : Option (ChatRequest → Compression × List Message)
  pub resolves : String → Bool  -- rtr.ResolveModel succeeds
  pub rules : List (Limit.Rule W)  -- rl, empty for a nil one
  pub bytes : String → Limit.Bytes  -- the bytes of a text
  pub limit_message : Limit.Decision → String  -- fmt.Sprintf
  pub tokenizer : Option (String → Tokenizer)
  pub exact_cache : Option (Exact W)
  pub cache_key : ChatRequest → Option String  -- cache.Key
  pub cache_ttl : ℤ
  pub chat : ChatRequest → W → Result Err ChatResponse × W
  pub chat_stream : ChatRequest → W → Result Err (List (StreamEvent ChatStreamChunk)) × W
  pub bill : Bool  -- whether there is a billing worker
  pub seconds : ℤ → ℕ  -- time.Duration.Seconds, cut to an int

-- the request's context and connection
pub record Client : Type 0 where
  pub req_id : String
  pub principal : Option Principal
  pub now : ℤ  -- the clock, in seconds
  pub flushes : Bool  -- the writer is an http.Flusher
  pub writes : ℕ → Bool  -- whether the i-th frame gets through
  pub encode_error : ChatStreamChunk → Option Err  -- json.Marshal
  pub gone_at_end : Bool  -- r.Context().Err() before the marker
  pub gone_at_store : Bool  -- and before the cache is written

-- a handler's effects, and the services after it
pub record Out (W : Type 0) : Type 0 where
  pub effects : List Effect
  pub world : W

abbrev pub first : {W : Type 0} → List Effect → Out W → Out W
first es o = record o { effects = es ++ o.effects }

api_key_of : Option Principal → String
api_key_of none = ""
api_key_of (some p) = p.id

-- apiKeyIDFrom
unfoldable pub api_key_id_from : Client → String
unfolding api_key_of
api_key_id_from c = api_key_of c.principal

-- emitBillingEvent
unfoldable pub emit_billing_event : Bool → BillingEvent → List Effect
emit_billing_event bill ev = if bill then billed ev ∷ [] else []
