-- ===== src/Messages.antt =====
-- internal/server/messages.go: the endpoint /v1/messages, which hands requests and answers on as they
-- are. The registry, the adapter's ForwardMessages and the JSON codec are parameters.
pub mod Comes
pub mod Laws
use Prim.Native.String as Text
use Prim.Native.String.{◌++◌ as append}
use x_beacon.Prelude.{
  ℕ, suc, Bool, true, false, ◌&&◌, not, ◌==◌, Result, ok, err, Option, none, some, String, List, [],
  ◌∷◌, ◌++◌, str_eq, if◌then◌else◌,
}
use x_beacon.Prelude.Int.{ℤ, pos}
use x_beacon.Prelude.Runes.{take_runes, drop_runes}
use x_beacon.Chat.Effects.{BillingEvent}

-- anthropicUsage
pub record NativeUsage : Type 0 where
  pub input_tokens : ℤ
  pub output_tokens : ℤ

-- an event of the stream, as far as scanUsageLine decodes it
pub record UsageEvent : Type 0 where
  pub type : String
  pub message_usage : NativeUsage
  pub usage : NativeUsage

-- What the handler does to the outside.
pub data NativeEffect : Type 0 where
  forwarded : String → String → NativeEffect  -- ForwardMessages, with body and beta header
  native_error : ℕ → String → String → NativeEffect  -- writeAnthropicError
  passed_header : String → String → NativeEffect
  status_line : ℕ → NativeEffect
  wrote : String → NativeEffect  -- a write that gets through
  observed : String → String → ℕ → NativeEffect  -- metrics.ObserveRequest
  tokens_added : String → String → NativeUsage → NativeEffect
  native_billed : BillingEvent → NativeEffect

-- the upstream's response: its body by the lines that ReadBytes gives, none of them empty, and whether
-- ReadAll fails
pub record NativeResponse : Type 0 where
  pub status : ℕ
  pub headers : String → String
  pub lines : List String
  pub read_fails : Bool

-- what a read of the request's body gives
pub data BodyFault : Type 0 where
  too_large unreadable : BodyFault

-- a provider; only an Anthropic adapter forwards
pub record NativeProvider : Type 0 where
  pub name : String
  pub forward : Option (String → String → Option NativeResponse)

pub record NativeWorld : Type 0 where
  pub resolve : String → Option NativeProvider
  pub peek : String → Option (String × Bool)  -- model and stream of the body
  pub usage_event : String → Option UsageEvent
  pub envelope : String → NativeUsage  -- the usage that Unmarshal leaves of the body, zero where it reads none
  pub mentions_usage : String → Bool  -- bytes.Contains
  pub is_event_stream : String → Bool  -- strings.HasPrefix
  pub bill : Bool

-- the request, and whether the i-th write to its client gets through
pub record NativeRequest : Type 0 where
  pub body : Result BodyFault String
  pub beta : String
  pub req_id : String
  pub api_key_id : String
  pub writes : ℕ → Bool

abbrev pub no_usage : NativeUsage
no_usage = record { input_tokens = pos 0; output_tokens = pos 0 }

abbrev pub joined : List String → String
joined [] = ""
joined (l ∷ lines) = append l (joined lines)

-- the headers that are passed on, those that are set
unfoldable pub passed : (String → String) → List String → List NativeEffect
passed headers [] = []
passed headers (h ∷ names) =
    let rest = passed headers names in
    if str_eq (headers h) "" then rest else passed_header h (headers h) ∷ rest

abbrev pub passed_names : List String
passed_names =
    "Content-Type" ∷ "Retry-After" ∷ "Request-Id" ∷ "Anthropic-Ratelimit-Requests-Remaining"
    ∷ "Anthropic-Ratelimit-Tokens-Remaining" ∷ []

module _ (n : NativeWorld) where
  counted_event : Option UsageEvent → NativeUsage → NativeUsage
  counted_event none u = u
  counted_event (some ev) u =
      if str_eq ev.type "message_start"
      then record u { input_tokens = ev.message_usage.input_tokens }
      else if str_eq ev.type "message_delta"
      then record u { output_tokens = ev.usage.output_tokens }
      else u

  unfoldable pub scan_usage_line : String → NativeUsage → NativeUsage
  unfolding counted_event
  scan_usage_line line u =
      let payload = drop_runes 6 line in
      if str_eq (take_runes 6 line) "data: " && n.mentions_usage payload
      then counted_event (n.usage_event payload) u
      else u

  -- pipeAnthropicSSE, from the i-th write on: what gets through, and the usage
  unfoldable pub pipe_sse :
      (ℕ → Bool) → ℕ → List String → NativeUsage → List NativeEffect × NativeUsage
  unfolding scan_usage_line
  pipe_sse writes i [] u = ([], u)
  pipe_sse writes i (line ∷ lines) u =
      let (rest, u') = pipe_sse writes (suc i) lines (scan_usage_line line u) in
      if writes i then (wrote line ∷ rest, u') else ([], u)

  usage_of_body : ℕ → String → NativeUsage
  usage_of_body status body = if status == 200 then n.envelope body else no_usage

  -- metrics and billing after an answer
  unfoldable pub settle_native :
      NativeRequest → String → String → Bool → NativeResponse → NativeUsage → List NativeEffect
  settle_native r name model streamed resp u =
      observed name model resp.status
      ∷ (if resp.status == 200
          then tokens_added name model u
            ∷ (if n.bill
                then native_billed (record {
                  request_id = r.req_id;
                  api_key_id = r.api_key_id;
                  provider = name;
                  model = model;
                  prompt_tokens = u.input_tokens;
                  completion_tokens = u.output_tokens;
                  status = 200;
                  streamed = streamed;
                  error_code = "";
                })
                  ∷ []
                else [])
          else [])

  bad_gateway : String → String → String → List NativeEffect
  bad_gateway name model message =
      observed name model 502 ∷ native_error 502 "api_error" message ∷ []

  -- the answer in one piece; the write may be lost
  whole_answer : NativeRequest → String → String → NativeResponse → List NativeEffect
  unfolding bad_gateway usage_of_body settle_native
  whole_answer r name model resp =
      let body = joined resp.lines in
      if resp.read_fails
      then bad_gateway name model "Upstream read failed"
      else status_line resp.status
        ∷ ((if r.writes 0 then wrote body ∷ [] else [])
            ++ settle_native r name model false resp (usage_of_body resp.status body))

  streamed_answer : NativeRequest → String → String → NativeResponse → List NativeEffect
  unfolding pipe_sse settle_native
  streamed_answer r name model resp =
      let (written, u) = pipe_sse r.writes 0 resp.lines no_usage in
      status_line resp.status ∷ (written ++ settle_native r name model true resp u)

  unfoldable pub pass_response :
      NativeRequest → String → String → NativeResponse → List NativeEffect
  unfolding passed whole_answer streamed_answer
  pass_response r name model resp =
      passed resp.headers passed_names
      ++ (if n.is_event_stream (resp.headers "Content-Type")
          then streamed_answer r name model resp
          else whole_answer r name model resp)

  after_forward : NativeRequest → String → String → Option NativeResponse → List NativeEffect
  unfolding bad_gateway pass_response
  after_forward r name model none = bad_gateway name model "Upstream request failed"
  after_forward r name model (some resp) = pass_response r name model resp

  forward_to : NativeRequest → String → String → Option NativeProvider → List NativeEffect
  unfolding after_forward
  forward_to r body model none = native_error 404 "not_found_error" (append "model: " model) ∷ []
  forward_to r body model (some p) = elim p.forward [
    | none ↦
        native_error 404 "not_found_error"
          (append "model " (append model " is not served by an Anthropic-protocol provider"))
        ∷ []
    | some send ↦ forwarded body r.beta ∷ after_forward r p.name model (send body r.beta)
  ]

  peeked : NativeRequest → String → Option (String × Bool) → List NativeEffect
  unfolding forward_to
  peeked r body none =
      native_error 400 "invalid_request_error" "Request body must be valid JSON with a model field"
      ∷ []
  peeked r body (some (model, stream)) =
      if str_eq model ""
      then native_error 400 "invalid_request_error"
          "Request body must be valid JSON with a model field"
        ∷ []
      else forward_to r body model (n.resolve model)

  read_native : NativeRequest → Result BodyFault String → List NativeEffect
  unfolding peeked
  read_native r (err too_large) =
      native_error 413 "invalid_request_error" "Request body too large" ∷ []
  read_native r (err unreadable) =
      native_error 400 "invalid_request_error" "Failed to read request body" ∷ []
  read_native r (ok body) = peeked r body (n.peek body)

  -- messagesHandler
  unfoldable pub messages_handler : NativeRequest → List NativeEffect
  unfolding read_native
  messages_handler r = read_native r r.body
