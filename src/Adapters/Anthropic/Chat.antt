-- ===== src/Adapters/Anthropic/Chat.antt =====
-- internal/provider/anthropic/chat.go and stream.go: the calls of the provider.
use Prim.Native.String.{◌++◌ as append}
use x_beacon.Prelude.{
  true, false, Result, ok, err, Option, none, some, String, List, leb, if◌then◌else◌,
}
use x_beacon.Prelude.Int.{ℤ}
use x_beacon.Errors.{Err, upstream_error, new_upstream_error, invalid_request, upstream, other}
use x_beacon.Errors.Http.{map_vendor_error, map_request_error}
use x_beacon.Wire.{ChatRequest, ChatResponse, ChatStreamChunk}
use x_beacon.Router.Stream.{StreamEvent}
use x_beacon.Adapters.Anthropic.{
  MessagesRequest, MessagesResponse, to_anthropic_request, from_anthropic_response,
}
use x_beacon.Adapters.Anthropic.Stream.{AnthEvent, new_stream_state, read_sse}
use x_beacon.Adapters.Http.{Failure, Reply, HttpApi}
use x_beacon.Adapters.Sse.{Conn}

module _ (name : String) (default_max_tokens : ℤ)
    (api : HttpApi MessagesRequest MessagesResponse) where
  failed_status : Reply → String → Err
  failed_status reply raw =
      map_vendor_error name reply.status_code (api.error_kind raw) (api.error_message raw) raw
        reply.retry_after

  decoded_response : ℤ → Reply → Result String MessagesResponse → Result Err ChatResponse
  decoded_response now reply (err why) = err (
      upstream_error
        (new_upstream_error name upstream reply.status_code (append "decode response: " why)))
  decoded_response now reply (ok out) = ok (from_anthropic_response now out name)

  after_body : ℤ → Reply → Result Failure String → Result Err ChatResponse
  unfolding failed_status decoded_response
  after_body now reply (err f) = err (map_request_error name f.error f.text)
  after_body now reply (ok raw) =
      if leb 400 reply.status_code
      then err (failed_status reply raw)
      else decoded_response now reply (api.unmarshal raw)

  -- the reply to a request, or why there is none
  unfoldable pub exchange : MessagesRequest → Result Err Reply
  exchange r = elim (api.marshal r) [
    | err why ↦ err (other (append "anthropic: marshal request: " why))
    | ok body ↦ elim (api.build body) [
      | err why ↦ err (other (append "anthropic: build request: " why))
      | ok http_req ↦ elim (api.send http_req) [
        | err f ↦ err (map_request_error name f.error f.text)
        | ok reply ↦ ok reply
      ]
    ]
  ]

  -- ChatCompletion; `none` is a nil request
  unfoldable pub chat_completion : ℤ → Option ChatRequest → Result Err ChatResponse
  unfolding exchange after_body
  chat_completion now none =
      err (upstream_error (new_upstream_error name invalid_request 0 "nil request"))
  chat_completion now (some req) =
      elim (exchange (to_anthropic_request req default_max_tokens false)) [
        | err e ↦ err e
        | ok reply ↦ after_body now reply reply.body
      ]

  -- ChatCompletionStream, with the events that the caller gets
  unfoldable pub chat_completion_stream :
      ℤ
      → (String → Result String AnthEvent)
      → Conn
      → Option ChatRequest
      → Result Err (List (StreamEvent ChatStreamChunk))
  unfolding exchange failed_status read_sse
  chat_completion_stream now decode c none =
      err (upstream_error (new_upstream_error name invalid_request 0 "nil request"))
  chat_completion_stream now decode c (some req) =
      elim (exchange (to_anthropic_request req default_max_tokens true)) [
        | err e ↦ err e
        | ok reply ↦
            if leb 400 reply.status_code
            then err (failed_status reply reply.raw)
            else ok (read_sse name decode c reply.lines 0 (new_stream_state now))
      ]
