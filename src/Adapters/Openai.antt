-- ===== src/Adapters/Openai.antt =====
-- internal/provider/openai: chat.go and stream.go, over the HTTP client, which is a parameter.
pub mod Laws
use Prim.Native.String.{◌++◌ as append}
use x_beacon.Prelude.{
  ℕ, suc, ◌≡◌, Bool, true, false, Result, ok, err, Option, none, some, String, List, [], ◌∷◌, leb,
  str_eq, if◌then◌else◌,
}
use x_beacon.Prelude.Int.{ℤ}
use x_beacon.Errors.{Err, upstream_error, new_upstream_error, invalid_request, upstream, other}
use x_beacon.Errors.Http.{map_status_to_sentinel, map_http_error, map_request_error}
use x_beacon.Wire.{ChatRequest, ChatResponse, ChatStreamChunk}
use x_beacon.Router.Stream.{StreamEvent, chunk, failed}
use x_beacon.Adapters.Http.{Failure, Reply, HttpApi}
use x_beacon.Adapters.Sse.{payload_of, Conn, send_event, upstream_failure, end_of_lines}

pub record ErrorPayload : Type 0 where
  pub message : String
  pub type : String
  pub code : String

-- streamWirePayload
pub record StreamWirePayload : Type 0 where
  pub chunk_part : ChatStreamChunk
  pub error : Option ErrorPayload

module _ (name : String) where
  module _ (decode : String → Result String StreamWirePayload) (c : Conn) where
    -- what a payload becomes
    unfoldable pub after_decode :
        ℕ
        → Result String StreamWirePayload
        → List (StreamEvent ChatStreamChunk)
        → List (StreamEvent ChatStreamChunk)
    after_decode i (err why) rest =
        send_event c i (upstream_failure name (append "decode chunk: " why)) []
    after_decode i (ok payload) rest = elim (payload.error) [
      | none ↦ send_event c i (chunk payload.chunk_part) rest
      | some e ↦
          send_event c i
            (failed (
              upstream_error
                (new_upstream_error name (map_status_to_sentinel 0 e.code) 0 e.message)))
            []
    ]

    -- readSSE, from the i-th event on
    unfoldable pub read_sse : ℕ → List String → List (StreamEvent ChatStreamChunk)
    unfolding after_decode
    read_sse i [] = end_of_lines c name "stream ended without [DONE]" i
    read_sse i (line ∷ lines) =
        let skipped = read_sse i lines in
        let later = read_sse (suc i) lines in
        elim (payload_of line) [
          | none ↦ skipped
          | some body ↦ if str_eq body "[DONE]" then [] else after_decode i (decode body) later
        ]

  module _ (api : HttpApi ChatRequest ChatResponse) where
    failed_status : Reply → String → Err
    failed_status reply raw =
        map_http_error name reply.status_code (api.error_kind raw) (api.error_message raw) raw
          reply.retry_after

    decoded_response : Reply → Result String ChatResponse → Result Err ChatResponse
    decoded_response reply (err why) = err (
        upstream_error
          (new_upstream_error name upstream reply.status_code (append "decode response: " why)))
    decoded_response reply (ok out) = ok (record out { provider = name })

    after_body : Reply → Result Failure String → Result Err ChatResponse
    unfolding failed_status decoded_response
    after_body reply (err f) = err (map_request_error name f.error f.text)
    after_body reply (ok raw) =
        if leb 400 reply.status_code
        then err (failed_status reply raw)
        else decoded_response reply (api.unmarshal raw)

    -- the reply to a request, or why there is none
    unfoldable pub exchange : ChatRequest → Result Err Reply
    exchange r = elim (api.marshal r) [
      | err why ↦ err (other (append "openai: marshal request: " why))
      | ok body ↦ elim (api.build body) [
        | err why ↦ err (other (append "openai: build request: " why))
        | ok http_req ↦ elim (api.send http_req) [
          | err f ↦ err (map_request_error name f.error f.text)
          | ok reply ↦ ok reply
        ]
      ]
    ]

    -- ChatCompletion; `none` is a nil request
    unfoldable pub chat_completion : Option ChatRequest → Result Err ChatResponse
    unfolding exchange after_body
    chat_completion none =
        err (upstream_error (new_upstream_error name invalid_request 0 "nil request"))
    chat_completion (some req) = elim (exchange (record req { stream = false })) [
      | err e ↦ err e
      | ok reply ↦ after_body reply reply.body
    ]

    -- ChatCompletionStream, with the events that the caller gets
    unfoldable pub chat_completion_stream :
        (String → Result String StreamWirePayload)
        → Conn
        → Option ChatRequest
        → Result Err (List (StreamEvent ChatStreamChunk))
    unfolding exchange failed_status read_sse
    chat_completion_stream decode c none =
        err (upstream_error (new_upstream_error name invalid_request 0 "nil request"))
    chat_completion_stream decode c (some req) = elim (exchange (record req { stream = true })) [
      | err e ↦ err e
      | ok reply ↦
          if leb 400 reply.status_code
          then err (failed_status reply reply.raw)
          else ok (read_sse decode c 0 reply.lines)
    ]
