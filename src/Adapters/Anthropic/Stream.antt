-- ===== src/Adapters/Anthropic/Stream.antt =====
-- internal/provider/anthropic/stream.go: the events of a stream and their reader.
pub mod Laws
use Prim.Native.String.{◌++◌ as append}
use x_beacon.Prelude.{
  ℕ, suc, ◌≡◌, Bool, true, false, ◌||◌, not, Result, ok, err, Option, none, some, String, List, [],
  ◌∷◌, leb, str_eq, if◌then◌else◌,
}
use x_beacon.Prelude.Int.{ℤ, pos, ltz, add64}
use x_beacon.Errors.{Err, upstream_error, new_upstream_error, invalid_request, upstream, other}
use x_beacon.Errors.Http.{map_to_sentinel, map_vendor_error, map_request_error}
use x_beacon.Wire.{
  RawMessage, Message, ChatRequest, Choice, Usage, ChatResponse, MessageDelta, StreamChoice,
  ChatStreamChunk, plain_message,
}
use x_beacon.Router.Stream.{StreamEvent, chunk, failed}
use x_beacon.Adapters.Anthropic.{MessageUsage, map_stop_reason, usage_of_tokens}
use x_beacon.Adapters.Http.{Failure, Reply, HttpApi}
use x_beacon.Adapters.Sse.{payload_of, Conn, send_event, upstream_failure, end_of_lines}

-- streamEvent, with its nested objects
pub record StartMessage : Type 0 where
  pub id : String
  pub model : String
  pub usage : MessageUsage

pub record EventDelta : Type 0 where
  pub type : String
  pub text : String
  pub stop_reason : String

pub record EventError : Type 0 where
  pub type : String
  pub message : String

pub record AnthEvent : Type 0 where
  pub type : String
  pub message : Option StartMessage
  pub delta : Option EventDelta
  pub usage : Option MessageUsage
  pub error : Option EventError

-- anthStreamState
pub record AnthStreamState : Type 0 where
  pub id : String
  pub model : String
  pub created : ℤ
  pub input_tokens : ℤ

abbrev pub new_stream_state : ℤ → AnthStreamState
new_stream_state now = record { id = ""; model = ""; created = now; input_tokens = pos 0 }

-- makeChunk, with its one choice and its usage
unfoldable pub make_chunk : AnthStreamState → MessageDelta → String → Option Usage → ChatStreamChunk
make_chunk s delta finish_reason usage = record {
  id = s.id;
  object = "chat.completion.chunk";
  created = s.created;
  model = s.model;
  choices = record { index = pos 0; delta = delta; finish_reason = finish_reason } ∷ [];
  usage = usage;
}

-- What an event leads to: the state after it, with or without an event to send on, or the end of
-- the stream, with or without an error.
pub data Handled : Type 0 where
  sends : AnthStreamState → ChatStreamChunk → Handled
  skips : Handled
  stops : Handled
  breaks : Err → Handled

unfoldable pub started : AnthStreamState → Option StartMessage → AnthStreamState
started s none = s
started s (some m) = record s { id = m.id; model = m.model; input_tokens = m.usage.input_tokens }

unfoldable pub text_delta : AnthStreamState → Option EventDelta → Handled
text_delta s none = skips
text_delta s (some d) =
    if not (str_eq d.type "text_delta") || str_eq d.text ""
    then skips
    else sends s (make_chunk s (record { role = ""; content = d.text; extra = [] }) "" none)

unfoldable pub finish_reason_of : Option EventDelta → String
finish_reason_of none = ""
finish_reason_of (some d) = map_stop_reason d.stop_reason

unfoldable pub final_usage : AnthStreamState → Option MessageUsage → Option Usage
final_usage s none = none
final_usage s (some u) = some (usage_of_tokens s.input_tokens u.output_tokens)

stream_error : String → Option EventError → Err
stream_error name none =
    upstream_error (new_upstream_error name upstream 0 "upstream sent 'error' event with no body")
stream_error name (some e) =
    upstream_error (new_upstream_error name (map_to_sentinel 0 e.type) 0 e.message)

-- handleEvent
unfoldable pub handle_event : String → AnthStreamState → AnthEvent → Handled
unfolding started text_delta finish_reason_of final_usage stream_error make_chunk
handle_event name s ev =
    if str_eq ev.type "message_start"
    then (let s' = started s ev.message in
        sends s' (make_chunk s' (record { role = "assistant"; content = ""; extra = [] }) "" none))
    else if str_eq ev.type "content_block_delta"
    then text_delta s ev.delta
    else if str_eq ev.type "message_delta"
    then sends s (
        make_chunk s (record { role = ""; content = ""; extra = [] }) (finish_reason_of ev.delta)
          (final_usage s ev.usage))
    else if str_eq ev.type "message_stop"
    then stops
    else if str_eq ev.type "error"
    then breaks (stream_error name ev.error)
    else skips

module _ (name : String) (decode : String → Result String AnthEvent) (c : Conn) where
  unfoldable pub after_handled :
      ℕ
      → AnthStreamState
      → Handled
      → (ℕ → AnthStreamState → List (StreamEvent ChatStreamChunk))
      → List (StreamEvent ChatStreamChunk)
  after_handled i s (sends s' ch) later = send_event c i (chunk ch) (later (suc i) s')
  after_handled i s skips later = later i s
  after_handled i s stops later = []
  after_handled i s (breaks e) later = send_event c i (failed e) []

  unfoldable pub after_decode :
      ℕ
      → AnthStreamState
      → Result String AnthEvent
      → (ℕ → AnthStreamState → List (StreamEvent ChatStreamChunk))
      → List (StreamEvent ChatStreamChunk)
  unfolding after_handled
  after_decode i s (err why) later =
      send_event c i (upstream_failure name (append "decode event: " why)) []
  after_decode i s (ok ev) later = after_handled i s (handle_event name s ev) later

  -- readSSE, from the i-th event on
  unfoldable pub read_sse : List String → ℕ → AnthStreamState → List (StreamEvent ChatStreamChunk)
  unfolding after_decode
  read_sse [] i s = end_of_lines c name "stream ended without message_stop" i
  read_sse (line ∷ lines) i s = elim (payload_of line) [
    | none ↦ read_sse lines i s
    | some body ↦ after_decode i s (decode body) (read_sse lines)
  ]
