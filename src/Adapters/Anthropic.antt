-- ===== src/Adapters/Anthropic.antt =====
-- internal/provider/anthropic/convert.go: the translation of requests and answers.
pub mod Stream
pub mod Chat
use Prim.Native.String.{◌++◌ as append}
use x_beacon.Prelude.{
  ℕ, suc, ◌≡◌, Bool, true, false, ◌||◌, not, Result, ok, err, Option, none, some, String, List, [],
  ◌∷◌, leb, str_eq, if◌then◌else◌,
}
use x_beacon.Prelude.Int.{ℤ, pos, ltz, add64}
use x_beacon.Errors.{Err, upstream_error, new_upstream_error, invalid_request, upstream, other}
use x_beacon.Errors.Http.{map_to_sentinel, map_vendor_error, map_request_error}
use x_beacon.Wire.{
  RawMessage, Message, ChatRequest, Choice, Usage, ChatResponse, MessageDelta, StreamChoice,
  ChatStreamChunk, plain_message,
}
use x_beacon.Router.Stream.{StreamEvent, chunk, failed}
use x_beacon.Adapters.Http.{Failure, Reply, HttpApi}
use x_beacon.Adapters.Sse.{payload_of, Conn, send_event, upstream_failure, end_of_lines}

-- anthMsg
pub record AnthMsg : Type 0 where
  pub role : String
  pub content : String

pub record MessagesRequest : Type 0 where
  pub model : String
  pub messages : List AnthMsg
  pub system : String
  pub max_tokens : ℤ
  pub temperature : Option RawMessage
  pub top_p : Option RawMessage
  pub stop_sequences : List String
  pub stream : Bool

pub record MessageUsage : Type 0 where
  pub input_tokens : ℤ
  pub output_tokens : ℤ

pub record ContentBlock : Type 0 where
  pub type : String
  pub text : String

pub record MessagesResponse : Type 0 where
  pub id : String
  pub content : List ContentBlock
  pub model : String
  pub stop_reason : String
  pub usage : MessageUsage

-- the contents of the system's messages that are not empty, and the other messages
unfoldable pub system_parts : List Message → List String
system_parts [] = []
system_parts (m ∷ ms) =
    let later = system_parts ms in
    if str_eq m.role "system"
    then (if str_eq m.content "" then later else m.content ∷ later)
    else later

unfoldable pub dialogue : List Message → List AnthMsg
dialogue [] = []
dialogue (m ∷ ms) =
    let later = dialogue ms in
    if str_eq m.role "system" then later else record { role = m.role; content = m.content } ∷ later

-- strings.Join
unfoldable pub join_with : String → List String → String
join_with sep [] = ""
join_with sep (s ∷ l) = elim l [ [] ↦ s | _ ∷ _ ↦ append s (append sep (join_with sep l)) ]

-- toAnthropicRequest
unfoldable pub to_anthropic_request : ChatRequest → ℤ → Bool → MessagesRequest
unfolding system_parts dialogue join_with
to_anthropic_request req default_max_tokens stream = record {
  model = req.model;
  messages = dialogue req.messages;
  system = join_with "\n\n" (system_parts req.messages);
  max_tokens = if ltz (pos 0) req.max_tokens then req.max_tokens else default_max_tokens;
  temperature = req.temperature;
  top_p = req.top_p;
  stop_sequences = req.stop;
  stream = stream;
}

unfoldable pub map_stop_reason : String → String
map_stop_reason r =
    if str_eq r "end_turn"
    then "stop"
    else if str_eq r "max_tokens"
    then "length"
    else if str_eq r "stop_sequence"
    then "stop"
    else if str_eq r "tool_use"
    then "tool_calls"
    else r

-- the text blocks, one after the other
unfoldable pub text_of : List ContentBlock → String
text_of [] = ""
text_of (b ∷ blocks) =
    let later = text_of blocks in if str_eq b.type "text" then append b.text later else later

abbrev pub usage_of_tokens : ℤ → ℤ → Usage
usage_of_tokens input output = record {
  prompt_tokens = input;
  completion_tokens = output;
  total_tokens = add64 input output;
  extra = [];
}

-- fromAnthropicResponse; `now` is the clock in seconds
unfoldable pub from_anthropic_response : ℤ → MessagesResponse → String → ChatResponse
unfolding text_of map_stop_reason
from_anthropic_response now resp provider_name = record {
  id = resp.id;
  object = "chat.completion";
  created = now;
  model = resp.model;
  choices =
      record {
        index = pos 0;
        message = plain_message "assistant" (text_of resp.content);
        finish_reason = map_stop_reason resp.stop_reason;
        extra = [];
      }
      ∷ [];
  usage = some (usage_of_tokens resp.usage.input_tokens resp.usage.output_tokens);
  provider = provider_name;
}
