-- ===== src/Tests/Adapters.antt =====
-- The readers of streams at a codec for two payloads.
use x_beacon.Prelude.{
  ◌≡◌, refl, true, false, Result, ok, err, none, String, List, [], ◌∷◌, str_eq, if◌then◌else◌,
}
use x_beacon.Prelude.Int.{pos}
use x_beacon.Wire.{ChatRequest, ChatStreamChunk}
use x_beacon.Adapters.Sse.{Conn}
use x_beacon.Chat.Stats.{no_stats, observe_all, to_cached_response}
use x_beacon.Chat.Replay.{frame}
use x_beacon.Adapters.Anthropic.{from_anthropic_response}
use x_beacon.Adapters.Openai as Openai
use x_beacon.Adapters.Openai.Laws as OpenaiLaws
use x_beacon.Adapters.Anthropic.Stream as Stream
use x_beacon.Adapters.Anthropic.Stream.Laws as StreamLaws

abbrev conn : Conn
conn = record { takes = λ i. true; gone = false; scan_error = none }

abbrev refuses : String → Result String Openai.StreamWirePayload
refuses body = err "not JSON"

abbrev one_chunk : ChatStreamChunk
one_chunk = frame "s1" (pos 7) "mini" [] none

abbrev reads_one : String → Result String Openai.StreamWirePayload
reads_one body = ok (record { chunk_part = one_chunk; error = none })

abbrev frames : List OpenaiLaws.Frame
frames =
    OpenaiLaws.event one_chunk ∷ OpenaiLaws.keepalive "keepalive" ∷ OpenaiLaws.event one_chunk ∷ []

abbrev asks : ChatRequest
asks = record {
  model = "haiku";
  messages = [];
  max_tokens = pos 0;
  temperature = none;
  top_p = none;
  n = pos 0;
  stream = true;
  stop = [];
  user = "";
  extra = [];
}

-- the events of an answer "ok", by their types
abbrev by_type : List Stream.AnthEvent → String → Result String Stream.AnthEvent
by_type [] body = err "unknown"
by_type (ev ∷ evs) body = if str_eq body ev.type then ok ev else by_type evs body

abbrev events : List Stream.AnthEvent
events =
    StreamLaws.answer_events "m1" "haiku" "end_turn" (pos 3) (pos 1)
      (StreamLaws.opens ∷ StreamLaws.pings ∷ StreamLaws.says "ok" ∷ StreamLaws.closes ∷ [])

read_sse_same_answer_example :
    to_cached_response (pos 9) asks (
      observe_all
        (StreamLaws.chunks_in (
          Stream.read_sse "a"
            (by_type events)
            conn
            (StreamLaws.event_lines (λ ev. ev.type) events)
            0
            (Stream.new_stream_state (pos 7))))
        no_stats)
    ≡ record (from_anthropic_response
        (pos 7)
        (StreamLaws.whole_answer "m1" "haiku" "end_turn" (pos 3) (pos 1) ("ok" ∷ []))
        "a") { provider = "" }
read_sse_same_answer_example =
    StreamLaws.read_sse-same_answer "a" (by_type events) conn (λ ev. ev.type) (λ i. refl) "m1"
      "haiku" "end_turn" (pos 3) (pos 1) (pos 7) refl refl refl refl refl refl
      (StreamLaws.opens ∷ StreamLaws.pings ∷ StreamLaws.says "ok" ∷ StreamLaws.closes ∷ [])
      (refl, tt) (refl, (refl, (refl, (refl, (refl, (refl, (refl, tt))))))) (pos 9) asks
