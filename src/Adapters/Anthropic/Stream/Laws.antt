-- ===== src/Adapters/Anthropic/Stream/Laws.antt =====
-- The stream reader of anthropic/stream.go, beside the translation of a whole answer.
use Prim.Native.String.{◌++◌ as append}
use x_beacon.Prelude.{
  ℕ, suc, ◌≡◌, refl, ap, ◌∙◌, true, false, Result, ok, err, none, some, Option-cases, String, List,
  [], ◌∷◌, ◌++◌, All, str_eq, if-cases, inl, inr,
}
use x_beacon.Prelude.Int.{ℤ, pos, ltz}
use x_beacon.Wire.{ChatRequest, ChatStreamChunk}
use x_beacon.Router.Stream.{StreamEvent, chunk, failed}
use x_beacon.Chat.Stats.{
  no_stats, is_zero, observe_all, observe_usage, to_cached_response, usage_of,
}
use x_beacon.Chat.Replay.{frame, content_frames, content_choice}
use x_beacon.Chat.Replay.Gather.{join, role_choice, finish_choice, observe-slices}
use x_beacon.Adapters.Sse.{payload_of, Conn, send_event}
use x_beacon.Adapters.Sse.Laws.{
  payload_of-data, payload_of-event, payload_of-blank, FailsLast, send_event-FailsLast,
  end_of_lines-FailsLast,
}
use x_beacon.Adapters.Anthropic.{
  ContentBlock, MessagesResponse, map_stop_reason, usage_of_tokens, text_of,
  from_anthropic_response,
}
use x_beacon.Adapters.Anthropic.Stream.{
  final_usage, finish_reason_of, AnthEvent, AnthStreamState, new_stream_state, Handled, sends,
  skips, stops, breaks, handle_event, make_chunk, text_delta, started, finish_reason_of,
  final_usage, read_sse, after_decode, after_handled,
}

module _ (name : String) (decode : String → Result String AnthEvent) (c : Conn) where
  module _ (later : ℕ → AnthStreamState → List (StreamEvent ChatStreamChunk))
      (later_ends : (i : ℕ) (s : AnthStreamState) → FailsLast (later i s)) where
    handled-FailsLast :
        (i : ℕ) (s : AnthStreamState) (h : Handled)
        → FailsLast (after_handled name decode c i s h later)
    unfolding after_handled
    handled-FailsLast i s (sends s' ch) =
        send_event-FailsLast c i (chunk ch) _ (later_ends (suc i) s')
    handled-FailsLast i s skips = later_ends i s
    handled-FailsLast i s stops = tt
    handled-FailsLast i s (breaks e) = send_event-FailsLast c i (failed e) [] refl

    decoded-FailsLast :
        (i : ℕ) (s : AnthStreamState) (r : Result String AnthEvent)
        → FailsLast (after_decode name decode c i s r later)
    unfolding after_decode
    decoded-FailsLast i s (err why) = send_event-FailsLast c i _ [] refl
    decoded-FailsLast i s (ok ev) = handled-FailsLast i s (handle_event name s ev)

  -- Whatever the events, the reader sends at most one error, and nothing after it.
  pub read_sse_events-FailsLast :
      (lines : List String) (i : ℕ) (s : AnthStreamState)
      → FailsLast (read_sse name decode c lines i s)
  unfolding read_sse
  read_sse_events-FailsLast [] i s = end_of_lines-FailsLast c name _ i
  read_sse_events-FailsLast (line ∷ lines) i s = elim (Option-cases (payload_of line)) [
    | inl skipped ↦ rw (skipped, read_sse) (read_sse_events-FailsLast lines i s)
    | inr (body, found) ↦
        rw (found, read_sse)
          (decoded-FailsLast (read_sse name decode c lines) (read_sse_events-FailsLast lines) i s
            (decode body))
  ]

-- an answer in pieces: as a stream of events, and as a whole
abbrev no_event : String → AnthEvent
no_event type = record { type = type; message = none; delta = none; usage = none; error = none }

-- what comes between the start of an answer and its end
pub data Part : Type 0 where
  says : String → Part
  opens closes pings : Part

abbrev pub said : List Part → List String
said [] = []
said (says piece ∷ parts) = piece ∷ said parts
said (opens ∷ parts) = said parts
said (closes ∷ parts) = said parts
said (pings ∷ parts) = said parts

module _ (id model stop_reason : String) (input output : ℤ) where
  abbrev start_event : AnthEvent
  start_event = record (no_event "message_start") {
    message = some (record {
      id = id;
      model = model;
      usage = record { input_tokens = input; output_tokens = pos 0 };
    });
  }

  abbrev final_event : AnthEvent
  final_event = record (no_event "message_delta") {
    delta = some (record { type = ""; text = ""; stop_reason = stop_reason });
    usage = some (record { input_tokens = pos 0; output_tokens = output });
  }

  abbrev text_event : String → AnthEvent
  text_event piece = record (no_event "content_block_delta") {
    delta = some (record { type = "text_delta"; text = piece; stop_reason = "" });
  }

  abbrev part_event : Part → AnthEvent
  part_event (says piece) = text_event piece
  part_event opens = no_event "content_block_start"
  part_event closes = no_event "content_block_stop"
  part_event pings = no_event "ping"

  abbrev text_events : List Part → List AnthEvent
  text_events [] = final_event ∷ no_event "message_stop" ∷ []
  text_events (part ∷ parts) = part_event part ∷ text_events parts

  abbrev pub answer_events : List Part → List AnthEvent
  answer_events parts = start_event ∷ text_events parts

  abbrev blocks : List String → List ContentBlock
  blocks [] = []
  blocks (piece ∷ pieces) = record { type = "text"; text = piece } ∷ blocks pieces

  abbrev pub whole_answer : List String → MessagesResponse
  whole_answer pieces = record {
    id = id;
    content = blocks pieces;
    model = model;
    stop_reason = stop_reason;
    usage = record { input_tokens = input; output_tokens = output };
  }

abbrev pub event_lines : (AnthEvent → String) → List AnthEvent → List String
event_lines encode [] = []
event_lines encode (ev ∷ evs) =
    append "event: " ev.type ∷ append "data: " (encode ev) ∷ "" ∷ event_lines encode evs

abbrev pub chunks_in : List (StreamEvent ChatStreamChunk) → List ChatStreamChunk
chunks_in [] = []
chunks_in (chunk ch ∷ events) = ch ∷ chunks_in events
chunks_in (failed e ∷ events) = chunks_in events

text_of-blocks :
    (id model stop_reason : String) (input output : ℤ) (pieces : List String)
    → text_of (blocks id model stop_reason input output pieces) ≡ join pieces
unfolding text_of
text_of-blocks id model r i o [] = refl
text_of-blocks id model r i o (piece ∷ pieces) =
    ap (append piece) (text_of-blocks id model r i o pieces)

reason_kept : (r : String) → str_eq r "" ≡ false → str_eq (map_stop_reason r) "" ≡ false
unfolding map_stop_reason
reason_kept r h =
    let P : String → Type 0 = λ s. str_eq s "" ≡ false in
    if-cases P (str_eq r "end_turn") (λ y. refl)
      (λ n.
        if-cases P (str_eq r "max_tokens") (λ y. refl)
          (λ n.
            if-cases P (str_eq r "stop_sequence") (λ y. refl)
              (λ n. if-cases P (str_eq r "tool_use") (λ y. refl) (λ n. h))))

module _ (name : String) (decode : String → Result String AnthEvent) (c : Conn)
    (encode : AnthEvent → String) (takes : (i : ℕ) → c.takes i ≡ true) where
  blank_line :
      (lines : List String) (i : ℕ) (s : AnthStreamState)
      → read_sse name decode c ("" ∷ lines) i s ≡ read_sse name decode c lines i s
  unfolding read_sse
  blank_line lines i s = rw (payload_of-blank, read_sse) refl

  send_line :
      (s s' : AnthStreamState) (ev : AnthEvent) (ch : ChatStreamChunk) (lines : List String) (i : ℕ)
      → decode (encode ev) ≡ ok ev
      → handle_event name s ev ≡ sends s' ch
      → read_sse name decode c
          (append "event: " ev.type ∷ append "data: " (encode ev) ∷ "" ∷ lines)
          i
          s
        ≡ chunk ch ∷ read_sse name decode c lines (suc i) s'
  unfolding read_sse after_decode after_handled send_event
  send_line s s' ev ch lines i d h =
      rw (payload_of-event ev.type, payload_of-data (encode ev), d, h, takes i, read_sse)
        (ap (λ l. chunk ch ∷ l) (blank_line lines (suc i) s'))

  skip_event :
      (s : AnthStreamState) (ev : AnthEvent) (lines : List String) (i : ℕ)
      → decode (encode ev) ≡ ok ev
      → handle_event name s ev ≡ skips
      → read_sse name decode c
          (append "event: " ev.type ∷ append "data: " (encode ev) ∷ "" ∷ lines)
          i
          s
        ≡ read_sse name decode c lines i s
  unfolding read_sse after_decode after_handled
  skip_event s ev lines i d h =
      rw (payload_of-event ev.type, payload_of-data (encode ev), d, h, read_sse)
        (blank_line lines i s)

  stop_line :
      (s : AnthStreamState) (ev : AnthEvent) (lines : List String) (i : ℕ)
      → decode (encode ev) ≡ ok ev
      → handle_event name s ev ≡ stops
      → read_sse name decode c
          (append "event: " ev.type ∷ append "data: " (encode ev) ∷ "" ∷ lines)
          i
          s
        ≡ []
  unfolding read_sse after_decode after_handled
  stop_line s ev lines i d h =
      rw (payload_of-event ev.type, payload_of-data (encode ev), d, h, read_sse) refl

  module _ (id model stop_reason : String) (input output created : ℤ)
      (has_id : str_eq id "" ≡ false) (has_model : str_eq model "" ≡ false)
      (has_date : is_zero created ≡ false) where
    abbrev running : AnthStreamState
    running = record { id = id; model = model; created = created; input_tokens = input }

    abbrev final_frame : ChatStreamChunk
    final_frame =
        frame id created model
          (finish_choice id model created has_id has_model has_date (pos 0)
              (map_stop_reason stop_reason)
            ∷ [])
          (some (usage_of_tokens input output))

    read_pieces :
        (parts : List Part)
        → All (λ p. str_eq p "" ≡ false) (said parts)
        → All
            (λ ev. decode (encode ev) ≡ ok ev)
            (text_events id model stop_reason input output parts)
        → (i : ℕ)
        → chunks_in (
            read_sse name decode c
              (event_lines encode (text_events id model stop_reason input output parts))
              i
              running)
          ≡ content_frames id created model (pos 0) (said parts) ++ final_frame ∷ []
    unfolding handle_event make_chunk finish_reason_of final_usage text_delta content_frames
    read_pieces [] h d i =
        ap chunks_in (
          send_line running running (final_event id model stop_reason input output) final_frame _ i
            d.0 refl)
        ∙ ap (λ l. final_frame ∷ chunks_in l)
            (stop_line running (no_event "message_stop") [] (suc i) d.1.0 refl)
    read_pieces (opens ∷ parts) h d i =
        ap chunks_in (skip_event running (no_event "content_block_start") _ i d.0 refl)
        ∙ read_pieces parts h d.1 i
    read_pieces (closes ∷ parts) h d i =
        ap chunks_in (skip_event running (no_event "content_block_stop") _ i d.0 refl)
        ∙ read_pieces parts h d.1 i
    read_pieces (pings ∷ parts) h d i =
        ap chunks_in (skip_event running (no_event "ping") _ i d.0 refl) ∙ read_pieces parts h d.1 i
    read_pieces (says piece ∷ pieces) h d i =
        let ch = frame id created model (content_choice (pos 0) piece ∷ []) none in
        ap chunks_in (
          send_line running running (text_event id model stop_reason input output piece) ch _ i d.0
            (rw h.0 refl))
        ∙ ap (λ l. ch ∷ l) (read_pieces pieces h.1 d.1 (suc i))

    read_answer :
        (pieces : List Part)
        → All (λ p. str_eq p "" ≡ false) (said pieces)
        → All
            (λ ev. decode (encode ev) ≡ ok ev)
            (answer_events id model stop_reason input output pieces)
        → chunks_in (
            read_sse name decode c
              (event_lines encode (answer_events id model stop_reason input output pieces))
              0
              (new_stream_state created))
          ≡ frame id created model
              (role_choice id model created has_id has_model has_date (pos 0) ∷ [])
              none
            ∷ (content_frames id created model (pos 0) (said pieces) ++ final_frame ∷ [])
    unfolding handle_event make_chunk started
    read_answer pieces h d =
        let ch =
          frame id created model
            (role_choice id model created has_id has_model has_date (pos 0) ∷ []) none in
        ap chunks_in (
          send_line (new_stream_state created) running
            (start_event id model stop_reason input output) ch _ 0 d.0 refl)
        ∙ ap (λ l. ch ∷ l) (read_pieces pieces h d.1 1)

    -- An answer that comes as a stream of frames, each with the name of its event, in pieces of text
    -- that are not blank, with any starts and ends of blocks and pings among them, is gathered into
    -- what the translation of the whole answer gives, but for the name of the provider, which a
    -- stream does not keep: the same content, finish reason and usage. The IDs, the time and the
    -- counts are not missing, the caller takes every event, and the codec reads the events it encodes.
    pub read_sse-same_answer :
        str_eq stop_reason "" ≡ false
        → ltz (pos 0) input ≡ true
        → ltz (pos 0) output ≡ true
        → (pieces : List Part) → All (λ p. str_eq p "" ≡ false) (said pieces)
        → All
            (λ ev. decode (encode ev) ≡ ok ev)
            (answer_events id model stop_reason input output pieces)
        → (now : ℤ) (req : ChatRequest)
        → to_cached_response now req (
            observe_all
              (chunks_in (
                read_sse name decode c
                  (event_lines encode (answer_events id model stop_reason input output pieces))
                  0
                  (new_stream_state created)))
              no_stats)
          ≡ record (from_anthropic_response created
              (whole_answer id model stop_reason input output (said pieces))
              name) { provider = "" }
    unfolding to_cached_response usage_of observe_usage from_anthropic_response
    read_sse-same_answer ended used written pieces h d now req =
        ap (λ l. to_cached_response now req (observe_all l no_stats)) (read_answer pieces h d)
        ∙ (ap (to_cached_response now req) (
              observe-slices id model created has_id has_model has_date (said pieces)
                (map_stop_reason stop_reason) (pos 0) (some (usage_of_tokens input output))
                (reason_kept stop_reason ended))
            ∙ rw (text_of-blocks id model stop_reason input output (said pieces))
                (rw (has_id, has_model, has_date, used, written) (rw used refl)))
