-- ===== src/Tests/Chat.antt =====
-- The handler with a provider that answers "ok", and streams that are gathered and replayed.
use x_beacon.Prelude.{
  ◌≤◌, ◌≡◌, refl, true, false, ok, err, Option, none, some, String, [], ◌∷◌, ◌++◌, count_if,
}
use x_beacon.Prelude.Int.{pos}
use x_beacon.Errors.{bare, upstream}
use x_beacon.Wire.{ChatRequest, ChatResponse, ChatStreamChunk, plain_message}
use x_beacon.Router.Stream.{chunk, failed}
use x_beacon.Chat.Stats.{
  should_cache_response, token_counts, should_cache_response, no_stats, observe_all,
  to_cached_response,
}
use x_beacon.Chat.Replay.{frame, replay_frames}
use x_beacon.Chat.Replay.Laws.{replay_cached-round_trip}
use x_beacon.Chat.Request.{read_chat_request, read_body}
use x_beacon.Chat.Effects.{json_reply, header, Exact, Services, Client, Out}
use x_beacon.Chat.Stream.{store, Streamed, stream_loop, end_marker}
use x_beacon.Chat.Stream.Frames.{wire_frames, stream_loop-frames}
use x_beacon.Chat.Handler.{chat_completions, compress_prompt, route_request, limit_tokens, look_up}
use x_beacon.Chat.Handler.Shapes.{is_answer}
use x_beacon.Chat.Handler.Accounting.{
  is_asked, is_billed, chat_completions-answers_once, chat_completions-billed,
}
use x_beacon.Chat.Handler.Stores.{StoresWell, chat_completions-StoresWell}

abbrev asks : ChatRequest
asks = record {
  model = "mini";
  messages = plain_message "user" "hi" ∷ [];
  max_tokens = pos 0;
  temperature = none;
  top_p = none;
  n = pos 0;
  stream = false;
  stop = [];
  user = "";
  extra = [];
}

abbrev says_ok : ChatResponse
says_ok = record {
  id = "r1";
  object = "chat.completion";
  created = pos 7;
  model = "mini";
  choices =
      record {
        index = pos 0;
        message = plain_message "assistant" "ok";
        finish_reason = "stop";
        extra = [];
      }
      ∷ [];
  usage = some (record {
    prompt_tokens = pos 3;
    completion_tokens = pos 1;
    total_tokens = pos 4;
    extra = [];
  });
  provider = "a";
}

abbrev delta_chunk : String → String → ChatStreamChunk
delta_chunk content reason =
    frame "s1" (pos 7) "mini"
      (record {
        index = pos 0;
        delta = record { role = ""; content = content; extra = [] };
        finish_reason = reason;
      }
        ∷ [])
      none

-- the services keep the one entry of their cache
abbrev cell : Exact (Option ChatResponse)
cell = record {
  get = λ key w. (elim w [ none ↦ err (bare upstream) | some r ↦ ok r ], w);
  set = λ key r ttl w. some r;
}

abbrev services : Services
services = record {
  W = Option ChatResponse;
  unmarshal = λ raw. ok asks;
  classifier = none;
  compressor = none;
  resolves = λ model. true;
  rules = [];
  bytes = λ t. [];
  limit_message = λ d. "";
  tokenizer = none;
  exact_cache = some cell;
  cache_key = λ req. some "k";
  cache_ttl = pos 60;
  chat = λ req w. (ok says_ok, w);
  chat_stream = λ req w. (ok (chunk (delta_chunk "ok" "stop") ∷ []), w);
  bill = true;
  seconds = λ d. 0;
}

abbrev client : Client
client = record {
  req_id = "q1";
  principal = none;
  now = pos 100;
  flushes = true;
  writes = λ i. true;
  encode_error = λ ch. none;
  gone_at_end = false;
  gone_at_store = false;
}

chat_completions_answers_example :
    (count_if is_answer (Out.effects (chat_completions services client (read_body "{}") none)) ≡ 1)
    × (count_if is_asked (Out.effects (chat_completions services client (read_body "{}") none)) ≤ 1)
chat_completions_answers_example =
    chat_completions-answers_once services client (read_body "{}") none

chat_completions_billed_example :
    count_if is_billed (Out.effects (chat_completions services client (read_body "{}") none))
    ≡ count_if is_asked (Out.effects (chat_completions services client (read_body "{}") none))
chat_completions_billed_example =
    chat_completions-billed services client refl refl (read_body "{}") none

chat_completions_stores_example :
    StoresWell services none []
      (Out.effects (chat_completions services client (read_body "{}") none))
chat_completions_stores_example = chat_completions-StoresWell services client (read_body "{}") none

-- a miss is asked upstream and kept, and the next request is a hit
miss_then_hit :
    Out.effects (
      chat_completions services client
        (read_body "{}")
        (Out.world (chat_completions services client (read_body "{}") none)))
    ≡ header "X-X-Beacon-Cache" "hit" ∷ json_reply says_ok ∷ []
unfolding chat_completions read_chat_request compress_prompt route_request limit_tokens look_up
    should_cache_response token_counts store
miss_then_hit = refl

stream_loop_frames_example :
    Streamed.sent (
        stream_loop
          (λ d. 0)
          client
          0
          no_stats
          (chunk (delta_chunk "ok" "") ∷ failed (bare upstream) ∷ []))
      ++ end_marker
          (λ d. 0)
          client
          (stream_loop
            (λ d. 0)
            client
            0
            no_stats
            (chunk (delta_chunk "ok" "") ∷ failed (bare upstream) ∷ []))
    ≡ wire_frames (λ d. 0) (λ ch. none) (chunk (delta_chunk "ok" "") ∷ failed (bare upstream) ∷ [])
stream_loop_frames_example =
    stream_loop-frames (λ d. 0) client (λ i. refl) refl 0 no_stats
      (chunk (delta_chunk "ok" "") ∷ failed (bare upstream) ∷ [])

abbrev hung_up : Client
hung_up = record client { writes = λ i. false }

abbrev gathered : ChatResponse
gathered =
    to_cached_response (pos 100) asks
      (observe_all (delta_chunk "o" "" ∷ delta_chunk "k" "stop" ∷ []) no_stats)

replay_round_trip_example :
    to_cached_response (pos 200) asks (observe_all (replay_frames (pos 200) "q2" gathered) no_stats)
    ≡ gathered
unfolding should_cache_response to_cached_response observe_all
replay_round_trip_example =
    replay_cached-round_trip (delta_chunk "o" "" ∷ delta_chunk "k" "stop" ∷ []) (pos 100) asks
      (pos 3) refl refl refl (pos 200) "q2" asks
