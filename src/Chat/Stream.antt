-- ===== src/Chat/Stream.antt =====
-- internal/server/chat_stream.go, handleChatStream: the streaming branch of the handler. The frames
-- are numbered as they are written; the heartbeat's comments are left out.
pub mod Frames
use x_beacon.Prelude.{
  ℕ, zero, suc, ◌+◌, ◌≡◌, Bool, true, false, ◌&&◌, not, ◌==◌, Result, ok, err, Option, none, some,
  String, List, [], ◌∷◌, ◌++◌, str_eq, if◌then◌else◌,
}
use x_beacon.Prelude.Int.{ℤ, pos, ltz}
use x_beacon.Errors.{Err}
use x_beacon.Errors.Http.{MappedError, answer, map_provider_error}
use x_beacon.Wire.{ChatRequest, ChatResponse, ChatStreamChunk}
use x_beacon.Router.Stream.{StreamEvent, chunk, failed}
use x_beacon.Chat.Stats.{
  StreamStats, no_stats, observe, to_cached_response, stream_token_counts, should_cache_response,
}
use x_beacon.Chat.Replay.{Sent, sent_chunk, sent_error, sent_done}
use x_beacon.Chat.Effects.{
  BillingEvent, Effect, error_reply, sse_reply, asked, stored, Exact, Services, Client, Out, first,
  api_key_id_from, emit_billing_event,
}

-- the state in which the loop over the channel ends
pub record Streamed : Type 0 where
  pub sent : List Sent
  pub next : ℕ  -- the number of the next frame
  pub stats : StreamStats
  pub final_status : ℕ
  pub err_code : String

module _ (seconds : ℤ → ℕ) (c : Client) where
  -- the loop has ended at frame i, with nothing more to send
  unfoldable pub ended : ℕ → StreamStats → Streamed
  ended i s = record { sent = []; next = i; stats = s; final_status = 200; err_code = "" }

  -- emitStreamError, and the end of the loop
  unfoldable pub emit_stream_error : ℕ → StreamStats → Err → ℕ → String → Streamed
  emit_stream_error i s e status code = record {
    sent = if c.writes i then sent_error (map_provider_error seconds e) ∷ [] else [];
    next = suc i;
    stats = s;
    final_status = status;
    err_code = code;
  }

  -- the end of one turn of the loop: the chunk is encoded and written
  unfoldable pub after_chunk : ℕ → StreamStats → ChatStreamChunk → Option Err → Streamed → Streamed
  unfolding emit_stream_error ended
  after_chunk i s ch (some e) rest = emit_stream_error i s e 500 "internal_error"
  after_chunk i s ch none rest =
      if c.writes i then record rest { sent = sent_chunk ch ∷ rest.sent } else ended (suc i) s

  unfoldable pub stream_loop : ℕ → StreamStats → List (StreamEvent ChatStreamChunk) → Streamed
  unfolding emit_stream_error ended after_chunk
  stream_loop i s [] = ended i s
  stream_loop i s (failed e ∷ events) =
      let m = map_provider_error seconds e in emit_stream_error i s e m.status m.code
  stream_loop i s (chunk ch ∷ events) =
      let s' = observe ch s in
      after_chunk i s' ch (c.encode_error ch) (stream_loop (suc i) s' events)

  -- the marker, unless the stream has failed or the client is gone
  unfoldable pub end_marker : Streamed → List Sent
  end_marker r =
      if not c.gone_at_end && (r.final_status == 200) && c.writes r.next then sent_done ∷ [] else []

abbrev pub no_usage : Client → ChatRequest → Bool → BillingEvent
no_usage c req streamed = record {
  request_id = c.req_id;
  api_key_id = api_key_id_from c;
  provider = "";
  model = req.model;
  prompt_tokens = pos 0;
  completion_tokens = pos 0;
  status = 200;
  streamed = streamed;
  error_code = "";
}

module _ (sv : Services) (c : Client) where
  open sv use {W}

  -- exactCache.Set, behind the tests of the key and of the time to live
  unfoldable pub store : Option (Exact W) → String → ChatResponse → W → Out W
  store none key resp w = record { effects = []; world = w }
  store (some e) key resp w =
      if not (str_eq key "") && ltz (pos 0) (Services.cache_ttl sv)
      then record {
        effects = stored key resp (Services.cache_ttl sv) ∷ [];
        world = Exact.set e key resp (Services.cache_ttl sv) w;
      }
      else record { effects = []; world = w }

  -- the answer of a call of the router that has failed, and its row
  unfoldable pub refused_upstream : ChatRequest → Bool → Err → W → Out W
  refused_upstream req streamed e w =
      let m = map_provider_error (Services.seconds sv) e in
      record {
        effects =
            asked req
            ∷ error_reply m
            ∷ emit_billing_event (Services.bill sv)
                (record (no_usage c req streamed) { status = m.status; error_code = m.code });
        world = w;
      }

  -- the write-back of a stream
  unfoldable pub store_stream : String → ChatRequest → Streamed → ℤ → W → Out W
  unfolding store
  store_stream key req r prompt w =
      let cacheable = to_cached_response c.now req r.stats in
      if (r.final_status == 200) && not c.gone_at_store && should_cache_response cacheable prompt
      then store (Services.exact_cache sv) key cacheable w
      else record { effects = []; world = w }

  -- from the committed stream on
  unfoldable pub serve_stream :
      String → ChatRequest → List (StreamEvent ChatStreamChunk) → W → Out W
  unfolding store_stream
  serve_stream key req events w =
      let r = stream_loop (Services.seconds sv) c 0 no_stats events in
      let (prompt, completion) = stream_token_counts (Services.tokenizer sv) req r.stats in
      let kept = store_stream key req r prompt w in
      record {
        effects =
            asked req
            ∷ sse_reply (r.sent ++ end_marker (Services.seconds sv) c r)
            ∷ (kept.effects
                ++ emit_billing_event (Services.bill sv) (record (no_usage c req true) {
                  provider = r.stats.provider;
                  prompt_tokens = prompt;
                  completion_tokens = completion;
                  status = r.final_status;
                  error_code = r.err_code;
                }));
        world = kept.world;
      }

  unfoldable pub after_stream :
      String → ChatRequest → Result Err (List (StreamEvent ChatStreamChunk)) × W → Out W
  unfolding refused_upstream serve_stream
  after_stream key req (err e, w) = refused_upstream req true e w
  after_stream key req (ok events, w) =
      if c.flushes then serve_stream key req events w else record {
        effects =
            asked req
            ∷ error_reply (answer 500 "internal_error" "" "Server does not support streaming")
            ∷ [];
        world = w;
      }

  -- handleChatStream
  unfoldable pub handle_chat_stream : String → ChatRequest → W → Out W
  unfolding after_stream
  handle_chat_stream key req w = after_stream key req (Services.chat_stream sv req w)
