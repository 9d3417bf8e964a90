-- ===== src/Chat/Handler.antt =====
-- internal/server/chat.go, chatCompletionsHandler: a request from its body to its answer.
pub mod Laws
pub mod Shapes
pub mod Accounting
pub mod Stores
pub mod RetryAfter
use Prim.Native.String.{◌++◌ as append}
use x_beacon.Prelude.{
  ℕ, ◌+◌, ◌*◌, ◌/◌, ◌≡◌, Bool, true, false, ◌&&◌, not, Result, ok, err, Option, none, some, String,
  List, [], ◌∷◌, ◌++◌, if◌then◌else◌,
}
use x_beacon.Prelude.Int.{ℤ, pos, negsuc, ltz, negate, add64}
use x_beacon.Prelude.Maps.{GoMap}
use x_beacon.Errors.{Err}
use x_beacon.Errors.Http.{MappedError, answer}
use x_beacon.Wire.{Message, ChatRequest, ChatResponse}
use x_beacon.Auth.{has_scope}
use x_beacon.Prompt.{Compression}
use x_beacon.Prompt.Tokens.{Tokenizer}
use x_beacon.RateLimit as Limit
use x_beacon.Route as Classify
use x_beacon.Chat.Stats.{token_counts, should_cache_response}
use x_beacon.Chat.Replay.{replay_cached_stream}
use x_beacon.Chat.Request.{Body, read_chat_request, invalid}
use x_beacon.Chat.Effects.{
  BillingEvent, Effect, header, retry_after, error_reply, json_reply, sse_reply, asked, Exact,
  Services, Client, Out, first, api_key_id_from, emit_billing_event,
}
use x_beacon.Chat.Stream.{store, refused_upstream, no_usage, handle_chat_stream}

-- the quotient by a second, which Go cuts towards 0
unfoldable pub whole_seconds : ℤ → ℤ
whole_seconds (pos n) = pos (n / 1_000_000_000)
whole_seconds (negsuc n) = negate (pos ((n + 1) / 1_000_000_000))

-- Retry-After, rounded up
unfoldable pub retry_after_header : ℤ → List Effect
unfolding whole_seconds
retry_after_header d =
    if ltz (pos 0) d then retry_after (whole_seconds (add64 d (pos 999_999_999))) ∷ [] else []

-- what the lookup of the cache has led to; a miss keeps the key
pub data Lookup : Type 0 where
  no_cache : Lookup
  miss : String → Lookup
  hit : ChatResponse → Lookup

module _ (sv : Services) (c : Client) where
  open sv use {W}

  -- a request under way, with the headers set so far
  pub record Pending : Type 0 where
    pub req : ChatRequest
    pub headers : List Effect
    pub world : W

  apply_decision : ChatRequest → Classify.Decision × W → Pending
  apply_decision req (d, w) =
      if Classify.is_empty d then record { req = req; headers = []; world = w } else record {
        req = record req { model = Classify.Decision.model d };
        headers =
            header "X-X-Beacon-Route-Rule" (Classify.Decision.rule d)
            ∷ header "X-X-Beacon-Route-From" req.model
            ∷ header "X-X-Beacon-Route-To" (Classify.Decision.model d)
            ∷ [];
        world = w;
      }

  -- smart routing, which a scope of the key turns off
  unfoldable pub route_request :
      Option (ChatRequest → W → Classify.Decision × W) → ChatRequest → W → Pending
  unfolding apply_decision
  route_request none req w = record { req = req; headers = []; world = w }
  route_request (some classify) req w =
      if has_scope c.principal "smart_route" "disable"
      then record {
        req = req;
        headers = header "X-X-Beacon-Route-Rule" "skip:scope" ∷ [];
        world = w;
      }
      else apply_decision req (classify req w)

  apply_compression : Pending → Compression × List Message → Pending
  apply_compression p (res, messages) = record {
    req = record (p.req) { messages = messages };
    headers =
        p.headers
        ++ (if res.compressed then header "X-X-Beacon-Prompt-Compressed" "1" ∷ [] else []);
    world = p.world;
  }

  unfoldable pub compress_prompt :
      Option (ChatRequest → Compression × List Message) → Pending → Pending
  unfolding apply_compression
  compress_prompt none p = p
  compress_prompt (some compress) p = apply_compression p (compress p.req)

  -- the decision that rejects the request; an error of the limiter lets it pass
  rejection : Result Err Limit.Decision × W → Option Limit.Decision × W
  rejection (err e, w) = (none, w)
  rejection (ok d, w) = (if not (Limit.Decision.allowed d) then some d else none, w)

  -- the limits on tokens
  unfoldable pub limit_tokens :
      List (Limit.Rule W)
      → Option (String → Tokenizer)
      → ChatRequest
      → W
      → Option Limit.Decision × W
  unfolding rejection
  limit_tokens [] tk req w = (none, w)
  limit_tokens (r ∷ rules) none req w = (none, w)
  limit_tokens (r ∷ rules) (some tk) req w = rejection (
      Limit.check_tokens (r ∷ rules)
        (record {
          api_key_id = Services.bytes sv (api_key_id_from c);
          model = Services.bytes sv req.model;
        })
        (pos (Tokenizer.count_messages (tk req.model) req.messages)) w)

  after_get : String → Result Err ChatResponse × W → Lookup × W
  after_get key (ok cached, w) = (hit cached, w)
  after_get key (err e, w) = (miss key, w)

  with_key : Exact W → Option String → W → Lookup × W
  unfolding after_get
  with_key e none w = (miss "", w)
  with_key e (some key) w = after_get key (Exact.get e key w)

  unfoldable pub look_up : Option (Exact W) → ChatRequest → W → Lookup × W
  unfolding with_key
  look_up none req w = (no_cache, w)
  look_up (some e) req w = with_key e (Services.cache_key sv req) w

  -- an answer of the router: it is sent, cached if it is fit for that, and billed
  unfoldable pub answer_chat : String → ChatRequest → ChatResponse → W → Out W
  answer_chat key req resp w =
      let (prompt, completion) = token_counts (Services.tokenizer sv) req resp in
      let kept : Out W =
        if should_cache_response resp prompt
        then store sv c (Services.exact_cache sv) key resp w
        else record { effects = []; world = w } in
      record {
        effects =
            asked req
            ∷ json_reply resp
            ∷ (kept.effects
                ++ emit_billing_event (Services.bill sv) (record (no_usage c req false) {
                  provider = resp.provider;
                  prompt_tokens = prompt;
                  completion_tokens = completion;
                }));
        world = kept.world;
      }

  unfoldable pub after_chat : String → ChatRequest → Result Err ChatResponse × W → Out W
  unfolding answer_chat
  after_chat key req (err e, w) = refused_upstream sv c req false e w
  after_chat key req (ok resp, w) = answer_chat key req resp w

  unfoldable pub ask_upstream : String → ChatRequest → W → Out W
  unfolding after_chat
  ask_upstream key req w =
      if req.stream
      then handle_chat_stream sv c key req w
      else after_chat key req (Services.chat sv req w)

  -- a cached answer, in the shape that was asked for
  unfoldable pub answer_cached : ChatRequest → ChatResponse → W → Out W
  answer_cached req cached w = record {
    effects =
        header "X-X-Beacon-Cache" "hit"
        ∷ (if not req.stream
            then json_reply cached
            else if c.flushes
            then sse_reply (replay_cached_stream c.writes c.now c.req_id cached)
            else error_reply (answer 500 "internal_error" "" "Server does not support streaming"))
        ∷ [];
    world = w;
  }

  after_lookup : ChatRequest → Lookup × W → Out W
  unfolding answer_cached ask_upstream
  after_lookup req (no_cache, w) = ask_upstream "" req w
  after_lookup req (miss key, w) =
      first (header "X-X-Beacon-Cache" "miss" ∷ []) (ask_upstream key req w)
  after_lookup req (hit cached, w) = answer_cached req cached w

  after_limit : ChatRequest → Option Limit.Decision × W → Out W
  unfolding after_lookup retry_after_header
  after_limit req (none, w) = after_lookup req (look_up (Services.exact_cache sv) req w)
  after_limit req (some d, w) = record {
    effects =
        retry_after_header (Limit.Decision.retry_after d)
        ++ error_reply
            (answer 429 "rate_limit_error" "rate_limit_exceeded" (Services.limit_message sv d))
          ∷ [];
    world = w;
  }

  after_prompt : Pending → Out W
  unfolding after_limit
  after_prompt p = first p.headers (
      if Services.resolves sv (ChatRequest.model p.req)
      then after_limit p.req
          (limit_tokens (Services.rules sv) (Services.tokenizer sv) p.req p.world)
      else record {
        effects =
            error_reply (
              invalid 400 "model_not_found" (
                append "Model "
                  (append (ChatRequest.model p.req) " is not configured on this gateway")))
            ∷ [];
        world = p.world;
      })

  -- the request that goes upstream, unless it is rejected
  unfoldable pub prepared : ChatRequest → W → Pending
  prepared req w =
      compress_prompt (Services.compressor sv) (route_request (Services.classifier sv) req w)

  after_reading : Result MappedError ChatRequest → W → Out W
  unfolding prepared after_prompt
  after_reading (err m) w = record { effects = error_reply m ∷ []; world = w }
  after_reading (ok req) w = after_prompt (prepared req w)

  -- chatCompletionsHandler
  unfoldable pub chat_completions : Body → W → Out W
  unfolding after_reading
  chat_completions body w = after_reading (read_chat_request (Services.unmarshal sv) body) w
