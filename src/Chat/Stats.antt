-- ===== src/Chat/Stats.antt =====
-- internal/server/chat_stream.go, streamStats: what is gathered from the chunks of a stream; and the
-- token counts and the gate of the cache, of chat.go.
use Prim.Native.String.{◌++◌ as append}
use x_beacon.Prelude.{
  ℕ, Bool, false, ◌||◌, not, ◌==◌, Option, none, some, String, List, [], ◌∷◌, str_eq, if◌then◌else◌,
}
use x_beacon.Prelude.Int.{ℤ, pos, negsuc, ltz, lez, add64}
use x_beacon.Wire.{
  ChatRequest, Choice, Usage, ChatResponse, StreamChoice, ChatStreamChunk, plain_message,
}
use x_beacon.Prompt.Tokens.{Tokenizer}

pub record StreamStats : Type 0 where
  pub provider : String
  pub id : String
  pub created : ℤ
  pub model : String
  pub content_buf : String
  pub finish_reason : String
  pub prompt_usage : ℤ
  pub output_usage : ℤ

abbrev pub no_stats : StreamStats
no_stats = record {
  provider = "";
  id = "";
  created = pos 0;
  model = "";
  content_buf = "";
  finish_reason = "";
  prompt_usage = pos 0;
  output_usage = pos 0;
}

abbrev pub is_zero : ℤ → Bool
is_zero (pos n) = n == 0
is_zero (negsuc n) = false

-- `if new != "" { s.field = new }`, and the same for numbers
abbrev pub or_keep : String → String → String
or_keep new old = if str_eq new "" then old else new

abbrev pub or_keep_count : ℤ → ℤ → ℤ
or_keep_count new old = if ltz (pos 0) new then new else old

unfoldable pub observe_usage : Option Usage → StreamStats → StreamStats
observe_usage none s = s
observe_usage (some u) s = record s {
  prompt_usage = or_keep_count u.prompt_tokens s.prompt_usage;
  output_usage = or_keep_count u.completion_tokens s.output_usage;
}

unfoldable pub observe_choices : List StreamChoice → StreamStats → StreamStats
observe_choices [] s = s
observe_choices (ch ∷ choices) s = observe_choices choices (record s {
  content_buf = append s.content_buf ch.delta.content;
  finish_reason = or_keep ch.finish_reason s.finish_reason;
})

-- streamStats.observe
unfoldable pub observe : ChatStreamChunk → StreamStats → StreamStats
unfolding observe_usage observe_choices
observe chunk s = observe_choices chunk.choices (
    observe_usage chunk.usage (record s {
      id = or_keep chunk.id s.id;
      created = if is_zero chunk.created then s.created else chunk.created;
      model = or_keep chunk.model s.model;
    }))

-- the observations of the loop over the stream
unfoldable pub observe_all : List ChatStreamChunk → StreamStats → StreamStats
unfolding observe
observe_all [] s = s
observe_all (c ∷ cs) s = observe_all cs (observe c s)

unfoldable pub usage_of : StreamStats → Option Usage
usage_of s =
    if ltz (pos 0) s.prompt_usage || ltz (pos 0) s.output_usage
    then some (record {
      prompt_tokens = s.prompt_usage;
      completion_tokens = s.output_usage;
      total_tokens = add64 s.prompt_usage s.output_usage;
      extra = [];
    })
    else none

-- streamStats.toCachedResponse; `now` is the clock in seconds
unfoldable pub to_cached_response : ℤ → ChatRequest → StreamStats → ChatResponse
unfolding usage_of
to_cached_response now req s = record {
  id = or_keep s.id "chatcmpl-stream";
  object = "chat.completion";
  created = if is_zero s.created then now else s.created;
  model = or_keep s.model req.model;
  choices =
      record {
        index = pos 0;
        message = plain_message "assistant" s.content_buf;
        finish_reason = s.finish_reason;
        extra = [];
      }
      ∷ [];
  usage = usage_of s;
  provider = s.provider;
}

-- an estimate in place of a missing count
abbrev pub or_estimate : ℤ → ℕ → ℤ
or_estimate n e = if is_zero n then pos e else n

-- streamStats.tokenCounts; `tk` is the selector, if there is one
unfoldable pub stream_token_counts : Option (String → Tokenizer) → ChatRequest → StreamStats → ℤ × ℤ
stream_token_counts none req s = (s.prompt_usage, s.output_usage)
stream_token_counts (some tk) req s =
    let t = tk req.model in
    (
      or_estimate s.prompt_usage (t.count_messages req.messages),
      or_estimate s.output_usage (t.count_text s.content_buf),
    )

-- the sum over the choices
unfoldable pub count_choices : Tokenizer → ℤ → List Choice → ℤ
count_choices t n [] = n
count_choices t n (ch ∷ choices) =
    count_choices t (add64 n (pos (t.count_text ch.message.content))) choices

prompt_of : Option Usage → ℤ
prompt_of none = pos 0
prompt_of (some u) = u.prompt_tokens

completion_of : Option Usage → ℤ
completion_of none = pos 0
completion_of (some u) = u.completion_tokens

-- tokenCounts of chat.go
unfoldable pub token_counts : Option (String → Tokenizer) → ChatRequest → ChatResponse → ℤ × ℤ
unfolding prompt_of completion_of count_choices
token_counts none req resp = (prompt_of resp.usage, completion_of resp.usage)
token_counts (some tk) req resp =
    let t = tk req.model in
    let n = completion_of resp.usage in
    (
      or_estimate (prompt_of resp.usage) (t.count_messages req.messages),
      if is_zero n then count_choices t n resp.choices else n,
    )

unfoldable pub has_content : List Choice → Bool
has_content [] = false
has_content (ch ∷ choices) = not (str_eq ch.message.content "") || has_content choices

unfoldable pub cacheable_choices : ℤ → List Choice → Bool
unfolding has_content
cacheable_choices prompt_tok [] = false
cacheable_choices prompt_tok (first ∷ others) =
    if lez prompt_tok (pos 0)
    then false
    else if not (str_eq first.finish_reason "stop")
    then false
    else has_content (first ∷ others)

-- shouldCacheResponse, on a response that is not nil
unfoldable pub should_cache_response : ChatResponse → ℤ → Bool
unfolding cacheable_choices
should_cache_response resp prompt_tok = cacheable_choices prompt_tok resp.choices
