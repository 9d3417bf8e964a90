-- ===== src/Cache.antt =====
-- internal/cache/exact.go: the key of a request, and the cached answers in Redis. SHA-256, the JSON
-- codec and Redis are parameters.
pub mod Keys
use Prim.Native.String.{◌++◌ as append}
use x_beacon.Prelude.{
  ◌≡◌, Bool, true, false, Result, ok, err, Option, none, some, String, List, if◌then◌else◌,
}
use x_beacon.Prelude.Int.{ℤ, pos, lez}
use x_beacon.Errors.{Err, other}
use x_beacon.Wire.{RawMessage, Message, ChatRequest, ChatResponse}
use x_beacon.Chat.Effects.{Exact}

-- cacheKeyPayload
pub record CacheKeyPayload : Type 0 where
  pub model : String
  pub messages : List Message
  pub temperature : Option RawMessage
  pub top_p : Option RawMessage
  pub max_tokens : ℤ
  pub stop : List String

abbrev pub key_payload : ChatRequest → CacheKeyPayload
key_payload req = record {
  model = req.model;
  messages = req.messages;
  temperature = req.temperature;
  top_p = req.top_p;
  max_tokens = req.max_tokens;
  stop = req.stop;
}

-- encoding/json, and the hex digits of SHA-256
pub record Codec : Type 0 where
  pub marshal_payload : CacheKeyPayload → Option String
  pub sha256 : String → String
  pub marshal : ChatResponse → Option String
  pub unmarshal : String → Option ChatResponse

hashed : Codec → Option String → Result Err String
hashed c none = err (other "cache: marshal key payload")
hashed c (some buf) = ok (append "cache:exact:" (c.sha256 buf))

-- Key; `none` is a nil request
unfoldable pub key : Codec → Option ChatRequest → Result Err String
unfolding hashed
key c none = err (other "cache: nil request")
key c (some req) = hashed c (c.marshal_payload (key_payload req))

-- the answer of GET
pub data Reply : Type 0 where
  missing : Reply  -- redis.Nil
  unreachable : Err → Reply
  entry : String → Reply

-- what is used of the client
pub record Redis : Type 1 where
  pub S : Type 0
  pub get : String → S → Reply × S
  pub set : String → String → ℤ → S → Option Err × S
  pub del : String → S → Option Err × S

abbrev pub miss_error : Err
miss_error = other "cache: miss"

module _ (c : Codec) (r : Redis) where
  open r use {S}

  decoded_entry : Option ChatResponse → Result Err ChatResponse
  decoded_entry none = err (other "cache: decode entry")
  decoded_entry (some resp) = ok resp

  from_reply : Reply → Result Err ChatResponse
  unfolding decoded_entry
  from_reply missing = err miss_error
  from_reply (unreachable e) = err e
  from_reply (entry raw) = decoded_entry (c.unmarshal raw)

  -- Get
  unfoldable pub get_cached : String → S → Result Err ChatResponse × S
  unfolding from_reply
  get_cached k s = let (reply, s') = Redis.get r k s in (from_reply reply, s')

  set_encoded : String → ℤ → Option String → S → Option Err × S
  set_encoded k ttl none s = (some (other "cache: marshal response"), s)
  set_encoded k ttl (some buf) s = Redis.set r k buf ttl s

  -- Set
  unfoldable pub set_cached : String → ChatResponse → ℤ → S → Option Err × S
  unfolding set_encoded
  set_cached k resp ttl s =
      if lez ttl (pos 0)
      then (some (other "cache: Set: non-positive ttl"), s)
      else set_encoded k ttl (c.marshal resp) s

  -- Delete
  unfoldable pub delete_cached : String → S → Option Err × S
  delete_cached k s = Redis.del r k s

  -- the cache as the chat handler takes it
  abbrev pub redis_exact : Exact S
  redis_exact = record { get = get_cached; set = λ k resp ttl s. (set_cached k resp ttl s).1 }
