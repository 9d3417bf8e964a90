-- ===== src/Chat/Replay.antt =====
-- internal/server/chat_stream.go, replayCachedStream: a cached response sent as a stream.
pub mod Gather
pub mod Laws
use Prim.Native.String as Text
use Prim.Native.String.{◌++◌ as append}
use x_beacon.Prelude.{
  ℕ, zero, suc, ◌≡◌, Bool, true, false, Option, none, some, String, List, [], ◌∷◌, ◌++◌, str_eq,
  if◌then◌else◌,
}
use x_beacon.Prelude.Int.{ℤ, pos}
use x_beacon.Prelude.Runes.{take_runes, drop_runes}
use x_beacon.Wire.{Choice, Usage, ChatResponse, MessageDelta, StreamChoice, ChatStreamChunk}
use x_beacon.Errors.Http.{MappedError}
use x_beacon.Chat.Stats.{is_zero}

abbrev pub replay_chunk_runes : ℕ
replay_chunk_runes = 32

-- the slices of a content; the fuel is the number of its runes
unfoldable pub pieces : ℕ → String → List String
unfolding take_runes drop_runes
pieces zero s = []
pieces (suc fuel) Text.[] = []
pieces (suc fuel) (Text.◌∷◌ c s) =
    take_runes replay_chunk_runes (Text.◌∷◌ c s)
    ∷ pieces fuel (drop_runes replay_chunk_runes (Text.◌∷◌ c s))

abbrev pub no_delta : MessageDelta
no_delta = record { role = ""; content = ""; extra = [] }

unfoldable pub role_choices : List Choice → List StreamChoice
role_choices [] = []
role_choices (ch ∷ choices) =
    record { index = ch.index; delta = record no_delta { role = "assistant" }; finish_reason = "" }
    ∷ role_choices choices

unfoldable pub finish_choices : List Choice → List StreamChoice
finish_choices [] = []
finish_choices (ch ∷ choices) =
    record {
      index = ch.index;
      delta = no_delta;
      finish_reason = if str_eq ch.finish_reason "" then "stop" else ch.finish_reason;
    }
    ∷ finish_choices choices

-- id, created and model are those of every frame
abbrev pub frame : String → ℤ → String → List StreamChoice → Option Usage → ChatStreamChunk
frame id created model choices usage = record {
  id = id;
  object = "chat.completion.chunk";
  created = created;
  model = model;
  choices = choices;
  usage = usage;
}

abbrev pub content_choice : ℤ → String → StreamChoice
content_choice index piece = record {
  index = index;
  delta = record no_delta { content = piece };
  finish_reason = "";
}

module _ (id : String) (created : ℤ) (model : String) where
  unfoldable pub content_frames : ℤ → List String → List ChatStreamChunk
  content_frames index [] = []
  content_frames index (piece ∷ rest) =
      frame id created model (content_choice index piece ∷ []) none ∷ content_frames index rest

  unfoldable pub choice_frames : List Choice → List ChatStreamChunk
  unfolding content_frames
  choice_frames [] = []
  choice_frames (ch ∷ choices) =
      content_frames ch.index (pieces (Text.count ch.message.content) ch.message.content)
      ++ choice_frames choices

-- the frames in front of the marker
unfoldable pub replay_frames : ℤ → String → ChatResponse → List ChatStreamChunk
unfolding choice_frames role_choices finish_choices
replay_frames now req_id cached =
    let id = if str_eq cached.id "" then append "chatcmpl-cache-" req_id else cached.id in
    let created = if is_zero cached.created then now else cached.created in
    frame id created cached.model (role_choices cached.choices) none
    ∷ (choice_frames id created cached.model cached.choices
        ++ frame id created cached.model (finish_choices cached.choices) cached.usage ∷ [])

-- What goes over the wire, as a `data:` frame: a chunk, the envelope of an error, or the marker.
pub data Sent : Type 0 where
  sent_chunk : ChatStreamChunk → Sent
  sent_error : MappedError → Sent
  sent_done : Sent

-- The frames are written in their order, up to the first write that fails; `writes i` says whether
-- the i-th write succeeds.
unfoldable pub replay_write : (ℕ → Bool) → ℕ → List ChatStreamChunk → List Sent
replay_write writes i [] = if writes i then sent_done ∷ [] else []
replay_write writes i (c ∷ cs) =
    let rest = replay_write writes (suc i) cs in if writes i then sent_chunk c ∷ rest else []

-- replayCachedStream
unfoldable pub replay_cached_stream : (ℕ → Bool) → ℤ → String → ChatResponse → List Sent
replay_cached_stream writes now req_id cached =
    replay_write writes 0 (replay_frames now req_id cached)
