-- ===== src/Adapters/Openai/Laws.antt =====
-- The stream reader of openai/stream.go, beside the frames that server/sse/writer.go writes.
use Prim.Native.String.{◌++◌ as append}
use x_beacon.Prelude.{
  ℕ, suc, ◌≡◌, refl, false, Result, ok, err, none, Option-cases, String, List, [], ◌∷◌, ◌++◌,
  str_eq, if-cases, inl, inr,
}
use x_beacon.Wire.{ChatStreamChunk}
use x_beacon.Router.Stream.{StreamEvent, chunk}
use x_beacon.Adapters.Sse.{payload_of, Conn, data_lines, comment_lines}
use x_beacon.Adapters.Sse.Laws.{FailsLast, send_event-FailsLast, end_of_lines-FailsLast}
use x_beacon.Adapters.Openai.{StreamWirePayload, read_sse, after_decode}

-- what a server writes before the marker: chunks, and comments to keep the connection
pub data Frame : Type 0 where
  keepalive : String → Frame
  event : ChatStreamChunk → Frame

abbrev pub lines_of : (ChatStreamChunk → String) → List Frame → List String
lines_of encode [] = []
lines_of encode (keepalive text ∷ frames) = comment_lines text ++ lines_of encode frames
lines_of encode (event ch ∷ frames) = data_lines (encode ch) ++ lines_of encode frames

abbrev pub chunks_of : List Frame → List (StreamEvent ChatStreamChunk)
chunks_of [] = []
chunks_of (keepalive text ∷ frames) = chunks_of frames
chunks_of (event ch ∷ frames) = chunk ch ∷ chunks_of frames

abbrev count_events : List Frame → ℕ
count_events [] = 0
count_events (keepalive text ∷ frames) = count_events frames
count_events (event ch ∷ frames) = suc (count_events frames)

module _ (name : String) (decode : String → Result String StreamWirePayload) (c : Conn) where
  decoded-FailsLast :
      (i : ℕ) (r : Result String StreamWirePayload) (rest : List (StreamEvent ChatStreamChunk))
      → FailsLast rest
      → FailsLast (after_decode name decode c i r rest)
  unfolding after_decode
  decoded-FailsLast i (err why) rest h = send_event-FailsLast c i _ [] refl
  decoded-FailsLast i (ok payload) rest h = elim (Option-cases payload.error) [
    | inl fine ↦ rw fine (send_event-FailsLast c i (chunk payload.chunk_part) rest h)
    | inr (e, broken) ↦ rw broken (send_event-FailsLast c i _ [] refl)
  ]

  -- Whatever comes over the connection, the reader sends at most one error, and nothing after it.
  read_sse-FailsLast : (lines : List String) (i : ℕ) → FailsLast (read_sse name decode c i lines)
  unfolding read_sse
  read_sse-FailsLast [] i = end_of_lines-FailsLast c name _ i
  read_sse-FailsLast (line ∷ lines) i = elim (Option-cases (payload_of line)) [
    | inl skipped ↦ rw (skipped, read_sse) (read_sse-FailsLast lines i)
    | inr (body, found) ↦
        rw (found, read_sse)
          (if-cases FailsLast (str_eq body "[DONE]") (λ y. tt)
            (λ n. decoded-FailsLast i (decode body) _ (read_sse-FailsLast lines (suc i))))
  ]

  -- what the codec makes of the chunks of these frames
  abbrev pub AreCoded : (ChatStreamChunk → String) → List Frame → Type 0
  AreCoded encode [] = Unit
  AreCoded encode (keepalive text ∷ frames) = AreCoded encode frames
  AreCoded encode (event ch ∷ frames) =
      (decode (encode ch) ≡ ok (record { chunk_part = ch; error = none }))
      × (str_eq (encode ch) "[DONE]" ≡ false)
      × AreCoded encode frames
