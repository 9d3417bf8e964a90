-- ===== src/Chat/Stream/Frames.antt =====
-- The frames of a streamed answer, beside what they ought to be.
use x_beacon.Prelude.{
  ℕ, suc, ◌≡◌, refl, sym, ap, ◌∙◌, Bool, true, false, ◌&&◌, not, ◌==◌, Option, none, some,
  Option-cases, Bool-cases, String, List, [], ◌∷◌, ◌++◌, append-nil, inl, inr, if◌then◌else◌,
  if-cases, and_true,
}
use x_beacon.Prelude.Int.{ℤ}
use x_beacon.Errors.{Err}
use x_beacon.Errors.Http.{MappedError, map_provider_error}
use x_beacon.Errors.Http.Laws.{map_provider_error-failure}
use x_beacon.Wire.{ChatStreamChunk}
use x_beacon.Router.Stream.{StreamEvent, chunk, failed}
use x_beacon.Chat.Stats.{StreamStats, observe}
use x_beacon.Chat.Replay.{Sent, sent_chunk, sent_error, sent_done}
use x_beacon.Chat.Effects.{Client}
use x_beacon.Chat.Stream.{Streamed, stream_loop, emit_stream_error, end_marker, ended, after_chunk}

-- The frames that a stream stands for: its chunks, up to the first that has failed or cannot be
-- encoded, and then one envelope or the marker.
abbrev pub wire_frames :
    (ℤ → ℕ) → (ChatStreamChunk → Option Err) → List (StreamEvent ChatStreamChunk) → List Sent
wire_frames seconds encode_error [] = sent_done ∷ []
wire_frames seconds encode_error (failed e ∷ events) =
    sent_error (map_provider_error seconds e) ∷ []
wire_frames seconds encode_error (chunk ch ∷ events) =
    let rest = wire_frames seconds encode_error events in
    elim (encode_error ch) [
      | none ↦ sent_chunk ch ∷ rest
      | some e ↦ sent_error (map_provider_error seconds e) ∷ []
    ]

module _ (seconds : ℤ → ℕ) (c : Client) where
  abbrev frames_of : Streamed → List Sent
  frames_of r = r.sent ++ end_marker seconds c r

  abbrev wire : List (StreamEvent ChatStreamChunk) → List Sent
  wire = wire_frames seconds c.encode_error

  wire_chunk :
      (ch : ChatStreamChunk) (events : List (StreamEvent ChatStreamChunk))
      → c.encode_error ch ≡ none
      → wire_frames seconds c.encode_error (chunk ch ∷ events)
        ≡ sent_chunk ch ∷ wire_frames seconds c.encode_error events
  wire_chunk ch events fine =
      ap
        (λ (o : Option Err). elim o [
          | none ↦ sent_chunk ch ∷ wire_frames seconds c.encode_error events
          | some e ↦ sent_error (map_provider_error seconds e) ∷ []
        ])
        fine

  wire_unencoded :
      (ch : ChatStreamChunk) (events : List (StreamEvent ChatStreamChunk)) (e : Err)
      → c.encode_error ch ≡ some e
      → wire_frames seconds c.encode_error (chunk ch ∷ events)
        ≡ sent_error (map_provider_error seconds e) ∷ []
  wire_unencoded ch events e bad =
      ap
        (λ (o : Option Err). elim o [
          | none ↦ sent_chunk ch ∷ wire_frames seconds c.encode_error events
          | some e ↦ sent_error (map_provider_error seconds e) ∷ []
        ])
        bad

  -- a stream that has failed has no marker
  no_marker : (r : Streamed) → (r.final_status == 200) ≡ false → frames_of r ≡ r.sent
  unfolding end_marker
  no_marker r h = elim (Bool-cases c.gone_at_end) [
    | inl y ↦ rw y (append-nil r.sent)
    | inr n ↦ rw (n, h) (append-nil r.sent)
  ]

  -- the end of a stream by an error
  error_frame : ℕ → Err → List Sent
  error_frame i e = if c.writes i then sent_error (map_provider_error seconds e) ∷ [] else []

  emitted :
      (i : ℕ) (s : StreamStats) (e : Err) (status : ℕ) (code : String)
      → (status == 200) ≡ false
      → frames_of (emit_stream_error seconds c i s e status code) ≡ error_frame i e
  unfolding error_frame emit_stream_error
  emitted i s e status code h = no_marker (emit_stream_error seconds c i s e status code) h

  -- With a connection that takes every frame and a client that stays, the client gets the frames
  -- that the stream stands for: all chunks, and then the marker or one error.
  pub stream_loop-frames :
      ((i : ℕ) → c.writes i ≡ true)
      → c.gone_at_end ≡ false
      → (i : ℕ) (s : StreamStats) (events : List (StreamEvent ChatStreamChunk))
      → Streamed.sent (stream_loop seconds c i s events)
          ++ end_marker seconds c (stream_loop seconds c i s events)
        ≡ wire_frames seconds c.encode_error events
  unfolding stream_loop ended after_chunk error_frame end_marker
  stream_loop-frames writes stays i s [] = rw (stays, writes i) refl
  stream_loop-frames writes stays i s (failed e ∷ events) =
      emitted i s e _ (MappedError.code (map_provider_error seconds e))
        (map_provider_error-failure seconds e)
      ∙ rw (writes i) refl
  stream_loop-frames writes stays i s (chunk ch ∷ events) =
      elim (Option-cases (c.encode_error ch)) [
        | inl fine ↦ rw (wire_chunk ch events fine) (
            rw (fine, writes i)
              (ap (λ l. sent_chunk ch ∷ l)
                (stream_loop-frames writes stays (suc i) (observe ch s) events)))
        | inr (e, bad) ↦
            rw (wire_unencoded ch events e bad)
              (rw bad (emitted i (observe ch s) e 500 "internal_error" refl ∙ rw (writes i) refl))
      ]

  error-prefix :
      (i : ℕ) (s : StreamStats) (e : Err) (status : ℕ) (code : String)
      → (status == 200) ≡ false
      → (lost : List Sent) × (frames_of (emit_stream_error seconds c i s e status code) ++ lost
          ≡ sent_error (map_provider_error seconds e) ∷ [])
  unfolding error_frame
  error-prefix i s e status code h = rw (emitted i s e status code h) (
      if-cases
        (λ l. (lost : List Sent) × (l ++ lost ≡ sent_error (map_provider_error seconds e) ∷ []))
        (c.writes i) (λ y. ([], refl))
        (λ n. (sent_error (map_provider_error seconds e) ∷ [], refl)))

  lost_marker :
      (i : ℕ) (s : StreamStats)
      → c.writes i ≡ false
      → end_marker seconds c (ended seconds c i s) ≡ []
  unfolding end_marker ended
  lost_marker i s h =
      if-cases (λ l. l ≡ []) (not c.gone_at_end && true && c.writes i)
        (λ y.
          let written : c.writes i ≡ true =
            (and_true (not c.gone_at_end && true) (c.writes i) y).1 in
          let h' : ◌≡◌ {A = Bool} true false = sym written ∙ h in cc)
        (λ n. refl)

  -- Once a frame is lost, all are. Then what the client has got is the beginning of what the stream
  -- stands for, whenever it leaves.
  stream_loop-prefix :
      ((i : ℕ) → c.writes i ≡ false → c.writes (suc i) ≡ false)
      → (i : ℕ) (s : StreamStats) (events : List (StreamEvent ChatStreamChunk))
      → (lost : List Sent) × ((Streamed.sent (stream_loop seconds c i s events)
              ++ end_marker seconds c (stream_loop seconds c i s events))
            ++ lost
          ≡ wire_frames seconds c.encode_error events)
  unfolding stream_loop ended after_chunk error_frame end_marker
  stream_loop-prefix dead i s [] =
      if-cases (λ l. (lost : List Sent) × (l ++ lost ≡ sent_done ∷ []))
        (not c.gone_at_end && true && c.writes i) (λ y. ([], refl)) (λ n. (sent_done ∷ [], refl))
  stream_loop-prefix dead i s (failed e ∷ events) =
      error-prefix i s e _ (MappedError.code (map_provider_error seconds e))
        (map_provider_error-failure seconds e)
  stream_loop-prefix dead i s (chunk ch ∷ events) = elim (Option-cases (c.encode_error ch)) [
    | inl fine ↦ rw (wire_chunk ch events fine) (elim (Bool-cases (c.writes i)) [
      | inl y ↦
          let (lost, e) = stream_loop-prefix dead (suc i) (observe ch s) events in
          rw (fine, y) (lost, ap (λ l. sent_chunk ch ∷ l) e)
      | inr n ↦
          rw (fine, n)
            (
              sent_chunk ch ∷ wire events,
              ap (λ l. l ++ sent_chunk ch ∷ wire events)
                  (lost_marker (suc i) (observe ch s) (dead i n)),
            )
    ])
    | inr (e, bad) ↦
        rw (wire_unencoded ch events e bad)
          (rw bad (error-prefix i (observe ch s) e 500 "internal_error" refl))
  ]
