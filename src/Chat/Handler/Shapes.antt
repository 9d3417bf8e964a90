-- ===== src/Chat/Handler/Shapes.antt =====
-- What a request does that has come as far as the router: the shapes of its effects.
use x_beacon.Prelude.{
  suc, str_eq_iff, if-cases, and_true, Option-cases, ℕ, ◌≡◌, refl, sym, ap, ◌∙◌, Bool, true, false,
  ◌&&◌, not, ◌==◌, Result, ok, err, Option, none, some, String, List, [], ◌∷◌, ◌++◌, any, inl, inr,
  Bool-cases, str_eq,
}
use x_beacon.Prelude.Int.{ℤ, pos, ltz, lez}
use x_beacon.Errors.{Err}
use x_beacon.Errors.Http.{MappedError}
use x_beacon.Wire.{Choice, ChatRequest, ChatResponse, ChatStreamChunk}
use x_beacon.Router.Stream.{StreamEvent, chunk, failed}
use x_beacon.Errors.Http.Laws.{map_provider_error-failure}
use x_beacon.Chat.Request.{Body}
use x_beacon.Chat.Stats.{
  no_stats, StreamStats, observe, to_cached_response, token_counts, should_cache_response,
  cacheable_choices, has_content,
}
use x_beacon.Chat.Replay.{Sent, sent_chunk, sent_error, sent_done}
use x_beacon.Chat.Effects.{
  BillingEvent, Effect, header, error_reply, json_reply, sse_reply, asked, stored, billed, Exact,
  Services, Client, Out, emit_billing_event,
}
use x_beacon.Chat.Stream.{
  Streamed, after_stream, end_marker, emit_stream_error, store, store_stream, serve_stream,
  handle_chat_stream, refused_upstream, stream_loop,
}
use x_beacon.Chat.Handler.{answer_cached, answer_chat, after_chat, ask_upstream, chat_completions}
use x_beacon.Chat.Handler.Laws.{is_header, IsKeyOf, every_outcome}

abbrev pub is_answer : Effect → Bool
is_answer (error_reply m) = true
is_answer (json_reply r) = true
is_answer (sse_reply l) = true
is_answer _ = false

abbrev pub is_asked : Effect → Bool
is_asked (asked r) = true
is_asked _ = false

abbrev pub is_billed : Effect → Bool
is_billed (billed ev) = true
is_billed _ = false

-- an answer that is fit for the cache: it has ended of itself, and says something
pub record IsWhole (resp : ChatResponse) : Type 0 where
  pub choice : Choice
  pub others : List Choice
  pub choices_are : resp.choices ≡ choice ∷ others
  pub has_ended : choice.finish_reason ≡ "stop"
  pub says : has_content resp.choices ≡ true

IsWhole-choices :
    (resp : ChatResponse) (prompt : ℤ) (l : List Choice)
    → resp.choices ≡ l
    → cacheable_choices prompt l ≡ true
    → IsWhole resp
unfolding cacheable_choices
IsWhole-choices resp prompt [] e h = cc
IsWhole-choices resp prompt (x ∷ l) e h = elim (Bool-cases (lez prompt (pos 0))) [
  | inl free ↦ let h' : ◌≡◌ {A = Bool} false true = rw free at h in cc
  | inr paid ↦ elim (Bool-cases (str_eq x.finish_reason "stop")) [
    | inl stop ↦ record {
      choice = x;
      others = l;
      choices_are = e;
      has_ended = (str_eq_iff x.finish_reason "stop").0 stop;
      says = ap has_content e ∙ (let h' : has_content (x ∷ l) ≡ true = rw (paid, stop) at h in h');
    }
    | inr n ↦ let h' : ◌≡◌ {A = Bool} false true = rw (paid, n) at h in cc
  ]
]

should_cache-IsWhole :
    (resp : ChatResponse) (prompt : ℤ) → should_cache_response resp prompt ≡ true → IsWhole resp
unfolding should_cache_response
should_cache-IsWhole resp prompt h = IsWhole-choices resp prompt resp.choices refl h

-- the effects of a write-back
pub data Kept (ttl : ℤ) (key : String) (resp : ChatResponse) (Fit : Type 0)
    : List Effect → Type 0 where
  not_kept : Kept ttl key resp Fit []
  kept :
      str_eq key "" ≡ false
      → ltz (pos 0) ttl ≡ true
      → Fit
      → Kept ttl key resp Fit (stored key resp ttl ∷ [])

-- the frames of a stream that has not failed
abbrev pub is_error_frame : Sent → Bool
is_error_frame (sent_error m) = true
is_error_frame _ = false

abbrev pub Unfailed : List Sent → Type 0
Unfailed frames = any is_error_frame frames ≡ false

-- the effects of a request that has come as far as the router
pub data Upstream (sv : Services) (c : Client) (key : String) (req : ChatRequest)
    : List Effect → Type 0 where
  asked_error :
      (m : MappedError) (ev : BillingEvent)
      → Upstream sv c key req (asked req ∷ error_reply m ∷ emit_billing_event (Services.bill sv) ev)
  asked_answer :
      (resp : ChatResponse) (ev : BillingEvent) {es : List Effect}
      → Kept (Services.cache_ttl sv) key resp (IsWhole resp) es
      → Upstream sv c key req
          (asked req ∷ json_reply resp ∷ (es ++ emit_billing_event (Services.bill sv) ev))
  asked_stream :
      (frames : List Sent) (resp : ChatResponse) (ev : BillingEvent) {es : List Effect}
      → Kept (Services.cache_ttl sv) key resp (IsWhole resp × Unfailed frames) es
      → Upstream sv c key req
          (asked req ∷ sse_reply frames ∷ (es ++ emit_billing_event (Services.bill sv) ev))
  unflushed :
      (m : MappedError) → c.flushes ≡ false → Upstream sv c key req (asked req ∷ error_reply m ∷ [])

module _ (sv : Services) (c : Client) where
  open sv use {W}

  store-Kept :
      (o : Option (Exact W)) (key : String) (resp : ChatResponse) (w : W) {Fit : Type 0}
      → Fit
      → Kept (Services.cache_ttl sv) key resp Fit (Out.effects (store sv c o key resp w))
  unfolding store
  store-Kept none key resp w fit = not_kept
  store-Kept (some e) key resp w fit = elim (Bool-cases (str_eq key "")) [
    | inl empty ↦ rw empty not_kept
    | inr has_key ↦ elim (Bool-cases (ltz (pos 0) (Services.cache_ttl sv))) [
      | inl y ↦ rw (has_key, y) (kept has_key y fit)
      | inr n ↦ rw (has_key, n) not_kept
    ]
  ]

  loop-Unfailed :
      (i : ℕ) (s : StreamStats) (events : List (StreamEvent ChatStreamChunk))
      → let r = stream_loop (Services.seconds sv) c i s events in
        (r.final_status == 200) ≡ true → Unfailed r.sent
  unfolding stream_loop emit_stream_error
  loop-Unfailed i s [] h = refl
  loop-Unfailed i s (failed e ∷ events) h =
      let h' : ◌≡◌ {A = Bool} false true =
        sym (map_provider_error-failure (Services.seconds sv) e) ∙ h in
      cc
  loop-Unfailed i s (chunk ch ∷ events) h = elim (Option-cases (c.encode_error ch)) [
    | inl fine ↦ elim (Bool-cases (c.writes i)) [
      | inl y ↦
          rw (fine, y)
            (loop-Unfailed (suc i) (observe ch s) events (
              let h' : (Streamed.final_status
                      (stream_loop (Services.seconds sv) c (suc i) (observe ch s) events)
                    == 200)
                  ≡ true =
                rw (fine, y) at h in
              h'))
      | inr n ↦ rw (fine, n) refl
    ]
    | inr (e, bad) ↦ let h' : ◌≡◌ {A = Bool} false true = rw bad at h in cc
  ]

  marked-Unfailed :
      (sent : List Sent) (r : Streamed)
      → Unfailed sent
      → Unfailed (sent ++ end_marker (Services.seconds sv) c r)
  unfolding end_marker
  marked-Unfailed [] r h =
      elim (Bool-cases (not c.gone_at_end && (r.final_status == 200) && c.writes r.next)) [
        | inl y ↦ rw y refl
        | inr n ↦ rw n refl
      ]
  marked-Unfailed (sent_chunk ch ∷ sent) r h = marked-Unfailed sent r h
  marked-Unfailed (sent_done ∷ sent) r h = marked-Unfailed sent r h
  marked-Unfailed (sent_error m ∷ sent) r h = cc

  stream-Kept :
      (key : String) (req : ChatRequest) (events : List (StreamEvent ChatStreamChunk)) (prompt : ℤ)
      (w : W)
      → let r = stream_loop (Services.seconds sv) c 0 no_stats events in
        let resp = to_cached_response c.now req r.stats in
        let frames = r.sent ++ end_marker (Services.seconds sv) c r in
        Kept
          (Services.cache_ttl sv)
          key
          resp
          (IsWhole resp × Unfailed frames)
          (Out.effects (store_stream sv c key req r prompt w))
  unfolding store_stream
  stream-Kept key req events prompt w =
      let r = stream_loop (Services.seconds sv) c 0 no_stats events in
      let resp = to_cached_response c.now req r.stats in
      let frames = r.sent ++ end_marker (Services.seconds sv) c r in
      if-cases {A = Out W}
        (λ o.
          Kept (Services.cache_ttl sv) key resp (IsWhole resp × Unfailed frames) (Out.effects o))
        ((r.final_status == 200) && not c.gone_at_store && should_cache_response resp prompt)
        (λ h.
          let (clear, fit) = and_true _ _ h in
          let (clean, here) = and_true _ _ clear in
          store-Kept (Services.exact_cache sv) key resp w (
            should_cache-IsWhole resp prompt fit,
            marked-Unfailed r.sent r (loop-Unfailed 0 no_stats events clean),
          ))
        (λ h. not_kept)

  stream-Upstream :
      (key : String) (req : ChatRequest) (r : Result Err (List (StreamEvent ChatStreamChunk)))
      (w : W)
      → Upstream sv c key req (Out.effects (after_stream sv c key req (r, w)))
  unfolding after_stream serve_stream refused_upstream
  stream-Upstream key req (err e) w = asked_error _ _
  stream-Upstream key req (ok events) w =
      if-cases {A = Out W} (λ o. Upstream sv c key req (Out.effects o)) c.flushes
        (λ y. asked_stream _ _ _ (stream-Kept key req events _ w)) (λ n. unflushed _ n)

  chat-Upstream :
      (key : String) (req : ChatRequest) (r : Result Err ChatResponse) (w : W)
      → Upstream sv c key req (Out.effects (after_chat sv c key req (r, w)))
  unfolding after_chat answer_chat refused_upstream
  chat-Upstream key req (err e) w = asked_error _ _
  chat-Upstream key req (ok resp) w =
      let prompt = (token_counts (Services.tokenizer sv) req resp).0 in
      elim (Bool-cases (should_cache_response resp prompt)) [
        | inl fit ↦ rw fit (
            asked_answer resp _ (
              store-Kept (Services.exact_cache sv) key resp w
                (should_cache-IsWhole resp prompt fit)))
        | inr unfit ↦ rw unfit (asked_answer resp _ not_kept)
      ]

  ask-Upstream :
      (key : String) (req : ChatRequest) (w : W)
      → Upstream sv c key req (Out.effects (ask_upstream sv c key req w))
  unfolding ask_upstream handle_chat_stream
  ask-Upstream key req w =
      if-cases {A = Out W} (λ o. Upstream sv c key req (Out.effects o)) req.stream
        (λ y.
          stream-Upstream key req (Services.chat_stream sv req w).0
            (Services.chat_stream sv req w).1)
        (λ n. chat-Upstream key req (Services.chat sv req w).0 (Services.chat sv req w).1)

  -- a property of effects that every outcome has: the ones of the handler itself, and the shapes
  -- of a call of the router
  pub outcome :
      (P : List Effect → Type 0)
      → ((e : Effect) (es : List Effect) → is_header e ≡ true → P es → P (e ∷ es))
      → ((m : MappedError) → P (error_reply m ∷ []))
      → ((e : Effect) → is_answer e ≡ true → P (header "X-X-Beacon-Cache" "hit" ∷ e ∷ []))
      → ((key : String) (req : ChatRequest) (es : List Effect)
          → IsKeyOf sv c req key
          → Upstream sv c key req es
          → P es)
      → (body : Body) (w : W) → P (Out.effects (chat_completions sv c body w))
  unfolding answer_cached
  outcome P with_header with_error with_hit with_upstream =
      every_outcome sv c P with_header with_error
        (λ req cached w.
          if-cases (λ e. P (header "X-X-Beacon-Cache" "hit" ∷ e ∷ [])) (not req.stream)
            (λ n. with_hit _ refl)
            (λ y.
              if-cases (λ e. P (header "X-X-Beacon-Cache" "hit" ∷ e ∷ [])) c.flushes
                (λ f. with_hit _ refl) (λ u. with_hit _ refl)))
        (λ key req w k. with_upstream key req _ k (ask-Upstream key req w))
