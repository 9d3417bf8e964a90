-- ===== src/Chat/Handler/Laws.antt =====
-- What a run of the handler may do: a principle to prove something of every run, from its outcomes.
use x_beacon.Prelude.{
  ◌≡◌, refl, Bool, true, false, Result, ok, err, Option-cases, Option, none, some, String, List, [],
  ◌∷◌, ◌++◌, All, All-append, inl, inr, Bool-cases,
}
use x_beacon.Prelude.Int.{pos, ltz}
use x_beacon.Errors.{Err}
use x_beacon.Errors.Http.{MappedError}
use x_beacon.Wire.{Message, ChatRequest, ChatResponse}
use x_beacon.Auth.{has_scope}
use x_beacon.Prompt.{Compression}
use x_beacon.RateLimit as Limit
use x_beacon.Route as Classify
use x_beacon.Chat.Request.{Body, read_chat_request}
use x_beacon.Chat.Effects.{Effect, header, retry_after, error_reply, Exact, Services, Client, Out}
use x_beacon.Chat.Handler.{
  apply_decision, with_key, after_get, Pending, miss, retry_after_header, route_request,
  compress_prompt, limit_tokens, look_up, answer_cached, ask_upstream, after_lookup, after_limit,
  after_prompt, after_reading, prepared, chat_completions,
}

abbrev pub is_header : Effect → Bool
is_header (header k v) = true
is_header (retry_after n) = true
is_header _ = false

abbrev IsHeader : Effect → Type 0
IsHeader e = is_header e ≡ true

prefixed :
    (P : List Effect → Type 0)
    → ((e : Effect) (es : List Effect) → is_header e ≡ true → P es → P (e ∷ es))
    → (hs es : List Effect) → All IsHeader hs
    → P es
    → P (hs ++ es)
prefixed P step [] es hh h = h
prefixed P step (e ∷ hs) es hh h = step e (hs ++ es) hh.0 (prefixed P step hs es hh.1 h)

module _ (sv : Services) (c : Client) where
  open sv use {W}

  -- the key that a request takes to the router
  pub data IsKeyOf (req : ChatRequest) : String → Type 0 where
    unkeyed : IsKeyOf req ""
    keyed : (key : String) → Services.cache_key sv req ≡ some key → IsKeyOf req key

  decision_headers :
      (req : ChatRequest) (d : Classify.Decision) (w : W)
      → All IsHeader (Pending.headers (apply_decision sv c req (d, w)))
  unfolding apply_decision
  decision_headers req d w = elim (Bool-cases (Classify.is_empty d)) [
    | inl empty ↦ rw empty tt
    | inr some_rule ↦ rw some_rule (refl, (refl, (refl, tt)))
  ]

  route_headers :
      (classify : Option (ChatRequest → W → Classify.Decision × W)) (req : ChatRequest) (w : W)
      → All IsHeader (Pending.headers (route_request sv c classify req w))
  unfolding route_request
  route_headers none req w = tt
  route_headers (some classify) req w =
      elim (Bool-cases (has_scope c.principal "smart_route" "disable")) [
        | inl out ↦ rw out (refl, tt)
        | inr in_arm ↦ rw in_arm (decision_headers req (classify req w).0 (classify req w).1)
      ]

  prompt_headers :
      (compress : Option (ChatRequest → Compression × List Message)) (p : Pending sv c)
      → All IsHeader p.headers
      → All IsHeader (Pending.headers (compress_prompt sv c compress p))
  unfolding compress_prompt
  prompt_headers none p h = h
  prompt_headers (some compress) p h =
      All-append IsHeader p.headers _ h
        (elim (Bool-cases (Compression.compressed (compress p.req).0)) [
          | inl y ↦ rw y (refl, tt)
          | inr n ↦ rw n tt
        ])

  module _ (P : List Effect → Type 0)
      (with_header : (e : Effect) (es : List Effect) → is_header e ≡ true → P es → P (e ∷ es))
      (with_error : (m : MappedError) → P (error_reply m ∷ []))
      (with_hit : (req : ChatRequest) (cached : ChatResponse) (w : W)
        → P (Out.effects (answer_cached sv c req cached w)))
      (with_upstream : (key : String) (req : ChatRequest) (w : W)
        → IsKeyOf req key
        → P (Out.effects (ask_upstream sv c key req w))) where
    missed :
        (key : String) (req : ChatRequest) (w : W)
        → IsKeyOf req key
        → P (Out.effects (after_lookup sv c req (miss key, w)))
    unfolding after_lookup
    missed key req w k = with_header _ _ refl (with_upstream key req w k)

    keyed_outcome :
        (req : ChatRequest) (key : String) (k : Services.cache_key sv req ≡ some key)
        (r : Result Err ChatResponse) (w : W)
        → P (Out.effects (after_lookup sv c req (after_get sv c key (r, w))))
    unfolding after_lookup after_get
    keyed_outcome req key k (ok cached) w = with_hit req cached w
    keyed_outcome req key k (err e) w = missed key req w (keyed key k)

    lookup_outcome :
        (req : ChatRequest) (o : Option (Exact W)) (w : W)
        → P (Out.effects (after_lookup sv c req (look_up sv c o req w)))
    unfolding after_lookup look_up with_key
    lookup_outcome req none w = with_upstream "" req w unkeyed
    lookup_outcome req (some e) w = elim (Option-cases (Services.cache_key sv req)) [
      | inl no_key ↦ rw no_key (missed "" req w unkeyed)
      | inr (key, k) ↦ rw k (keyed_outcome req key k (Exact.get e key w).0 (Exact.get e key w).1)
    ]

    limit_outcome :
        (req : ChatRequest) (o : Option Limit.Decision) (w : W)
        → P (Out.effects (after_limit sv c req (o, w)))
    unfolding after_limit retry_after_header
    limit_outcome req none w = lookup_outcome req (Services.exact_cache sv) w
    limit_outcome req (some d) w = elim (Bool-cases (ltz (pos 0) (Limit.Decision.retry_after d))) [
      | inl y ↦ rw y (with_header _ _ refl (with_error _))
      | inr n ↦ rw n (with_error _)
    ]

    prompt_outcome :
        (p : Pending sv c) → All IsHeader p.headers → P (Out.effects (after_prompt sv c p))
    unfolding after_prompt
    prompt_outcome p h =
        prefixed P with_header p.headers _ h
          (elim (Bool-cases (Services.resolves sv (ChatRequest.model p.req))) [
            | inl y ↦ rw y (
                let gate =
                  limit_tokens sv c (Services.rules sv) (Services.tokenizer sv) p.req p.world in
                limit_outcome p.req gate.0 gate.1)
            | inr n ↦ rw n (with_error _)
          ])

    read_outcome :
        (r : Result MappedError ChatRequest) (w : W) → P (Out.effects (after_reading sv c r w))
    unfolding after_reading prepared
    read_outcome (err m) w = with_error m
    read_outcome (ok req) w =
        prompt_outcome _
          (prompt_headers (Services.compressor sv) _ (route_headers (Services.classifier sv) req w))

    pub every_outcome : (body : Body) (w : W) → P (Out.effects (chat_completions sv c body w))
    unfolding chat_completions
    every_outcome body w = read_outcome (read_chat_request (Services.unmarshal sv) body) w
