-- ===== src/Chat/Handler/Stores.antt =====
-- What the handler writes to the cache.
use x_beacon.Prelude.{
  ◌≡◌, refl, Bool, true, false, Option, none, some, String, List, [], ◌∷◌, ◌++◌, str_eq,
}
use x_beacon.Prelude.Int.{ℤ, pos, ltz}
use x_beacon.Wire.{ChatRequest, ChatResponse}
use x_beacon.Chat.Request.{Body}
use x_beacon.Chat.Replay.{Sent}
use x_beacon.Chat.Effects.{
  BillingEvent, Effect, header, retry_after, error_reply, json_reply, sse_reply, asked, stored,
  billed, Services, Client, Out, emit_billing_event,
}
use x_beacon.Chat.Handler.{chat_completions}
use x_beacon.Chat.Handler.Shapes.{
  Kept, not_kept, kept, Upstream, asked_error, asked_answer, asked_stream, unflushed, IsWhole,
  Unfailed, is_answer, outcome,
}
use x_beacon.Chat.Handler.Laws.{is_header, IsKeyOf, unkeyed, keyed}

-- a write behind a call of the router with request `q` and an answer by these frames, if by any
pub record Stored (sv : Services) (q : Option ChatRequest) (frames : List Sent) (key : String)
    (resp : ChatResponse) (ttl : ℤ) : Type 0 where
  pub request : ChatRequest
  pub was_asked : q ≡ some request
  pub key_is : Services.cache_key sv request ≡ some key
  pub lives : ltz (pos 0) ttl ≡ true
  pub whole : IsWhole resp
  pub unfailed : Unfailed frames

-- Every write is one of those.
abbrev pub StoresWell : Services → Option ChatRequest → List Sent → List Effect → Type 0
StoresWell sv q frames [] = Unit
StoresWell sv q frames (asked req ∷ es) = StoresWell sv (some req) frames es
StoresWell sv q frames (sse_reply l ∷ es) = StoresWell sv q l es
StoresWell sv q frames (stored key resp ttl ∷ es) =
    Stored sv q frames key resp ttl × StoresWell sv q frames es
StoresWell sv q frames (header k v ∷ es) = StoresWell sv q frames es
StoresWell sv q frames (retry_after n ∷ es) = StoresWell sv q frames es
StoresWell sv q frames (error_reply m ∷ es) = StoresWell sv q frames es
StoresWell sv q frames (json_reply r ∷ es) = StoresWell sv q frames es
StoresWell sv q frames (billed ev ∷ es) = StoresWell sv q frames es

module _ (sv : Services) where
  header-StoresWell :
      (e : Effect) (es : List Effect)
      → is_header e ≡ true
      → StoresWell sv none [] es
      → StoresWell sv none [] (e ∷ es)
  header-StoresWell (header k v) es h w = w
  header-StoresWell (retry_after n) es h w = w
  header-StoresWell (error_reply m) es h w = cc
  header-StoresWell (json_reply r) es h w = cc
  header-StoresWell (sse_reply l) es h w = cc
  header-StoresWell (asked r) es h w = cc
  header-StoresWell (stored k r t) es h w = cc
  header-StoresWell (billed ev) es h w = cc

  answer-StoresWell : (e : Effect) → is_answer e ≡ true → StoresWell sv none [] (e ∷ [])
  answer-StoresWell (error_reply m) h = tt
  answer-StoresWell (json_reply r) h = tt
  answer-StoresWell (sse_reply l) h = tt
  answer-StoresWell (header k v) h = cc
  answer-StoresWell (retry_after n) h = cc
  answer-StoresWell (asked r) h = cc
  answer-StoresWell (stored k r t) h = cc
  answer-StoresWell (billed ev) h = cc

  row-StoresWell :
      (q : Option ChatRequest) (frames : List Sent) (bill : Bool) (ev : BillingEvent)
      → StoresWell sv q frames (emit_billing_event bill ev)
  unfolding emit_billing_event
  row-StoresWell q frames true ev = tt
  row-StoresWell q frames false ev = tt

  key_of_request :
      {c : Client} {req : ChatRequest} {key : String}
      → IsKeyOf sv c req key
      → str_eq key "" ≡ false
      → Services.cache_key sv req ≡ some key
  key_of_request unkeyed h = cc
  key_of_request (keyed key k) h = k

  Kept-StoresWell :
      {c : Client} {req : ChatRequest} {key : String} {resp : ChatResponse} {es : List Effect}
      (frames : List Sent) (ev : BillingEvent)
      → IsKeyOf sv c req key
      → Kept (Services.cache_ttl sv) key resp (IsWhole resp × Unfailed frames) es
      → StoresWell sv (some req) frames (es ++ emit_billing_event (Services.bill sv) ev)
  Kept-StoresWell frames ev k not_kept = row-StoresWell _ frames (Services.bill sv) ev
  Kept-StoresWell frames ev k (kept named lives (whole, unfailed)) = (
    record {
      request = _;
      was_asked = refl;
      key_is = key_of_request k named;
      lives = lives;
      whole = whole;
      unfailed = unfailed;
    },
    row-StoresWell _ frames (Services.bill sv) ev,
  )

  with_no_frames :
      {ttl : ℤ} {key : String} {resp : ChatResponse} {es : List Effect}
      → Kept ttl key resp (IsWhole resp) es
      → Kept ttl key resp (IsWhole resp × Unfailed []) es
  with_no_frames not_kept = not_kept
  with_no_frames (kept n l whole) = kept n l (whole, refl)

  Upstream-StoresWell :
      (c : Client) (key : String) (req : ChatRequest) (es : List Effect)
      → IsKeyOf sv c req key
      → Upstream sv c key req es
      → StoresWell sv none [] es
  Upstream-StoresWell c key req _ k (asked_error m ev) = row-StoresWell _ [] (Services.bill sv) ev
  Upstream-StoresWell c key req _ k (asked_answer resp ev kept_es) =
      Kept-StoresWell [] ev k (with_no_frames kept_es)
  Upstream-StoresWell c key req _ k (asked_stream frames resp ev kept_es) =
      Kept-StoresWell frames ev k kept_es
  Upstream-StoresWell c key req _ k (unflushed m unable) = tt

-- Whatever comes in, the handler writes to the cache only behind a call of the router: under the
-- key of the very request that was sent upstream, for a time to live above 0, and only an answer
-- that has ended with "stop" and says something; a stream whose frames hold an error is not kept.
pub chat_completions-StoresWell :
    (sv : Services) (c : Client) (body : Body) (w : Services.W sv)
    → StoresWell sv none [] (Out.effects (chat_completions sv c body w))
chat_completions-StoresWell sv c =
    outcome sv c (StoresWell sv none []) (header-StoresWell sv) (λ m. tt)
      (λ e h. answer-StoresWell sv e h) (λ key req es k u. Upstream-StoresWell sv c key req es k u)
