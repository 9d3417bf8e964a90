-- ===== src/Chat/Handler/Accounting.antt =====
-- How a run of the handler accounts for itself: one answer, and one billing row for a call of the
-- router.
use x_beacon.Prelude.{
  ◌≤◌, ◌≡◌, refl, ◌∙◌, Bool, true, false, String, List, [], ◌∷◌, ◌++◌, count_if, arith,
}
use x_beacon.Prelude.Int.{ℤ}
use x_beacon.Wire.{ChatRequest, ChatResponse}
use x_beacon.Chat.Request.{Body}
use x_beacon.Chat.Effects.{
  BillingEvent, Effect, header, retry_after, error_reply, json_reply, sse_reply, asked, stored,
  billed, Services, Client, Out, emit_billing_event,
}
use x_beacon.Chat.Handler.{chat_completions}
use x_beacon.Chat.Handler.Shapes.{
  Kept, not_kept, kept, Upstream, asked_error, asked_answer, asked_stream, unflushed, is_answer,
  outcome,
}
use x_beacon.Chat.Handler.Laws.{is_header}

abbrev pub is_asked : Effect → Bool
is_asked (asked r) = true
is_asked _ = false

abbrev pub is_billed : Effect → Bool
is_billed (billed ev) = true
is_billed _ = false

-- the number of effects of a kind other than a write, behind the answer
count-Kept :
    (p : Effect → Bool) {ttl : ℤ} {key : String} {resp : ChatResponse} {Fit : Type 0}
    {es : List Effect}
    → ((key : String) (resp : ChatResponse) (ttl : ℤ) → p (stored key resp ttl) ≡ false)
    → Kept ttl key resp Fit es
    → (rows : List Effect) → count_if p (es ++ rows) ≡ count_if p rows
count-Kept p other not_kept rows = refl
count-Kept p other (kept k t fit) rows = rw (other _ _ _) (omega arith)

no_row :
    (p : Effect → Bool) (bill : Bool) (ev : BillingEvent)
    → p (billed ev) ≡ false
    → count_if p (emit_billing_event bill ev) ≡ 0
unfolding emit_billing_event
no_row p true ev h = rw h refl
no_row p false ev h = refl

one_row :
    (bill : Bool) (ev : BillingEvent)
    → bill ≡ true
    → count_if is_billed (emit_billing_event bill ev) ≡ 1
unfolding emit_billing_event
one_row true ev h = refl
one_row false ev h = cc

header_quiet :
    (e : Effect)
    → is_header e ≡ true
    → (is_answer e ≡ false) × (is_asked e ≡ false) × (is_billed e ≡ false)
header_quiet (header k v) h = (refl, refl, refl)
header_quiet (retry_after n) h = (refl, refl, refl)
header_quiet (error_reply m) h = cc
header_quiet (json_reply r) h = cc
header_quiet (sse_reply l) h = cc
header_quiet (asked r) h = cc
header_quiet (stored k r t) h = cc
header_quiet (billed ev) h = cc

answer_quiet : (e : Effect) → is_answer e ≡ true → (is_asked e ≡ false) × (is_billed e ≡ false)
answer_quiet (error_reply m) h = (refl, refl)
answer_quiet (json_reply r) h = (refl, refl)
answer_quiet (sse_reply l) h = (refl, refl)
answer_quiet (header k v) h = cc
answer_quiet (retry_after n) h = cc
answer_quiet (asked r) h = cc
answer_quiet (stored k r t) h = cc
answer_quiet (billed ev) h = cc

-- one answer, and at most one call of the router
abbrev OneAnswer : List Effect → Type 0
OneAnswer es = (count_if is_answer es ≡ 1) × (count_if is_asked es ≤ 1)

header-OneAnswer :
    (e : Effect) (es : List Effect) → is_header e ≡ true → OneAnswer es → OneAnswer (e ∷ es)
header-OneAnswer e es h one =
    let (a, b, d) = header_quiet e h in (rw a (omega (arith, one.0)), rw b (omega (arith, one.1)))

answer-OneAnswer : (e : Effect) → is_answer e ≡ true → OneAnswer (e ∷ [])
answer-OneAnswer e h = let (a, b) = answer_quiet e h in (rw h (omega arith), rw a (omega arith))

-- what follows the answer of the router
module _ (sv : Services) {key : String} {resp : ChatResponse} {Fit : Type 0} {es : List Effect}
    (k : Kept (Services.cache_ttl sv) key resp Fit es) (ev : BillingEvent) where
  behind_quiet :
      (p : Effect → Bool)
      → ((key : String) (resp : ChatResponse) (ttl : ℤ) → p (stored key resp ttl) ≡ false)
      → p (billed ev) ≡ false
      → count_if p (es ++ emit_billing_event (Services.bill sv) ev) ≡ 0
  behind_quiet p other quiet = count-Kept p other k _ ∙ no_row p (Services.bill sv) ev quiet

  behind_billed :
      Services.bill sv ≡ true
      → count_if is_billed (es ++ emit_billing_event (Services.bill sv) ev) ≡ 1
  behind_billed h = count-Kept is_billed (λ _ _ _. refl) k _ ∙ one_row (Services.bill sv) ev h

module _ (sv : Services) (c : Client) (key : String) (req : ChatRequest) where
  Upstream-OneAnswer : (es : List Effect) → Upstream sv c key req es → OneAnswer es
  Upstream-OneAnswer _ (asked_error m ev) = (
    omega (arith, no_row is_answer (Services.bill sv) ev refl),
    omega (arith, no_row is_asked (Services.bill sv) ev refl),
  )
  Upstream-OneAnswer _ (asked_answer resp ev k) = (
    omega (arith, behind_quiet sv k ev is_answer (λ _ _ _. refl) refl),
    omega (arith, behind_quiet sv k ev is_asked (λ _ _ _. refl) refl),
  )
  Upstream-OneAnswer _ (asked_stream frames resp ev k) = (
    omega (arith, behind_quiet sv k ev is_answer (λ _ _ _. refl) refl),
    omega (arith, behind_quiet sv k ev is_asked (λ _ _ _. refl) refl),
  )
  Upstream-OneAnswer _ (unflushed m unable) = (omega arith, omega arith)

  Upstream-billed :
      (bill : Services.bill sv ≡ true) (flushes : c.flushes ≡ true)
      → (es : List Effect) → Upstream sv c key req es
      → count_if is_billed es ≡ count_if is_asked es
  Upstream-billed bill flushes _ (asked_error m ev) =
      omega (arith, one_row (Services.bill sv) ev bill, no_row is_asked (Services.bill sv) ev refl)
  Upstream-billed bill flushes _ (asked_answer resp ev k) =
      omega (arith, behind_billed sv k ev bill, behind_quiet sv k ev is_asked (λ _ _ _. refl) refl)
  Upstream-billed bill flushes _ (asked_stream frames resp ev k) =
      omega (arith, behind_billed sv k ev bill, behind_quiet sv k ev is_asked (λ _ _ _. refl) refl)
  Upstream-billed bill flushes _ (unflushed m unable) = cc

-- The handler answers exactly once, whatever comes in and whatever the router, the cache, the
-- limiter, the classifier and the compressor do; and it calls the router at most once.
pub chat_completions-answers_once :
    (sv : Services) (c : Client) (body : Body) (w : Services.W sv)
    → (count_if is_answer (Out.effects (chat_completions sv c body w)) ≡ 1)
      × (count_if is_asked (Out.effects (chat_completions sv c body w)) ≤ 1)
chat_completions-answers_once sv c =
    outcome sv c OneAnswer header-OneAnswer (λ m. answer-OneAnswer (error_reply m) refl)
      (λ e h.
        header-OneAnswer (header "X-X-Beacon-Cache" "hit") (e ∷ []) refl (answer-OneAnswer e h))
      (λ key req es k u. Upstream-OneAnswer sv c key req es u)

-- With a billing worker, and a connection that can stream, a request has as many billing rows as
-- calls of the router: one for a request that went upstream, failures included, and none for one
-- that was refused before or answered from the cache.
pub chat_completions-billed :
    (sv : Services) (c : Client)
    → Services.bill sv ≡ true
    → c.flushes ≡ true
    → (body : Body) (w : Services.W sv)
    → count_if is_billed (Out.effects (chat_completions sv c body w))
      ≡ count_if is_asked (Out.effects (chat_completions sv c body w))
chat_completions-billed sv c bill flushes =
    outcome sv c (λ es. count_if is_billed es ≡ count_if is_asked es)
      (λ e es h same. let (a, b, d) = header_quiet e h in rw (b, d) (omega (arith, same)))
      (λ m. omega arith) (λ e h. let (a, b) = answer_quiet e h in rw (a, b) (omega arith))
      (λ key req es k u. Upstream-billed sv c key req bill flushes es u)
