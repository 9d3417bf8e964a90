-- ===== src/Router/Stream/Tried.antt =====
-- The attempts of a streaming request have the shape of those of a plain one, but that the permit
-- of the successful call is kept; so the request keeps to the same rules.
use x_beacon.Prelude.{
  ℕ, zero, suc, ◌+◌, ◌<◌, ◌≡◌, refl, true, Result, ok, err, Option, none, some, String, List, [],
  ◌∷◌, map, arith, subst, ap, if◌then◌else◌, Bool-cases, Option-cases, Result-cases, inl, inr,
}
use x_beacon.Prelude.Int.{ℤ}
use x_beacon.Errors.{
  Err, is_breaker_error, is_retryable, breaker_observation, breaker-not-retryable,
}
use x_beacon.Router.Policy.{RetryPolicy, Float}
use x_beacon.Router.World.{World, Event, refused, called, observed}
use x_beacon.Router.Retry.{Run, Ended, before, ends, after_failure}
use x_beacon.Router.Retry.Tried.{Tried, turned_away, answered, rejected, fails}
use x_beacon.Router.Chain.{no_provider}
use x_beacon.Router.Chain.Routed.{Attempts, Request, along}
use x_beacon.Router.Chain.Routed.Events.{IsBalanced, successes, success_of, SettledLast, InOrder}
use x_beacon.Router.Chain.Routed.Order.{Facts, Request-Facts}
use x_beacon.Router.Stream.{
  StreamEvent, chunk, failed, Gone, gone_canceled, gone_deadline, ctx_err, Committed, first_event,
  close_attempt, stream_attempt_once, after_attempt, try_provider_stream, chat_completion_stream,
}

same :
    {R : Type 0} {x y : Err} → ◌≡◌ {A = Option (Result Err R)} (some (err x)) (some (err y)) → y ≡ x
same h = cc

-- one attempt
data Attempt {Resp : Type 0} (n : String) : Result Err Resp → List (Event Resp) → Type 0 where
  refusal : {e : Err} → is_breaker_error e ≡ true → Attempt n (err e) (refused n ∷ [])
  commitment : {s : Resp} → Attempt n (ok s) (called n (ok s) ∷ [])
  failure :
      {e : Err}
      → Attempt n (err e) (called n (err e) ∷ observed n (breaker_observation (some e)) ∷ [])

ctx_err_observation : (g : Gone) → breaker_observation (some (ctx_err g)) ≡ none
unfolding breaker_observation is_retryable ctx_err
ctx_err_observation gone_canceled = refl
ctx_err_observation gone_deadline = refl

module _ {P C : Type 0} (fl : Float) (env : World P (List (StreamEvent C)) fl)
    (peeked : env.W → Option Gone × env.W) where
  open env use {W, name, allow, call}

  abbrev AsAttempt : P → Run (Committed C) W → Type 0
  AsAttempt p run = Ended (Attempt (name p)) run

  -- the close of an attempt, whose error is the context's if the context is done
  closes :
      (p : P) (g : Option Gone) (ch : List (StreamEvent C)) (w : W)
      → AsAttempt p
          (close_attempt fl env peeked (name p) g (first_event fl env peeked (name p) g ch) w)
  unfolding close_attempt first_event
  closes p (some g) ch w = record {
    result = err (ctx_err g);
    returned = refl;
    shape =
        subst
          (λ o.
            Attempt {Resp = Committed C} (name p) (err (ctx_err g))
              (called (name p) (err (ctx_err g)) ∷ observed (name p) o ∷ []))
          (ctx_err_observation g) failure;
  }
  closes p none [] w = record { result = _; returned = refl; shape = failure }
  closes p none (failed e ∷ rest) w = record { result = _; returned = refl; shape = failure }
  closes p none (chunk c ∷ rest) w = record { result = _; returned = refl; shape = commitment }

  attempts : (p : P) (w : W) → AsAttempt p (stream_attempt_once fl env peeked p w)
  unfolding stream_attempt_once
  attempts p w = elim (Option-cases (allow (name p) w).0) [
    | inr (e, no_permit) ↦
        rw (no_permit, stream_attempt_once)
          (record {
            result = err e;
            returned = refl;
            shape = refusal (env.refusal (name p) w no_permit);
          })
    | inl permit ↦
        rw (permit, stream_attempt_once)
          (elim (Result-cases (call p (allow (name p) w).1).0) [
            | inl (ch, good) ↦ rw good (closes p _ ch _)
            | inr (e, bad) ↦ rw bad (record { result = err e; returned = refl; shape = failure })
          ])
  ]

  module _ (pol : RetryPolicy) (start : ℤ) (p : P) where
    abbrev Good : ℕ → Run (Committed C) W → Type 0
    Good k run = Ended (Tried true pol.max_retries (name p) k) run

    -- an attempt that failed under a permit
    goes_on :
        (k : ℕ) (e : Err) (w : W) (next : W → Run (Committed C) W)
        → (k < pol.max_retries → (w' : W) → Good (k + 1) (next w'))
        → Good k (
            before fl env
              (called (name p) (err e) ∷ observed (name p) (breaker_observation (some e)) ∷ [])
              (if is_breaker_error e
                then ends fl env (err e) [] w
                else after_failure fl env pol start k e w next))
    goes_on k e w next ih = elim (Bool-cases (is_breaker_error e)) [
      | inr other ↦ rw other (fails fl env true pol start p k e w next ih)
      | inl breaker ↦ rw breaker (
          let final = breaker-not-retryable e breaker in
          let told : breaker_observation (some e) ≡ none = unfold breaker_observation in rw final in
          rw told (record { result = err e; returned = refl; shape = rejected final }))
    ]

    -- what follows an attempt; the run is given by its parts
    follows :
        (k : ℕ) (o : Option (Result Err (Committed C))) (r : Result Err (Committed C))
        (t : List (Event (Committed C))) (w : W) (next : W → Run (Committed C) W)
        → o ≡ some r
        → Attempt (name p) r t
        → (k < pol.max_retries → (w' : W) → Good (k + 1) (next w'))
        → Good k (
            after_attempt fl env peeked pol start k (record { out = o; trace = t; world = w }) next)
    unfolding after_attempt
    follows k none r t w next e a ih = cc
    follows k (some (ok s)) _ _ w next e commitment ih = record {
      result = _;
      returned = e;
      shape = answered;
    }
    follows k (some (ok s)) (err x) t w next e a ih = cc
    follows k (some (err x)) (ok s) t w next e a ih = cc
    follows k (some (err x)) (err y) _ w next e (refusal b) ih =
        let b' : is_breaker_error x ≡ true = cc (b, ap is_breaker_error (same e)) in
        rw b' (record { result = err x; returned = refl; shape = turned_away b' })
    follows k (some (err x)) (err y) _ w next e failure ih = rw (same e) (goes_on k x w next ih)

    tries :
        (fuel k : ℕ) (w : W)
        → pol.max_retries < k + fuel
        → 0 < fuel
        → Good k (try_provider_stream fl env peeked fuel pol start p k w)
    unfolding try_provider_stream
    tries zero k w enough some_fuel = absurd (omega arith)
    tries (suc fuel) k w enough some_fuel =
        let one = attempts p w in
        let run = stream_attempt_once fl env peeked p w in
        follows k run.out one.result run.trace run.world
          (λ w'. try_provider_stream fl env peeked fuel pol start p (k + 1) w') one.returned
          one.shape (λ room w'. tries fuel (k + 1) w' (omega arith) (omega arith))

module _ {P C : Type 0} (fl : Float) (env : World P (List (StreamEvent C)) fl)
    (peeked : env.W → Option Gone × env.W) (fuel : ℕ) (pol : RetryPolicy) (model : String)
    (ps : List P) (w : env.W) (enough : pol.max_retries < fuel) where
  abbrev stream_request : Run (Committed C) env.W
  stream_request = chat_completion_stream fl env peeked fuel pol model ps w

  -- A streaming request always ends with a stream or an error, if the fuel is more than
  -- MaxRetries; what was done before is as for a plain request, and the permit of the call that
  -- gave the stream is still held.
  pub chat_completion_stream-Ended :
      Ended (Request true pol.max_retries model (map env.name ps)) stream_request
  unfolding chat_completion_stream
  chat_completion_stream-Ended = ended ps
    where
      ended :
          (qs : List P)
          → Ended
              (Request true pol.max_retries model (map env.name qs))
              (chat_completion_stream fl env peeked fuel pol model qs w)
      ended [] = record { result = err (no_provider model); returned = refl; shape = (refl, refl) }
      ended (q ∷ qs) =
          let (start, w') = env.now w in
          along fl env pol start (Attempts true pol.max_retries) _
            (λ r v. tries fl env peeked pol start r fuel 0 v (omega arith) (omega arith)) q qs w'

  stream-Facts :
      (r : Result Err (Committed C)) × (stream_request.out ≡ some r)
      × Facts true (map env.name ps) r stream_request.trace
  stream-Facts =
      let run = chat_completion_stream-Ended in
      (run.result, run.returned, Request-Facts true pol.max_retries model _ _ _ run.shape)

  -- In the course of a streaming request at most one stream is committed to, and it is the one
  -- returned: once a first chunk has been received no provider is called any more, nor after an error
  -- that is neither retryable nor the breaker's. The
  -- permits of all calls but the committed one have been released, each right after its call, with
  -- the failure that the breaker counts; that of the committed call is held. The providers are
  -- tried in the order of the chain.
  pub chat_completion_stream_commits_once :
      (r : Result Err (Committed C)) × (stream_request.out ≡ some r)
      × (successes stream_request.trace ≡ success_of r)
      × SettledLast stream_request.trace
      × IsBalanced stream_request.trace true
      × InOrder (map env.name ps) stream_request.trace
  chat_completion_stream_commits_once =
      let (r, returned, f) = stream-Facts in
      (r, returned, f.delivered, f.settled, f.balanced, f.ordered)
