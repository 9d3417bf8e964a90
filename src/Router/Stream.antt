-- ===== src/Router/Stream.antt =====
-- internal/router/router.go, ChatCompletionStream: the attempts up to the first chunk, and the
-- forwarding of the events after it. A provider's channel is the list of the events that it
-- carries until it is closed.
pub mod Tried
pub mod Forward
use x_beacon.Prelude.{
  ℕ, zero, suc, ◌+◌, ◌≡◌, Bool, true, false, Result, ok, err, Option, none, some, String, List, [],
  ◌∷◌, if◌then◌else◌,
}
use x_beacon.Prelude.Int.{ℤ}
use x_beacon.Errors.{
  Err, bare, upstream_error, new_upstream_error, upstream, canceled, deadline_exceeded,
  is_breaker_error, breaker_observation,
}
use x_beacon.Router.Policy.{RetryPolicy, Float}
use x_beacon.Router.World.{World, Event, refused, called, observed}
use x_beacon.Router.Retry.{Run, ends, before, after_failure}
use x_beacon.Router.Chain.{chain_loop, no_provider}

-- provider.StreamEvent, with chunks in `C`
pub data StreamEvent (C : Type 0) : Type 0 where
  chunk : C → StreamEvent C
  failed : Err → StreamEvent C

-- why a context is done
pub data Gone : Type 0 where
  gone_canceled gone_deadline : Gone

unfoldable pub ctx_err : Gone → Err
ctx_err gone_canceled = bare canceled
ctx_err gone_deadline = bare deadline_exceeded

-- A stream that is committed to: its provider, the first chunk, and the events behind it.
pub record Committed (C : Type 0) : Type 0 where
  pub provider : String
  pub first : C
  pub rest : List (StreamEvent C)

-- The answer of ChatCompletionStream is the channel; `peeked` says whether the context was done
-- before the channel's first event.
module _ {P C : Type 0} (fl : Float) (env : World P (List (StreamEvent C)) fl)
    (peeked : env.W → Option Gone × env.W) where
  open env use {W, name, allow, done, call, now}

  -- the select on the channel and on ctx.Done(), and the test of the first event
  first_event : String → Option Gone → List (StreamEvent C) → Result Err (Committed C)
  first_event n (some g) ch = err (ctx_err g)
  first_event n none [] =
      err (upstream_error (new_upstream_error n upstream 0 "stream closed before first event"))
  first_event n none (failed e ∷ rest) = err e
  first_event n none (chunk c ∷ rest) = ok (record { provider = n; first = c; rest = rest })

  -- what `done` is told where an attempt ends without a commitment
  attempt_observation : Option Gone → Err → Option Err
  attempt_observation (some g) e = none
  attempt_observation none e = breaker_observation (some e)

  -- the end of an attempt under a permit: a commitment keeps the permit
  close_attempt : String → Option Gone → Result Err (Committed C) → W → Run (Committed C) W
  unfolding attempt_observation
  close_attempt n g (ok s) w = ends fl env (ok s) (called n (ok s) ∷ []) w
  close_attempt n g (err e) w =
      let seen = attempt_observation g e in
      ends fl env (err e) (called n (err e) ∷ observed n seen ∷ []) (done n seen w)

  -- streamAttemptOnce
  stream_attempt_once : P → W → Run (Committed C) W
  unfolding first_event close_attempt
  stream_attempt_once p w =
      let (gate, w1) = allow (name p) w in
      elim gate [
        | some e ↦ ends fl env (err e) (refused (name p) ∷ []) w1
        | none ↦
            (let (r, w2) = call p w1 in
              elim r [
                | err e ↦ close_attempt (name p) none (err e) w2
                | ok ch ↦
                    (let (g, w3) = peeked w2 in
                      close_attempt (name p) g (first_event (name p) g ch) w3)
              ])
      ]

  -- what follows an attempt: the stream, or its error
  after_attempt :
      RetryPolicy → ℤ → ℕ → Run (Committed C) W → (W → Run (Committed C) W) → Run (Committed C) W
  after_attempt pol start attempt run again = elim run.out [
    | none ↦ run
    | some (ok s) ↦ run
    | some (err e) ↦ before fl env run.trace (
        if is_breaker_error e
        then ends fl env (err e) [] run.world
        else after_failure fl env pol start attempt e run.world again)
  ]

  unfoldable pub try_provider_stream : ℕ → RetryPolicy → ℤ → P → ℕ → W → Run (Committed C) W
  unfolding stream_attempt_once after_attempt
  try_provider_stream zero pol start p attempt w = record { out = none; trace = []; world = w }
  try_provider_stream (suc fuel) pol start p attempt w =
      after_attempt pol start attempt (stream_attempt_once p w)
        (λ w'. try_provider_stream fuel pol start p (attempt + 1) w')

  unfoldable pub chat_completion_stream :
      ℕ → RetryPolicy → String → List P → W → Run (Committed C) W
  chat_completion_stream fuel pol model [] w = record {
    out = some (err (no_provider model));
    trace = [];
    world = w;
  }
  chat_completion_stream fuel pol model (p ∷ ps) w =
      let (start, w') = now w in
      chain_loop fl env (λ q v. try_provider_stream fuel pol start q 0 v) pol start (p ∷ ps) w'

-- forwardStream: `sent` says for each event whether the caller took it; the loop goes on until the
-- channel is closed or the caller is gone.
pub record Forwarded (C : Type 0) : Type 0 where
  pub out : List (StreamEvent C)  -- what the caller has got
  pub observation : Option Err  -- what the one call of `done` was told

unfoldable pub event_err : {C : Type 0} → StreamEvent C → Option Err → Option Err
event_err (chunk c) last = last
event_err (failed e) last = some e

-- the loop `for ev := range src`, with lastErr
unfoldable pub forward_loop :
    {C : Type 0} → (ℕ → Bool) → ℕ → List (StreamEvent C) → Option Err → Forwarded C
unfolding event_err
forward_loop sent i [] last = record { out = []; observation = breaker_observation last }
forward_loop sent i (ev ∷ src) last =
    let rest = forward_loop sent (suc i) src (event_err ev last) in
    if sent i then record rest { out = ev ∷ rest.out } else record { out = []; observation = none }

unfoldable pub forward_stream : {C : Type 0} → (ℕ → Bool) → Committed C → Forwarded C
unfolding forward_loop
forward_stream sent s =
    let rest = forward_loop sent 1 s.rest none in
    if sent 0
    then record rest { out = chunk s.first ∷ rest.out }
    else record { out = []; observation = none }
