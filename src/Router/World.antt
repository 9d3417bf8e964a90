-- ===== src/Router/World.antt =====
-- What the router calls and does not implement: the circuit breakers (sony/gobreaker), the
-- providers, the clock, the random source and the sleep of the caller's context. Each is an
-- operation on one state `W`, in which the request at hand is fixed. The effects that the router
-- has on them are written down as events.
use x_beacon.Prelude.{true, ◌≡◌, Result, Option, some, String}
use x_beacon.Prelude.Int.{ℤ}
use x_beacon.Errors.{Err, is_breaker_error}
use x_beacon.Router.Policy.{Float}

pub record World (P Resp : Type 0) (fl : Float) : Type 1 where
  pub W : Type 0
  pub name : P → String  -- p.Name()
  pub allow : String → W → Option Err × W  -- breakers.allow: `none` is a permit
  pub done : String → Option Err → W → W  -- the callback of a permit
  pub call : P → W → Result Err Resp × W  -- p.ChatCompletion, or p.ChatCompletionStream
  pub since : ℤ → W → ℤ × W  -- now().Sub(start)
  pub now : W → ℤ × W
  pub random : W → fl.F × W
  pub sleep : ℤ → W → Option Err × W  -- ctx.Err() when the caller is gone
  -- gobreaker: a refusal of Allow is ErrOpenState or ErrTooManyRequests
  pub refusal : (n : String) (w : W) {e : Err} → (allow n w).0 ≡ some e → is_breaker_error e ≡ true

pub data Event (Resp : Type 0) : Type 0 where
  refused : String → Event Resp  -- the breaker gave no permit
  called : String → Result Err Resp → Event Resp  -- a call under a permit, and its answer
  observed : String → Option Err → Event Resp  -- the permit's `done`
  slept : ℤ → Event Resp
  failover : String → String → Event Resp  -- metrics.IncFailover
