-- ===== src/Router/Retry.antt =====
-- internal/router/router.go, tryProvider: the attempts at one provider.
pub mod Tried
use x_beacon.Prelude.{
  ℕ, zero, suc, ◌+◌, ◌≡◌, Bool, true, false, ◌&&◌, not, Result, ok, err, Option, none, some, String,
  List, [], ◌∷◌, leb, if◌then◌else◌,
}
use x_beacon.Prelude.Int.{ℤ, pos, ltz, add64}
use x_beacon.Errors.{Err, is_retryable, breaker_observation, extract_retry_after}
use x_beacon.Router.Policy.{RetryPolicy, Float, backoff_duration}
use x_beacon.Router.World.{World, Event, refused, called, observed, slept, failover}

-- How a stretch of the code ends: its result (none: the fuel ran out), its effects, the world.
pub record Run (Resp W : Type 0) : Type 0 where
  pub out : Option (Result Err Resp)
  pub trace : List (Event Resp)
  pub world : W

-- A run has ended with a result, and the result and the effects are related as `Shape` says.
pub record Ended {Resp W : Type 0} (Shape : Result Err Resp → List (Event Resp) → Type 0)
    (run : Run Resp W) : Type 0 where
  pub result : Result Err Resp
  pub returned : run.out ≡ some result
  pub shape : Shape result run.trace

abbrev pub error_of : {R : Type 0} → Result Err R → Option Err
error_of (ok r) = none
error_of (err e) = some e

module _ {P A : Type 0} (fl : Float) (env : World P A fl) where
  open env use {W, since}

  -- `elapsed + delay > MaxTotal`, when there is a time budget
  over_budget : RetryPolicy → ℤ → ℤ → W → Bool × W
  over_budget pol start delay w =
      if ltz (pos 0) pol.max_total
      then (let (elapsed, w') = since start w in (ltz pol.max_total (add64 elapsed delay), w'))
      else (false, w)

module _ {P A Resp : Type 0} (fl : Float) (env : World P A fl) where
  open env use {W, random, sleep}

  abbrev pub ends : Result Err Resp → List (Event Resp) → W → Run Resp W
  ends r t w = record { out = some r; trace = t; world = w }

  -- events that come before those of a run
  abbrev pub before : List (Event Resp) → Run Resp W → Run Resp W
  before [] r = r
  before (e ∷ t) r = let r' = before t r in record r' { trace = e ∷ r'.trace }

  -- r.sleep, and the next attempt
  sleep_then : ℤ → W → (W → Run Resp W) → Run Resp W
  sleep_then delay w again =
      let (interrupted, w') = sleep delay w in
      before (slept delay ∷ []) (elim interrupted [ none ↦ again w' | some e ↦ ends (err e) [] w' ])

  -- what follows a failed call: give up, or wait for the next attempt
  unfoldable pub after_failure : RetryPolicy → ℤ → ℕ → Err → W → (W → Run Resp W) → Run Resp W
  unfolding over_budget sleep_then
  after_failure pol start attempt e w again =
      if not (is_retryable e)
      then ends (err e) [] w
      else if leb pol.max_retries attempt
      then ends (err e) [] w
      else (let (sample, w1) = random w in
          let delay = backoff_duration fl pol (attempt + 1) (extract_retry_after e) sample in
          let (over, w2) = over_budget fl env pol start delay w1 in
          if over then ends (err e) [] w2 else sleep_then delay w2 again)

module _ {P Resp : Type 0} (fl : Float) (env : World P Resp fl) where
  open env use {W, name, allow, done, call}

  -- the call under a permit, and what its answer leads to
  attempt_call : RetryPolicy → ℤ → P → ℕ → W → (W → Run Resp W) → Run Resp W
  unfolding after_failure
  attempt_call pol start p attempt w again =
      let (r, w1) = call p w in
      let seen = breaker_observation (error_of r) in
      let w2 = done (name p) seen w1 in
      before fl env (called (name p) r ∷ observed (name p) seen ∷ []) (elim r [
        | ok x ↦ ends fl env (ok x) [] w2
        | err e ↦ after_failure fl env pol start attempt e w2 again
      ])

  -- the loop `for attempt := 0; ; attempt++`
  unfoldable pub try_provider : ℕ → RetryPolicy → ℤ → P → ℕ → W → Run Resp W
  unfolding attempt_call
  try_provider zero pol start p attempt w = record { out = none; trace = []; world = w }
  try_provider (suc fuel) pol start p attempt w =
      let (gate, w1) = allow (name p) w in
      elim gate [
        | some e ↦ ends fl env (err e) (refused (name p) ∷ []) w1
        | none ↦
            attempt_call pol start p attempt w1
              (λ w'. try_provider fuel pol start p (attempt + 1) w')
      ]
