-- ===== src/Router/Retry/Tried.antt =====
-- What the attempts at one provider can look like, and that the loop yields nothing else.
use x_beacon.Prelude.{
  ℕ, zero, suc, ◌+◌, ◌<◌, ◌≡◌, refl, Bool, true, false, Result, ok, err, Option, none, some, String,
  List, [], ◌∷◌, arith, leb, Bool-cases, Option-cases, Result-cases, inl, inr,
}
use x_beacon.Prelude.Int.{ℤ}
use x_beacon.Errors.{Err, is_retryable, is_breaker_error, extract_retry_after, breaker_observation}
use x_beacon.Router.Policy.{RetryPolicy, Float, backoff_duration}
use x_beacon.Router.World.{World, Event, refused, called, observed, slept}
use x_beacon.Router.Retry.{
  Run, try_provider, attempt_call, after_failure, sleep_then, over_budget, before, Ended,
}

-- What follows a successful call: the permit is released, or kept until a stream has ended.
abbrev pub closing : {Resp : Type 0} → Bool → String → List (Event Resp)
closing true n = []
closing false n = observed n none ∷ []

-- The attempts at provider `n`, numbered from `k`: the result, and the effects.
pub data Tried {Resp : Type 0} (streaming : Bool) (max_retries : ℕ) (n : String)
    : ℕ → Result Err Resp → List (Event Resp) → Type 0 where
  turned_away :
      {k : ℕ} {e : Err}
      → is_breaker_error e ≡ true
      → Tried streaming max_retries n k (err e) (refused n ∷ [])
  answered :
      {k : ℕ} {r : Resp}
      → Tried streaming max_retries n k (ok r) (called n (ok r) ∷ closing streaming n)
  rejected :
      {k : ℕ} {e : Err}
      → is_retryable e ≡ false
      → Tried streaming max_retries n k (err e) (called n (err e) ∷ observed n none ∷ [])
  given_up :
      {k : ℕ} {e : Err}
      → is_retryable e ≡ true
      → Tried streaming max_retries n k (err e) (called n (err e) ∷ observed n (some e) ∷ [])
  interrupted :
      {k : ℕ} {e c : Err} {d : ℤ}
      → is_retryable e ≡ true
      → Tried streaming max_retries n k
          (err c)
          (called n (err e) ∷ observed n (some e) ∷ slept d ∷ [])
  again :
      {k : ℕ} {e : Err} {d : ℤ} {r : Result Err Resp} {t : List (Event Resp)}
      → is_retryable e ≡ true
      → k < max_retries
      → Tried streaming max_retries n (k + 1) r t
      → Tried streaming max_retries n k r (called n (err e) ∷ observed n (some e) ∷ slept d ∷ t)

module _ {P A Resp : Type 0} (fl : Float) (env : World P A fl) (streaming : Bool)
    (pol : RetryPolicy) (start : ℤ) (p : P) where
  open env use {W, name, random, sleep}

  abbrev pub seen : Err → Option Err → List (Event Resp)
  seen e o = called (name p) (err e) ∷ observed (name p) o ∷ []

  abbrev pub Good : ℕ → Run Resp W → Type 0
  Good k run = Ended (Tried streaming pol.max_retries (name p) k) run

  -- a wait after a retryable failure, and whatever the next attempts do
  waits :
      (k : ℕ) (e : Err) (delay : ℤ) (w : W) (next : W → Run Resp W)
      → is_retryable e ≡ true
      → k < pol.max_retries
      → (k < pol.max_retries → (w' : W) → Good (k + 1) (next w'))
      → Good k (before fl env (seen e (some e)) (sleep_then fl env delay w next))
  unfolding sleep_then
  waits k e delay w next re room ih = elim (Option-cases (sleep delay w).0) [
    | inl woken ↦ rw woken (
        let run = ih room (sleep delay w).1 in
        record { result = run.result; returned = run.returned; shape = again re room run.shape })
    | inr (c, gone) ↦ rw gone (record { result = err c; returned = refl; shape = interrupted re })
  ]

  pub fails :
      (k : ℕ) (e : Err) (w : W) (next : W → Run Resp W)
      → (k < pol.max_retries → (w' : W) → Good (k + 1) (next w'))
      → Good k (
          before fl env
            (seen e (breaker_observation (some e)))
            (after_failure fl env pol start k e w next))
  unfolding after_failure breaker_observation
  fails k e w next ih = elim (Bool-cases (is_retryable e)) [
    | inr final ↦ rw final (record { result = err e; returned = refl; shape = rejected final })
    | inl re ↦ rw re (elim (Bool-cases (leb pol.max_retries k)) [
      | inl spent ↦ rw spent (record { result = err e; returned = refl; shape = given_up re })
      | inr room ↦ rw room (
          let delay = backoff_duration fl pol (k + 1) (extract_retry_after e) (random w).0 in
          let (over, w2) = over_budget fl env pol start delay (random w).1 in
          elim (Bool-cases over) [
            | inl late ↦ rw late (record { result = err e; returned = refl; shape = given_up re })
            | inr in_time ↦ rw in_time (waits k e delay w2 next re (ground arith) ih)
          ])
    ])
  ]

module _ {P Resp : Type 0} (fl : Float) (env : World P Resp fl) (pol : RetryPolicy) (start : ℤ)
    (p : P) where
  open env use {W, name, allow, call}

  abbrev Good' : ℕ → Run Resp W → Type 0
  Good' k run = Ended (Tried false pol.max_retries (name p) k) run

  calls :
      (k : ℕ) (w : W) (next : W → Run Resp W)
      → (k < pol.max_retries → (w' : W) → Good' (k + 1) (next w'))
      → Good' k (attempt_call fl env pol start p k w next)
  unfolding attempt_call breaker_observation
  calls k w next ih = elim (Result-cases (call p w).0) [
    | inl (r, good) ↦ rw good (record { result = ok r; returned = refl; shape = answered })
    | inr (e, bad) ↦ rw bad (fails fl env false pol start p k e _ next ih)
  ]

  tries :
      (fuel k : ℕ) (w : W)
      → pol.max_retries < k + fuel
      → 0 < fuel
      → Good' k (try_provider fl env fuel pol start p k w)
  unfolding try_provider
  tries zero k w enough some_fuel = absurd (omega arith)
  tries (suc fuel) k w enough some_fuel = elim (Option-cases (allow (name p) w).0) [
    | inl permit ↦
        rw (permit, try_provider)
          (calls k (allow (name p) w).1 (λ w'. try_provider fl env fuel pol start p (k + 1) w')
            (λ room w'. tries fuel (k + 1) w' (omega arith) (omega arith)))
    | inr (e, no_permit) ↦
        rw (no_permit, try_provider)
          (record {
            result = err e;
            returned = refl;
            shape = turned_away (env.refusal (name p) w no_permit);
          })
  ]

-- The attempts at one provider always end with a result, if the fuel is more than MaxRetries; and
-- what was done is a sequence that `Tried` allows: a permit before every call and its release
-- after it, a wait only after a retryable failure, and at most MaxRetries further attempts.
pub try_provider-Ended :
    {P Resp : Type 0} (fl : Float) (env : World P Resp fl) (pol : RetryPolicy) (start : ℤ) (p : P)
    (fuel : ℕ) (w : env.W)
    → pol.max_retries < fuel
    → Ended (Tried false pol.max_retries (env.name p) 0) (try_provider fl env fuel pol start p 0 w)
try_provider-Ended fl env pol start p fuel w enough =
    tries fl env pol start p fuel 0 w (omega arith) (omega arith)
