-- ===== src/Router/Chain.antt =====
-- internal/router/router.go, ChatCompletion: fail-over along the chain of providers. The loop over
-- the chain is the same in ChatCompletionStream; it takes the attempts at one provider as `try`.
pub mod Routed
use x_beacon.Prelude.{
  ℕ, ◌+◌, ◌≡◌, Bool, true, false, ◌&&◌, ◌||◌, not, Result, ok, err, Option, none, some, String,
  List, [], ◌∷◌, ◌++◌, if◌then◌else◌,
}
use x_beacon.Prelude.Int.{ℤ, pos, ltz, lez}
use x_beacon.Errors.{Err, bare, wrapped, no_provider_for_model, is_retryable, is_breaker_error}
use x_beacon.Router.Policy.{RetryPolicy, Float}
use x_beacon.Router.World.{World, Event, failover}
use x_beacon.Router.Retry.{Run, try_provider}

-- errors that let the next provider be tried
unfoldable pub eligible : Err → Bool
eligible e = is_breaker_error e || is_retryable e

abbrev pub no_provider : String → Err
no_provider model = wrapped model (bare no_provider_for_model)

module _ {P A : Type 0} (fl : Float) (env : World P A fl) where
  open env use {W, since}

  -- `now().Sub(start) >= MaxTotal`, when there is a time budget
  out_of_time : RetryPolicy → ℤ → W → Bool × W
  out_of_time pol start w =
      if ltz (pos 0) pol.max_total
      then (let (elapsed, w') = since start w in (lez pol.max_total elapsed, w'))
      else (false, w)

module _ {P A Resp : Type 0} (fl : Float) (env : World P A fl) where
  open env use {W, name}

  abbrev pub after : List (Event Resp) → Run Resp W → Run Resp W
  after t r = record r { trace = t ++ r.trace }

  -- the next provider of the chain, if there is one
  fail_over : P → Err → List P → W → (W → Run Resp W) → Run Resp W
  fail_over p e [] w next = record { out = some (err e); trace = []; world = w }
  fail_over p e (q ∷ qs) w next = after (failover (name p) (name q) ∷ []) (next w)

  -- what follows an error of provider `p`; `next` is the rest of the chain
  after_error : RetryPolicy → ℤ → P → Err → List P → W → (W → Run Resp W) → Run Resp W
  unfolding out_of_time fail_over
  after_error pol start p e rest w next =
      if not (is_breaker_error e) && not (is_retryable e)
      then record { out = some (err e); trace = []; world = w }
      else (let (late, w') = out_of_time fl env pol start w in
          if late
          then record { out = some (err e); trace = []; world = w' }
          else fail_over p e rest w' next)

  -- what follows the attempts at provider `p`
  after_try : RetryPolicy → ℤ → P → List P → Run Resp W → (W → Run Resp W) → Run Resp W
  unfolding after_error
  after_try pol start p rest run next = elim run.out [
    | none ↦ run
    | some (ok r) ↦ run
    | some (err e) ↦ after run.trace (after_error pol start p e rest run.world next)
  ]

  unfoldable pub chain_loop : (P → W → Run Resp W) → RetryPolicy → ℤ → List P → W → Run Resp W
  unfolding after_try
  chain_loop try pol start [] w = record { out = none; trace = []; world = w }
  chain_loop try pol start (p ∷ rest) w =
      let next = chain_loop try pol start rest in after_try pol start p rest (try p w) next

module _ {P Resp : Type 0} (fl : Float) (env : World P Resp fl) where
  open env use {W, now}

  -- `chain` is resolver.ResolveChain(model)
  unfoldable pub chat_completion : ℕ → RetryPolicy → String → List P → W → Run Resp W
  unfolding chain_loop
  chat_completion fuel pol model [] w = record {
    out = some (err (no_provider model));
    trace = [];
    world = w;
  }
  chat_completion fuel pol model (p ∷ ps) w =
      let (start, w') = now w in
      chain_loop fl env (λ q v. try_provider fl env fuel pol start q 0 v) pol start (p ∷ ps) w'
