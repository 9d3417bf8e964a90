-- ===== src/Router/Chain/Routed.antt =====
-- What the requests along a chain can look like, and that the loop yields nothing else.
pub mod Calls
pub mod Events
pub mod Order
use x_beacon.Prelude.{
  ℕ, zero, suc, ◌+◌, ◌≤◌, ◌<◌, ◌≡◌, refl, Bool, true, false, ◌&&◌, not, Result, ok, err, Option,
  none, some, String, List, [], ◌∷◌, ◌++◌, map, arith, subst, Bool-cases, Option-cases,
  Result-cases, inl, inr, append-nil,
}
use x_beacon.Prelude.Int.{ℤ}
use x_beacon.Errors.{Err, is_retryable, is_breaker_error}
use x_beacon.Router.Policy.{RetryPolicy, Float}
use x_beacon.Router.World.{World, Event, failover}
use x_beacon.Router.Retry.{Run, Ended, try_provider}
use x_beacon.Router.Retry.Tried.{Tried, try_provider-Ended}
use x_beacon.Router.Chain.{
  eligible, no_provider, chain_loop, after_try, after_error, fail_over, out_of_time,
  chat_completion, after,
}

-- The providers' names in the order of the chain, the result, and the effects. `One n r t` says
-- what the attempts at one provider can look like.
pub data Routed {Resp : Type 0} (One : String → Result Err Resp → List (Event Resp) → Type 0)
    : List String → Result Err Resp → List (Event Resp) → Type 0 where
  served :
      {n : String} {ns : List String} {r : Resp} {t : List (Event Resp)}
      → One n (ok r) t
      → Routed One (n ∷ ns) (ok r) t
  final :
      {n : String} {ns : List String} {e : Err} {t : List (Event Resp)}
      → One n (err e) t
      → eligible e ≡ false
      → Routed One (n ∷ ns) (err e) t
  stopped :
      {n : String} {ns : List String} {e : Err} {t : List (Event Resp)}
      → One n (err e) t
      → eligible e ≡ true
      → Routed One (n ∷ ns) (err e) t
  over :
      {n m : String} {ns : List String} {e : Err} {r : Result Err Resp} {t u : List (Event Resp)}
      → One n (err e) t
      → eligible e ≡ true
      → Routed One (m ∷ ns) r u
      → Routed One (n ∷ m ∷ ns) r (t ++ (failover n m ∷ u))

module _ {P A Resp : Type 0} (fl : Float) (env : World P A fl) (pol : RetryPolicy) (start : ℤ)
    (One : String → Result Err Resp → List (Event Resp) → Type 0) where
  open env use {W, name}

  abbrev Along : List P → Run Resp W → Type 0
  Along ps run = Ended (Routed One (map name ps)) run

  ineligible : (e : Err) → (not (is_breaker_error e) && not (is_retryable e)) ≡ not (eligible e)
  unfolding eligible
  ineligible e = ground arith

  -- the rest of the chain, or its end
  goes_over :
      (p : P) (rest : List P) (e : Err) (t : List (Event Resp)) (w : W) (next : W → Run Resp W)
      → One (name p) (err e) t
      → eligible e ≡ true
      → ((q : P) (qs : List P) → rest ≡ q ∷ qs → (w' : W) → Along rest (next w'))
      → Along (p ∷ rest) (after fl env t (fail_over fl env p e rest w next))
  unfolding fail_over
  goes_over p [] e t w next one goes_on ih =
      rw append-nil (record { result = err e; returned = refl; shape = stopped one goes_on })
  goes_over p (q ∷ qs) e t w next one goes_on ih =
      let run = ih q qs refl w in
      record { result = run.result; returned = run.returned; shape = over one goes_on run.shape }

  errors :
      (p : P) (rest : List P) (e : Err) (t : List (Event Resp)) (w : W) (next : W → Run Resp W)
      → One (name p) (err e) t
      → ((q : P) (qs : List P) → rest ≡ q ∷ qs → (w' : W) → Along rest (next w'))
      → Along (p ∷ rest) (after fl env t (after_error fl env pol start p e rest w next))
  unfolding after_error
  errors p rest e t w next one ih = elim (Bool-cases (eligible e)) [
    | inr final_error ↦
        rw (ineligible e, final_error, append-nil)
          (record { result = err e; returned = refl; shape = final one final_error })
    | inl goes_on ↦
        rw (ineligible e, goes_on)
          (elim (Bool-cases (out_of_time fl env pol start w).0) [
            | inl late ↦
                rw (late, append-nil)
                  (record { result = err e; returned = refl; shape = stopped one goes_on })
            | inr in_time ↦
                rw in_time
                  (goes_over p rest e t (out_of_time fl env pol start w).1 next one goes_on ih)
          ])
  ]

  tried :
      (p : P) (rest : List P) (o : Option (Result Err Resp)) (r : Result Err Resp)
      (t : List (Event Resp)) (w : W) (next : W → Run Resp W)
      → o ≡ some r
      → One (name p) r t
      → ((q : P) (qs : List P) → rest ≡ q ∷ qs → (w' : W) → Along rest (next w'))
      → Along
          (p ∷ rest)
          (after_try fl env pol start p rest (record { out = o; trace = t; world = w }) next)
  unfolding after_try
  tried p rest none r t w next e one ih = cc
  tried p rest (some (ok x)) r t w next e one ih =
      let e' : r ≡ ok x = cc in
      record {
        result = ok x;
        returned = refl;
        shape = served (subst (λ y. One (name p) y t) e' one);
      }
  tried p rest (some (err x)) r t w next e one ih =
      let e' : r ≡ err x = cc in errors p rest x t w next (subst (λ y. One (name p) y t) e' one) ih

  pub along :
      (try : P → W → Run Resp W)
      → ((p : P) (w : W) → Ended (One (name p)) (try p w))
      → (p : P) (rest : List P) (w : W)
      → Along (p ∷ rest) (chain_loop fl env try pol start (p ∷ rest) w)
  unfolding chain_loop
  along try each p [] w =
      let one = each p w in
      tried p [] (try p w).out one.result (try p w).trace (try p w).world
        (chain_loop fl env try pol start []) one.returned one.shape (λ q qs e w'. cc)
  along try each p (q ∷ rest) w =
      let one = each p w in
      tried p (q ∷ rest) (try p w).out one.result (try p w).trace (try p w).world
        (chain_loop fl env try pol start (q ∷ rest)) one.returned one.shape
        (λ q' qs e w'. along try each q rest w')

-- the attempts at one provider, from the first
abbrev pub Attempts :
    {Resp : Type 0} → Bool → ℕ → String → Result Err Resp → List (Event Resp) → Type 0
Attempts streaming max_retries n = Tried streaming max_retries n 0

-- what a request over the chain `ns` can look like
abbrev pub Request :
    {Resp : Type 0} → Bool → ℕ → String → List String → Result Err Resp → List (Event Resp) → Type 0
Request streaming max_retries model [] r t = (r ≡ err (no_provider model)) × (t ≡ [])
Request streaming max_retries model (n ∷ ns) r t =
    Routed (Attempts streaming max_retries) (n ∷ ns) r t

-- A request always ends with a result, if the fuel is more than MaxRetries. With no provider for
-- the model this is ErrNoProviderForModel, without any effect; otherwise the result and the
-- effects are as `Routed` allows: the providers are tried in the order of the chain, each with
-- attempts as `Tried` allows, and the next one only after an error that is the breaker's or
-- retryable.
pub chat_completion-Ended :
    {P Resp : Type 0} (fl : Float) (env : World P Resp fl) (fuel : ℕ) (pol : RetryPolicy)
    (model : String) (ps : List P) (w : env.W)
    → pol.max_retries < fuel
    → Ended
        (Request false pol.max_retries model (map env.name ps))
        (chat_completion fl env fuel pol model ps w)
unfolding chat_completion
chat_completion-Ended fl env fuel pol model [] w enough = record {
  result = err (no_provider model);
  returned = refl;
  shape = (refl, refl);
}
chat_completion-Ended fl env fuel pol model (p ∷ ps) w enough =
    let (start, w') = env.now w in
    along fl env pol start (Attempts false pol.max_retries) _
      (λ q v. try_provider-Ended fl env pol start q fuel v enough) p ps w'
