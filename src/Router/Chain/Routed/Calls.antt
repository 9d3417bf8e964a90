-- ===== src/Router/Chain/Routed/Calls.antt =====
-- What every request over a chain of providers keeps to.
use x_beacon.Prelude.{
  ℕ, suc, ◌+◌, ◌*◌, ◌≤◌, ◌<◌, ◌≡◌, refl, Bool, true, false, Result, String, List, [], ◌∷◌, map,
  length, ap, count_if, count_if-append, arith,
}
use x_beacon.Errors.{Err}
use x_beacon.Router.Policy.{RetryPolicy, Float}
use x_beacon.Router.World.{World, Event, called, failover}
use x_beacon.Router.Retry.Tried.{
  closing, Tried, turned_away, answered, rejected, given_up, interrupted, again,
}
use x_beacon.Router.Chain.{chat_completion}
use x_beacon.Router.Chain.Routed.{
  Routed, served, final, stopped, over, Attempts, Request, chat_completion-Ended,
}

abbrev pub is_call : {Resp : Type 0} → Event Resp → Bool
is_call (called n r) = true
is_call _ = false

pub closing-count_if :
    (Resp : Type 0) (b : Bool) (n : String) → count_if is_call (closing {Resp = Resp} b n) ≡ 0
closing-count_if Resp true n = refl
closing-count_if Resp false n = refl

module _ {Resp : Type 0} (streaming : Bool) (max_retries : ℕ) where
  Tried-count_if :
      {n : String} {k : ℕ} {r : Result Err Resp} {t : List (Event Resp)}
      → k ≤ max_retries
      → Tried streaming max_retries n k r t
      → count_if is_call t + k ≤ max_retries + 1
  Tried-count_if h (turned_away b) = omega arith
  Tried-count_if {n = n} h answered = omega (arith, closing-count_if Resp streaming n)
  Tried-count_if h (rejected f) = omega arith
  Tried-count_if h (given_up f) = omega arith
  Tried-count_if h (interrupted f) = omega arith
  Tried-count_if h (again f room rest) = omega (arith, Tried-count_if (omega arith) rest)

  Routed-count_if :
      {ns : List String} {r : Result Err Resp} {t : List (Event Resp)}
      → Routed (Attempts streaming max_retries) ns r t
      → count_if is_call t ≤ length ns * (max_retries + 1)
  Routed-count_if (served {ns = ns} one) = grind (arith, Tried-count_if (omega arith) one)
  Routed-count_if (final one f) = grind (arith, Tried-count_if (omega arith) one)
  Routed-count_if (stopped one f) = grind (arith, Tried-count_if (omega arith) one)
  Routed-count_if (over {t = t} {u = u} one f rest) = grind (
    arith,
    Tried-count_if (omega arith) one,
    Routed-count_if rest,
    count_if-append is_call t (failover _ _ ∷ u),
  )

  Request-count_if :
      (model : String) (ns : List String) (r : Result Err Resp) (t : List (Event Resp))
      → Request streaming max_retries model ns r t
      → count_if is_call t ≤ length ns * (max_retries + 1)
  Request-count_if model [] r t h = rw (h.1) (omega arith)
  Request-count_if model (n ∷ ns) r t h = Routed-count_if h

length-map : {A B : Type 0} (f : A → B) (xs : List A) → length (map f xs) ≡ length xs
length-map f [] = refl
length-map f (x ∷ xs) = ap suc (length-map f xs)

-- A request makes at most (MaxRetries + 1) calls for each provider of the chain.
chat_completion_calls :
    {P Resp : Type 0} (fl : Float) (env : World P Resp fl) (fuel : ℕ) (pol : RetryPolicy)
    (model : String) (ps : List P) (w : env.W)
    → pol.max_retries < fuel
    → count_if is_call (chat_completion fl env fuel pol model ps w).trace
      ≤ length ps * (pol.max_retries + 1)
chat_completion_calls fl env fuel pol model ps w enough =
    let ended = chat_completion-Ended fl env fuel pol model ps w enough in
    rw (← length-map env.name ps)
      (Request-count_if false pol.max_retries model (map env.name ps) _ _ ended.shape)
