-- ===== src/Router/Chain/Routed/Order.antt =====
-- The order of the effects of a request: permits, answers, providers.
use x_beacon.Prelude.{
  ℕ, ◌<◌, ◌≡◌, refl, Bool, true, false, Result, ok, err, some, String, List, [], ◌∷◌, ◌++◌, map,
  All, ap, ◌∙◌, sym, append-nil,
}
use x_beacon.Errors.{Err, breaker_observation}
use x_beacon.Router.Policy.{RetryPolicy, Float}
use x_beacon.Router.World.{World, Event, called, failover}
use x_beacon.Router.Retry.{Run}
use x_beacon.Router.Retry.Tried.{
  closing, Tried, turned_away, answered, rejected, given_up, interrupted, again,
}
use x_beacon.Router.Chain.{chat_completion, eligible}
use x_beacon.Router.Chain.Routed.{
  Routed, served, final, stopped, over, Attempts, Request, chat_completion-Ended,
}
use x_beacon.Router.Chain.Routed.Calls.{closing-count_if}
use x_beacon.Router.Chain.Routed.Events.{
  IsBalanced, IsBalanced-append, successes, successes-append, success_of, SettledLast,
  SettledLast-append, AllTransient, About, InOrder, retryable-eligible,
}

InOrder-nil : (Resp : Type 0) (ns : List String) → InOrder {Resp = Resp} ns []
InOrder-nil Resp [] = refl
InOrder-nil Resp (n ∷ ns) = ([], [], refl, tt, InOrder-nil Resp ns)

module _ (Resp : Type 0) where
  closing-IsBalanced :
      (b : Bool) (n : String) (r : Resp) → IsBalanced (called n (ok r) ∷ closing b n) b
  closing-IsBalanced true n r = refl
  closing-IsBalanced false n r = (refl, refl, tt)

  closing-successes : (b : Bool) (n : String) → successes (closing {Resp = Resp} b n) ≡ []
  closing-successes true n = refl
  closing-successes false n = refl

  closing-SettledLast : (b : Bool) (n : String) → SettledLast (closing {Resp = Resp} b n)
  closing-SettledLast true n = tt
  closing-SettledLast false n = tt

  closing-About : (b : Bool) (n : String) → All (About n) (closing {Resp = Resp} b n)
  closing-About true n = tt
  closing-About false n = (refl, tt)

module _ {Resp : Type 0} (streaming : Bool) (max_retries : ℕ) where
  Tried-IsBalanced :
      {n : String} {k : ℕ} {r : Result Err Resp} {t : List (Event Resp)}
      → Tried streaming max_retries n k r t
      → IsBalanced t streaming
  unfolding breaker_observation
  Tried-IsBalanced (turned_away b) = tt
  Tried-IsBalanced {n = n} (answered {r = r}) = closing-IsBalanced Resp streaming n r
  Tried-IsBalanced (rejected f) = (refl, rw f, tt)
  Tried-IsBalanced (given_up f) = (refl, rw f, tt)
  Tried-IsBalanced (interrupted f) = (refl, rw f, tt)
  Tried-IsBalanced (again f room rest) = (refl, rw f, Tried-IsBalanced rest)

  Tried-successes :
      {n : String} {k : ℕ} {r : Result Err Resp} {t : List (Event Resp)}
      → Tried streaming max_retries n k r t
      → successes t ≡ success_of r
  Tried-successes (turned_away b) = refl
  Tried-successes {n = n} (answered {r = r}) = ap (λ l. r ∷ l) (closing-successes Resp streaming n)
  Tried-successes (rejected f) = refl
  Tried-successes (given_up f) = refl
  Tried-successes (interrupted f) = refl
  Tried-successes (again f room rest) = Tried-successes rest

  Tried-SettledLast :
      {n : String} {k : ℕ} {r : Result Err Resp} {t : List (Event Resp)}
      → Tried streaming max_retries n k r t
      → SettledLast t
  Tried-SettledLast (turned_away b) = tt
  Tried-SettledLast {n = n} answered =
      (λ h. closing-count_if Resp streaming n, closing-SettledLast Resp streaming n)
  Tried-SettledLast (rejected f) = (λ h. refl, tt)
  Tried-SettledLast (given_up f) = (λ h. refl, tt)
  Tried-SettledLast (interrupted f) = (λ h. refl, tt)
  Tried-SettledLast (again {e = e} f room rest) =
      (λ h. cc (retryable-eligible e f), Tried-SettledLast rest)

  Tried-AllTransient :
      {n : String} {k : ℕ} {e : Err} {t : List (Event Resp)}
      → Tried streaming max_retries n k (err e) t
      → eligible e ≡ true
      → AllTransient t
  Tried-AllTransient (turned_away b) h = tt
  Tried-AllTransient (rejected f) h = (h, tt)
  Tried-AllTransient (given_up f) h = (h, tt)
  Tried-AllTransient (interrupted {e = e} f) h = (retryable-eligible e f, tt)
  Tried-AllTransient (again {e = e} f room rest) h =
      (retryable-eligible e f, Tried-AllTransient rest h)

  Tried-About :
      {n : String} {k : ℕ} {r : Result Err Resp} {t : List (Event Resp)}
      → Tried streaming max_retries n k r t
      → All (About n) t
  Tried-About (turned_away b) = (refl, tt)
  Tried-About {n = n} answered = (refl, closing-About Resp streaming n)
  Tried-About (rejected f) = (refl, (refl, tt))
  Tried-About (given_up f) = (refl, (refl, tt))
  Tried-About (interrupted f) = (refl, (refl, (tt, tt)))
  Tried-About (again f room rest) = (refl, (refl, (tt, Tried-About rest)))

  Routed-IsBalanced :
      {ns : List String} {r : Result Err Resp} {t : List (Event Resp)}
      → Routed (Attempts streaming max_retries) ns r t
      → IsBalanced t streaming
  Routed-IsBalanced (served one) = Tried-IsBalanced one
  Routed-IsBalanced (final one f) = Tried-IsBalanced one
  Routed-IsBalanced (stopped one f) = Tried-IsBalanced one
  Routed-IsBalanced (over {t = t} {u = u} one f rest) =
      IsBalanced-append t (failover _ _ ∷ u) streaming (Tried-AllTransient one f)
        (Tried-IsBalanced one) (Routed-IsBalanced rest)

  Routed-successes :
      {ns : List String} {r : Result Err Resp} {t : List (Event Resp)}
      → Routed (Attempts streaming max_retries) ns r t
      → successes t ≡ success_of r
  Routed-successes (served one) = Tried-successes one
  Routed-successes (final one f) = Tried-successes one
  Routed-successes (stopped one f) = Tried-successes one
  Routed-successes (over {t = t} {u = u} one f rest) =
      successes-append t (failover _ _ ∷ u)
      ∙ (ap (λ l. l ++ successes u) (Tried-successes one) ∙ Routed-successes rest)

  Routed-SettledLast :
      {ns : List String} {r : Result Err Resp} {t : List (Event Resp)}
      → Routed (Attempts streaming max_retries) ns r t
      → SettledLast t
  Routed-SettledLast (served one) = Tried-SettledLast one
  Routed-SettledLast (final one f) = Tried-SettledLast one
  Routed-SettledLast (stopped one f) = Tried-SettledLast one
  Routed-SettledLast (over {t = t} {u = u} one f rest) =
      SettledLast-append t (failover _ _ ∷ u) (Tried-AllTransient one f) (Routed-SettledLast rest)

  InOrder-one :
      (n : String) (ns : List String) (t : List (Event Resp)) → All (About n) t → InOrder (n ∷ ns) t
  InOrder-one n ns t h = (t, [], sym (append-nil t), h, InOrder-nil Resp ns)

  -- a fail-over opens the stretch of the provider that it leads to
  InOrder-over :
      (n m : String) (ns : List String) (u : List (Event Resp))
      → InOrder (m ∷ ns) u
      → InOrder (m ∷ ns) (failover n m ∷ u)
  InOrder-over n m ns u (a, b, e, h, rest) =
      (failover n m ∷ a, b, ap (λ l. failover n m ∷ l) e, (refl, h), rest)

  Routed-InOrder :
      {ns : List String} {r : Result Err Resp} {t : List (Event Resp)}
      → Routed (Attempts streaming max_retries) ns r t
      → InOrder ns t
  Routed-InOrder (served {t = t} one) = InOrder-one _ _ t (Tried-About one)
  Routed-InOrder (final {t = t} one f) = InOrder-one _ _ t (Tried-About one)
  Routed-InOrder (stopped {t = t} one f) = InOrder-one _ _ t (Tried-About one)
  Routed-InOrder (over {n = n} {m = m} {ns = ns} {t = t} {u = u} one f rest) =
      (t, failover n m ∷ u, refl, Tried-About one, InOrder-over n m ns u (Routed-InOrder rest))

-- what holds of every request, with or without a provider
pub record Facts {Resp : Type 0} (streaming : Bool) (ns : List String) (r : Result Err Resp)
    (t : List (Event Resp)) : Type 0 where
  pub balanced : IsBalanced t streaming
  pub delivered : successes t ≡ success_of r
  pub settled : SettledLast t
  pub ordered : InOrder ns t

pub Request-Facts :
    {Resp : Type 0} (streaming : Bool) (max_retries : ℕ) (model : String) (ns : List String)
    (r : Result Err Resp) (t : List (Event Resp))
    → Request streaming max_retries model ns r t
    → Facts streaming ns r t
Request-Facts streaming max_retries model [] r t h =
    rw (h.0, h.1) (record { balanced = tt; delivered = refl; settled = tt; ordered = refl })
Request-Facts streaming max_retries model (n ∷ ns) r t h = record {
  balanced = Routed-IsBalanced streaming max_retries h;
  delivered = Routed-successes streaming max_retries h;
  settled = Routed-SettledLast streaming max_retries h;
  ordered = Routed-InOrder streaming max_retries h;
}

module _ {P Resp : Type 0} (fl : Float) (env : World P Resp fl) (fuel : ℕ) (pol : RetryPolicy)
    (model : String) (ps : List P) (w : env.W) (enough : pol.max_retries < fuel) where
  abbrev request : Run Resp env.W
  request = chat_completion fl env fuel pol model ps w

  facts :
      (r : Result Err Resp) × (request.out ≡ some r) × Facts false (map env.name ps) r request.trace
  facts =
      let ended = chat_completion-Ended fl env fuel pol model ps w enough in
      (ended.result, ended.returned, Request-Facts false pol.max_retries model _ _ _ ended.shape)

  -- The successful answers of the providers in the course of a request are the one response that
  -- it returns, or none if it returns an error: no response is lost, replaced or fetched twice.
  pub chat_completion_delivers :
      (r : Result Err Resp) × (request.out ≡ some r) × (successes request.trace ≡ success_of r)
  chat_completion_delivers = (facts.0, facts.1, facts.2.delivered)

  -- No provider is called any more after a success, or after an error that is neither retryable
  -- nor the breaker's.
  pub chat_completion-SettledLast : SettledLast request.trace
  chat_completion-SettledLast = facts.2.settled

  -- The providers are tried in the order of the chain: the effects fall into consecutive
  -- stretches, one for each provider, and none is returned to.
  chat_completion-InOrder : InOrder (map env.name ps) request.trace
  chat_completion-InOrder = facts.2.ordered
