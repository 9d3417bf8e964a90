-- ===== src/Router/Chain/Routed/Events.antt =====
-- What can be said of a sequence of effects: its permits, its answers, its providers.
use x_beacon.Prelude.{
  some, ◌≡◌, refl, Bool, true, false, Result, ok, err, String, List, none, [], ◌∷◌, ◌++◌, count_if,
  arith, All, ap,
}
use x_beacon.Errors.{Err, is_retryable, breaker_observation}
use x_beacon.Router.World.{Event, refused, called, observed, slept, failover}
use x_beacon.Router.Chain.{eligible}
use x_beacon.Router.Chain.Routed.Calls.{is_call}

pub retryable-eligible : (e : Err) → is_retryable e ≡ true → eligible e ≡ true
unfolding eligible
retryable-eligible e h = ground arith

-- Every call is followed at once by the release of its permit, which tells the breaker of the
-- failure if it is a retryable one, and no permit is released otherwise. A stream (`true`) keeps
-- the permit of its successful call, and nothing follows that call.
abbrev pub IsBalanced : {Resp : Type 0} → List (Event Resp) → Bool → Type 0
IsBalanced [] b = Unit
IsBalanced (called n (ok r) ∷ t) true = t ≡ []
IsBalanced (called n (ok r) ∷ observed m o ∷ t) false = (m ≡ n) × (o ≡ none) × IsBalanced t false
IsBalanced (called n (ok r) ∷ t) false = ⊥
IsBalanced (called n (err e) ∷ observed m o ∷ t) b =
    (m ≡ n) × (o ≡ breaker_observation (some e)) × IsBalanced t b
IsBalanced (called n (err e) ∷ t) b = ⊥
IsBalanced (observed n o ∷ t) b = ⊥
IsBalanced (refused n ∷ t) b = IsBalanced t b
IsBalanced (slept d ∷ t) b = IsBalanced t b
IsBalanced (failover n m ∷ t) b = IsBalanced t b

-- the responses among the answers
abbrev pub successes : {Resp : Type 0} → List (Event Resp) → List Resp
successes [] = []
successes (called n (ok r) ∷ t) = r ∷ successes t
successes (_ ∷ t) = successes t

-- an answer after which another call makes sense
abbrev pub transient : {Resp : Type 0} → Result Err Resp → Bool
transient (ok r) = false
transient (err e) = eligible e

-- No call follows an answer that settles the request.
abbrev pub SettledLast : {Resp : Type 0} → List (Event Resp) → Type 0
SettledLast [] = Unit
SettledLast (called n r ∷ t) = (transient r ≡ false → count_if is_call t ≡ 0) × SettledLast t
SettledLast (_ ∷ t) = SettledLast t

-- the event belongs to provider `n`, or leads to it
abbrev pub About : {Resp : Type 0} → String → Event Resp → Type 0
About n (refused m) = m ≡ n
About n (called m r) = m ≡ n
About n (observed m o) = m ≡ n
About n (slept d) = Unit
About n (failover l m) = m ≡ n

-- The effects fall into stretches, one for each provider of the chain in its order.
abbrev pub InOrder : {Resp : Type 0} → List String → List (Event Resp) → Type 0
InOrder [] t = t ≡ []
InOrder {Resp} (n ∷ ns) t =
    (u v : List (Event Resp)) × (t ≡ u ++ v) × All (About n) u × InOrder ns v

module _ {Resp : Type 0} where
  pub successes-append : (t u : List (Event Resp)) → successes (t ++ u) ≡ successes t ++ successes u
  successes-append [] u = refl
  successes-append (called n (ok r) ∷ t) u = ap (λ l. r ∷ l) (successes-append t u)
  successes-append (called n (err e) ∷ t) u = successes-append t u
  successes-append (observed n o ∷ t) u = successes-append t u
  successes-append (refused n ∷ t) u = successes-append t u
  successes-append (slept d ∷ t) u = successes-append t u
  successes-append (failover n m ∷ t) u = successes-append t u

  abbrev pub success_of : Result Err Resp → List Resp
  success_of (ok r) = r ∷ []
  success_of (err e) = []

  -- every answer in the trace allows another call
  abbrev pub AllTransient : List (Event Resp) → Type 0
  AllTransient [] = Unit
  AllTransient (called n r ∷ t) = (transient r ≡ true) × AllTransient t
  AllTransient (_ ∷ t) = AllTransient t

  pub IsBalanced-append :
      (t u : List (Event Resp)) (b : Bool)
      → AllTransient t
      → IsBalanced t b
      → IsBalanced u b
      → IsBalanced (t ++ u) b
  IsBalanced-append [] u b k ht hu = hu
  IsBalanced-append (called n (ok r) ∷ t) u b k ht hu = cc (k.0)
  IsBalanced-append (called n (err e) ∷ observed m o ∷ t) u b k ht hu =
      (ht.0, ht.1, IsBalanced-append t u b k.1 ht.2 hu)
  IsBalanced-append (called n (err e) ∷ t) u b k ht hu = absurd ht
  IsBalanced-append (observed n o ∷ t) u b k ht hu = absurd ht
  IsBalanced-append (refused n ∷ t) u b k ht hu = IsBalanced-append t u b k ht hu
  IsBalanced-append (slept d ∷ t) u b k ht hu = IsBalanced-append t u b k ht hu
  IsBalanced-append (failover n m ∷ t) u b k ht hu = IsBalanced-append t u b k ht hu

  pub SettledLast-append :
      (t u : List (Event Resp)) → AllTransient t → SettledLast u → SettledLast (t ++ u)
  SettledLast-append [] u ht hu = hu
  SettledLast-append (called n r ∷ t) u ht hu = (λ f. cc (ht.0), SettledLast-append t u ht.1 hu)
  SettledLast-append (observed n o ∷ t) u ht hu = SettledLast-append t u ht hu
  SettledLast-append (refused n ∷ t) u ht hu = SettledLast-append t u ht hu
  SettledLast-append (slept d ∷ t) u ht hu = SettledLast-append t u ht hu
  SettledLast-append (failover n m ∷ t) u ht hu = SettledLast-append t u ht hu
