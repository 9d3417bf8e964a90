-- ===== src/Router/Stream/Forward.antt =====
-- What the caller gets of a committed stream, and what the breaker is told.
use x_beacon.Prelude.{
  ℕ, zero, suc, ◌≡◌, refl, ap, Bool, true, false, Option, none, some, List, [], ◌∷◌, ◌++◌, inl, inr,
  Bool-cases, ◌+◌, ◌<◌, length, subst, arith,
}
use x_beacon.Errors.{Err, breaker_observation}
use x_beacon.Router.Stream.{
  StreamEvent, chunk, failed, Committed, event_err, forward_loop, forward_stream,
}

-- the last error among the events of a channel
abbrev pub last_error : {C : Type 0} → List (StreamEvent C) → Option Err → Option Err
last_error [] last = last
last_error (chunk c ∷ l) last = last_error l last
last_error (failed e ∷ l) last = last_error l (some e)

-- the caller takes every event
abbrev pub TakesAll : (ℕ → Bool) → Type 0
TakesAll sent = (i : ℕ) → sent i ≡ true

last-event_err :
    {C : Type 0} (ev : StreamEvent C) (l : List (StreamEvent C)) (last : Option Err)
    → last_error l (event_err ev last) ≡ last_error (ev ∷ l) last
unfolding event_err
last-event_err (chunk c) l last = refl
last-event_err (failed e) l last = refl

module _ {C : Type 0} (sent : ℕ → Bool) where
  loop_prefix :
      (i : ℕ) (l : List (StreamEvent C)) (last : Option Err)
      → (rest : List (StreamEvent C)) × (l ≡ (forward_loop sent i l last).out ++ rest)
  unfolding forward_loop
  loop_prefix i [] last = ([], refl)
  loop_prefix i (ev ∷ l) last = elim (Bool-cases (sent i)) [
    | inl taken ↦
        rw taken
          (let (rest, e) = loop_prefix (suc i) l (event_err ev last) in (rest, ap (λ k. ev ∷ k) e))
    | inr gone ↦ rw gone (ev ∷ l, refl)
  ]

  loop_all :
      TakesAll sent
      → (i : ℕ) (l : List (StreamEvent C)) (last : Option Err)
      → ((forward_loop sent i l last).out ≡ l)
        × ((forward_loop sent i l last).observation ≡ breaker_observation (last_error l last))
  unfolding forward_loop
  loop_all all i [] last = (refl, refl)
  loop_all all i (ev ∷ l) last =
      let (o, b) = loop_all all (suc i) l (event_err ev last) in
      rw (all i) (ap (λ k. ev ∷ k) o, rw (← last-event_err ev l last) b)

  -- a caller that goes away ends the loop with a clean observation
  loop_gone :
      (i : ℕ) (l : List (StreamEvent C)) (last : Option Err) (j : ℕ)
      → sent (i + j) ≡ false
      → j < length l
      → (forward_loop sent i l last).observation ≡ none
  unfolding forward_loop
  loop_gone i [] last j h short = absurd (omega arith)
  loop_gone i (ev ∷ l) last zero h short =
      let here : sent i ≡ false = subst (λ k. sent k ≡ false) (omega arith) h in rw here
  loop_gone i (ev ∷ l) last (suc j) h short = elim (Bool-cases (sent i)) [
    | inl taken ↦ rw taken (
        loop_gone (suc i) l (event_err ev last) j (subst (λ k. sent k ≡ false) (omega arith) h)
          (omega arith))
    | inr gone ↦ rw gone
  ]

-- The events that the caller gets are a prefix of the provider's, in their order, with nothing
-- inserted or left out, whenever the caller goes away.
pub forward_stream_prefix :
    {C : Type 0} (sent : ℕ → Bool) (s : Committed C)
    → (lost : List (StreamEvent C)) × (chunk s.first ∷ s.rest ≡ (forward_stream sent s).out ++ lost)
unfolding forward_stream
forward_stream_prefix sent s = elim (Bool-cases (sent 0)) [
  | inl taken ↦
      rw taken
        (let (rest, e) = loop_prefix sent 1 s.rest none in (rest, ap (λ k. chunk s.first ∷ k) e))
  | inr gone ↦ rw gone (chunk s.first ∷ s.rest, refl)
]

-- A caller that takes every event gets the whole stream, a mid-stream error included, and the
-- breaker is told of the last error in it (if it is a retryable one).
pub forward_stream_all :
    {C : Type 0} (sent : ℕ → Bool) (s : Committed C)
    → TakesAll sent
    → ((forward_stream sent s).out ≡ chunk s.first ∷ s.rest)
      × ((forward_stream sent s).observation ≡ breaker_observation (last_error s.rest none))
unfolding forward_stream
forward_stream_all sent s all =
    let (o, b) = loop_all sent all 1 s.rest none in rw (all 0) (ap (λ k. chunk s.first ∷ k) o, b)

-- If the caller is gone at one of the events, the breaker is told of no failure, whatever errors
-- the provider has sent.
pub forward_stream_gone :
    {C : Type 0} (sent : ℕ → Bool) (s : Committed C) (j : ℕ)
    → sent j ≡ false
    → j < length (chunk s.first ∷ s.rest)
    → (forward_stream sent s).observation ≡ none
unfolding forward_stream
forward_stream_gone sent s zero h short = rw h
forward_stream_gone sent s (suc j) h short = elim (Bool-cases (sent 0)) [
  | inl taken ↦
      rw taken
        (loop_gone sent 1 s.rest none j (subst (λ k. sent k ≡ false) (omega arith) h) (omega arith))
  | inr gone ↦ rw gone
]
