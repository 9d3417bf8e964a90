-- ===== src/Billing/Worker/Accounts.antt =====
-- No event is lost or counted twice between the handlers and the database.
use x_beacon.Prelude.{
  subst, ℕ, zero, suc, ◌+◌, ◌≤◌, ◌≡◌, refl, ap, Bool, Option, none, some, Option-cases, List, [],
  ◌∷◌, length, length-append, count_if, count_if-append, ltb, ltb→lt, subst, if-cases, inl, inr,
  arith,
}
use x_beacon.Chat.Effects.{BillingEvent}
use x_beacon.Billing.Worker.{
  Worker, new_worker, enqueue, receive, run_receive, pick, settle, persisted, Step, enqueues,
  receives, persists, step, steps,
}

abbrev pub offered : List Step → List BillingEvent
offered [] = []
offered (enqueues ev ∷ rest) = ev ∷ offered rest
offered (receives gone ∷ rest) = offered rest
offered (persists i inserted ∷ rest) = offered rest

module _ (p : BillingEvent → Bool) where
  -- the events of a kind, wherever they are
  abbrev pub held : Worker → ℕ
  held w =
      count_if p w.queue
      + count_if p w.in_hand
      + count_if p w.written
      + count_if p w.dropped
      + count_if p w.failed
      + count_if p w.abandoned

  abbrev one : BillingEvent → ℕ
  one ev = count_if p (ev ∷ [])

  held-enqueue : (ev : BillingEvent) (w : Worker) → held (enqueue ev w).1 ≡ held w + one ev
  unfolding enqueue
  held-enqueue ev w =
      if-cases {A = Bool × Worker} (λ r. held r.1 ≡ held w + one ev)
        (ltb (length w.queue) w.capacity) (λ y. omega (arith, count_if-append p w.queue (ev ∷ [])))
        (λ n. omega (arith, count_if-append p w.dropped (ev ∷ [])))

  held-receive :
      (gone : Bool) (q : List BillingEvent) (w : Worker)
      → w.queue ≡ q
      → held (receive gone q w) ≡ held w
  unfolding receive
  held-receive gone [] w e = refl
  held-receive gone (ev ∷ rest) w e =
      if-cases {A = Worker} (λ r. held r ≡ held w) gone
        (λ y. omega (arith, ap (count_if p) e, count_if-append p w.abandoned (ev ∷ [])))
        (λ n. omega (arith, ap (count_if p) e, count_if-append p w.in_hand (ev ∷ [])))

  -- what is picked was there, and the others stay
  abbrev Picked : List BillingEvent → Option (BillingEvent × List BillingEvent) → Type 0
  Picked l none = Unit
  Picked l (some (ev, others)) = count_if p l ≡ one ev + count_if p others

  pick-Picked : (i : ℕ) (l : List BillingEvent) → Picked l (pick i l)
  unfolding pick
  pick-Picked i [] = tt
  pick-Picked zero (ev ∷ rest) = omega arith
  pick-Picked (suc i) (ev ∷ rest) = elim (Option-cases (pick i rest)) [
    | inl nothing ↦ rw nothing tt
    | inr ((found, others), e) ↦
        let below : Picked rest (some (found, others)) =
          subst (Picked rest) e (pick-Picked i rest) in
        rw e (omega (arith, below))
  ]

  held-settle :
      (inserted : Bool) (o : Option (BillingEvent × List BillingEvent)) (w : Worker)
      → Picked w.in_hand o
      → held (settle inserted o w) ≡ held w
  unfolding settle
  held-settle inserted none w h = refl
  held-settle inserted (some (ev, others)) w h =
      if-cases {A = Worker} (λ r. held r ≡ held w) inserted
        (λ y. omega (arith, h, count_if-append p w.written (ev ∷ [])))
        (λ n. omega (arith, h, count_if-append p w.failed (ev ∷ [])))

  held-step : (s : Step) (w : Worker) → held (step s w) ≡ held w + count_if p (offered (s ∷ []))
  unfolding step run_receive persisted
  held-step (enqueues ev) w = held-enqueue ev w
  held-step (receives gone) w = omega (arith, held-receive gone w.queue w refl)
  held-step (persists i inserted) w =
      omega (arith, held-settle inserted (pick i w.in_hand) w (pick-Picked i w.in_hand))

  offered-cons :
      (s : Step) (rest : List Step)
      → count_if p (offered (s ∷ rest)) ≡ count_if p (offered (s ∷ [])) + count_if p (offered rest)
  offered-cons (enqueues ev) rest = omega arith
  offered-cons (receives gone) rest = omega arith
  offered-cons (persists i inserted) rest = omega arith

  held-steps : (l : List Step) (w : Worker) → held (steps l w) ≡ held w + count_if p (offered l)
  unfolding steps
  held-steps [] w = omega arith
  held-steps (s ∷ rest) w =
      omega (arith, held-steps rest (step s w), held-step s w, offered-cons s rest)

-- the bound of the channel
module _ (capacity : ℕ) where
  abbrev Fits : Worker → Type 0
  Fits w = (length w.queue ≤ capacity) × (w.capacity ≡ capacity)

  receive-Fits :
      (gone : Bool) (q : List BillingEvent) (w : Worker)
      → w.queue ≡ q
      → Fits w
      → Fits (receive gone q w)
  unfolding receive
  receive-Fits gone [] w e h = h
  receive-Fits gone (ev ∷ rest) w e h =
      if-cases {A = Worker} Fits gone (λ y. (omega (arith, h.0, ap length e), h.1))
        (λ n. (omega (arith, h.0, ap length e), h.1))

  settle-Fits :
      (inserted : Bool) (o : Option (BillingEvent × List BillingEvent)) (w : Worker)
      → Fits w
      → Fits (settle inserted o w)
  unfolding settle
  settle-Fits inserted none w h = h
  settle-Fits inserted (some (ev, others)) w h =
      if-cases {A = Worker} Fits inserted (λ y. h) (λ n. h)

  step-Fits : (s : Step) (w : Worker) → Fits w → Fits (step s w)
  unfolding step enqueue run_receive persisted
  step-Fits (enqueues ev) w h =
      if-cases {A = Bool × Worker} (λ r. Fits r.1) (ltb (length w.queue) w.capacity)
        (λ y. (omega (arith, ltb→lt _ _ y, h.1, length-append w.queue (ev ∷ [])), h.1)) (λ n. h)
  step-Fits (receives gone) w h = receive-Fits gone w.queue w refl h
  step-Fits (persists i inserted) w h = settle-Fits inserted (pick i w.in_hand) w h

  steps-Fits : (l : List Step) (w : Worker) → Fits w → Fits (steps l w)
  unfolding steps
  steps-Fits [] w h = h
  steps-Fits (s ∷ rest) w h = steps-Fits rest (step s w) (step-Fits s w h)

-- Whatever the handlers and the consumers do, and in whatever order, every event that was offered is
-- in exactly one place: still queued, in the hands of a consumer, written, dropped at a full
-- buffer, failed, or abandoned after the end of the context; and the queue stays within its
-- capacity. The count is for any kind of events, as a test picks them.
pub steps_accounts :
    (p : BillingEvent → Bool) (capacity : ℕ) (l : List Step)
    → (held p (steps l (new_worker capacity)) ≡ count_if p (offered l))
      × (length (Worker.queue (steps l (new_worker capacity))) ≤ capacity)
unfolding new_worker
steps_accounts p capacity l = (
  omega (arith, held-steps p l (new_worker capacity)),
  (steps-Fits capacity l (new_worker capacity) (omega arith, refl)).0,
)
