-- ===== src/Billing/Worker.antt =====
-- internal/billing/worker.go: the queue of events between the handlers and the database. What the
-- handlers and the consumers do in turn is a list of steps; an insert is known by its answer.
pub mod Accounts
use x_beacon.Prelude.{
  ℕ, zero, suc, ◌≡◌, Bool, true, false, ◌||◌, Option, none, some, String, List, [], ◌∷◌, ◌++◌,
  length, ltb, str_eq, if◌then◌else◌,
}
use x_beacon.Prelude.Int.{ℤ, pos, lez, add64}
use x_beacon.Pricing.{Rate, PricingCache, lookup_rate, mul64, quot_1000}
use x_beacon.Chat.Effects.{BillingEvent}

pub record WorkerConfig : Type 0 where
  pub buffer_size : ℤ
  pub workers : ℤ
  pub flush_timeout : ℤ  -- nanoseconds

unfoldable pub default_worker_config : WorkerConfig
default_worker_config = record {
  buffer_size = pos 10_000;
  workers = pos 2;
  flush_timeout = pos 5_000_000_000;
}

positive_or : ℤ → ℤ → ℤ
positive_or n d = if lez n (pos 0) then d else n

-- NewWorker: the zero values fall back
unfoldable pub with_defaults : WorkerConfig → WorkerConfig
unfolding default_worker_config positive_or
with_defaults cfg = record {
  buffer_size = positive_or cfg.buffer_size default_worker_config.buffer_size;
  workers = positive_or cfg.workers default_worker_config.workers;
  flush_timeout = positive_or cfg.flush_timeout default_worker_config.flush_timeout;
}

-- what a row holds beside the event
pub record Charge : Type 0 where
  pub total_tokens : ℤ
  pub input_micro : ℤ
  pub output_micro : ℤ
  pub total_micro : ℤ
  pub currency : String

priced : BillingEvent → Option Rate → Charge
priced ev none = record {
  total_tokens = add64 ev.prompt_tokens ev.completion_tokens;
  input_micro = pos 0;
  output_micro = pos 0;
  total_micro = pos 0;
  currency = "USD";
}
priced ev (some rate) =
    let input = quot_1000 (mul64 ev.prompt_tokens rate.input_per_1k) in
    let output = quot_1000 (mul64 ev.completion_tokens rate.output_per_1k) in
    record {
      total_tokens = add64 ev.prompt_tokens ev.completion_tokens;
      input_micro = input;
      output_micro = output;
      total_micro = add64 input output;
      currency = if str_eq rate.currency "" then "USD" else rate.currency;
    }

-- the charge of an event, in persist
unfoldable pub charge : Option PricingCache → BillingEvent → Charge
unfolding priced
charge none ev = priced ev none
charge (some pricing) ev = priced ev (lookup_rate pricing ev.model)

pub record Worker : Type 0 where
  pub capacity : ℕ
  pub queue : List BillingEvent  -- the channel
  pub in_hand : List BillingEvent  -- received, and not yet persisted
  pub written : List BillingEvent
  pub dropped : List BillingEvent  -- refused at a full buffer
  pub failed : List BillingEvent  -- the insert has failed
  pub abandoned : List BillingEvent  -- received after the context has ended

unfoldable pub new_worker : ℕ → Worker
new_worker capacity = record {
  capacity = capacity;
  queue = [];
  in_hand = [];
  written = [];
  dropped = [];
  failed = [];
  abandoned = [];
}

-- Enqueue
unfoldable pub enqueue : BillingEvent → Worker → Bool × Worker
enqueue ev w =
    if ltb (length w.queue) w.capacity
    then (true, record w { queue = w.queue ++ ev ∷ [] })
    else (false, record w { dropped = w.dropped ++ ev ∷ [] })

-- a turn of run, up to the call of persist; the argument is whether the context has ended
receive : Bool → List BillingEvent → Worker → Worker
receive gone [] w = w
receive gone (ev ∷ rest) w =
    if gone
    then record w { queue = rest; abandoned = w.abandoned ++ ev ∷ [] }
    else record w { queue = rest; in_hand = w.in_hand ++ ev ∷ [] }

unfoldable pub run_receive : Bool → Worker → Worker
unfolding receive
run_receive gone w = receive gone w.queue w

-- the i-th event in the hands of a consumer, and the others
unfoldable pub pick : ℕ → List BillingEvent → Option (BillingEvent × List BillingEvent)
pick i [] = none
pick zero (ev ∷ rest) = some (ev, rest)
pick (suc i) (ev ∷ rest) = elim (pick i rest) [
  | none ↦ none
  | some (found, others) ↦ some (found, ev ∷ others)
]

settle : Bool → Option (BillingEvent × List BillingEvent) → Worker → Worker
settle inserted none w = w
settle inserted (some (ev, others)) w =
    if inserted
    then record w { in_hand = others; written = w.written ++ ev ∷ [] }
    else record w { in_hand = others; failed = w.failed ++ ev ∷ [] }

-- the end of persist
unfoldable pub persisted : ℕ → Bool → Worker → Worker
unfolding settle
persisted i inserted w = settle inserted (pick i w.in_hand) w

pub data Step : Type 0 where
  enqueues : BillingEvent → Step
  receives : Bool → Step
  persists : ℕ → Bool → Step

unfoldable pub step : Step → Worker → Worker
unfolding enqueue run_receive persisted
step (enqueues ev) w = (enqueue ev w).1
step (receives gone) w = run_receive gone w
step (persists i inserted) w = persisted i inserted w

unfoldable pub steps : List Step → Worker → Worker
unfolding step
steps [] w = w
steps (s ∷ rest) w = steps rest (step s w)
