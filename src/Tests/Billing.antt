-- ===== src/Tests/Billing.antt =====
-- A worker with room for one event.
use x_beacon.Prelude.{ℕ, ◌≤◌, ◌≡◌, refl, true, false, List, [], ◌∷◌, length, count_if}
use x_beacon.Prelude.Int.{pos}
use x_beacon.Chat.Effects.{BillingEvent}
use x_beacon.Billing.Worker.{
  pick, Worker, new_worker, Step, enqueues, receives, persists, steps, pick,
}
use x_beacon.Billing.Worker.Accounts.{held, offered, steps_accounts}

abbrev row : ℕ → BillingEvent
row status = record {
  request_id = "q1";
  api_key_id = "";
  provider = "a";
  model = "mini";
  prompt_tokens = pos 3;
  completion_tokens = pos 1;
  status = status;
  streamed = false;
  error_code = "";
}

abbrev day : List Step
day =
    enqueues (row 200)
    ∷ enqueues (row 502)
    ∷ receives false
    ∷ enqueues (row 200)
    ∷ persists 0 true
    ∷ receives true
    ∷ []

steps_accounts_example :
    (held (λ ev. true) (steps day (new_worker 1)) ≡ count_if (λ ev. true) (offered day))
    × (length (Worker.queue (steps day (new_worker 1))) ≤ 1)
steps_accounts_example = steps_accounts (λ ev. true) 1 day

day_ends : length (Worker.dropped (steps day (new_worker 1))) ≡ 1
unfolding steps pick new_worker
day_ends = refl
