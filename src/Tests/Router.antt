-- ===== src/Tests/Router.antt =====
-- The router at a provider that fails twice and a policy with two retries.
use native.Mathlib.Omega.{arith}
use x_beacon.Prelude.{ℕ, ◌*◌, ◌^◌, ◌≤◌, ◌≡◌, refl, min, true, false, Result, ok, some, [], ◌∷◌}
use x_beacon.Prelude.Int.{pos, ltz}
use x_beacon.Errors.{Err, is_retryable, is_breaker_error}
use x_beacon.Router.Policy.{RetryPolicy, backoff_duration}
use x_beacon.Router.Policy.Envelope.{backoff_duration_bounds}
use x_beacon.Router.Retry.{Ended, try_provider}
use x_beacon.Router.Chain.{chat_completion}
use x_beacon.Router.Chain.Routed.{Request, chat_completion-Ended}
use x_beacon.Router.Chain.Routed.Events.{successes, success_of, SettledLast}
use x_beacon.Router.Chain.Routed.Order.{chat_completion_delivers, chat_completion-SettledLast}
use x_beacon.Tests.Worlds.{millionths, scripted, flaky}

abbrev pub policy : RetryPolicy
policy = record {
  max_retries = 1;
  max_total = pos 0;
  base_backoff = pos 100;
  max_backoff = pos 5000;
}

abbrev no_base : RetryPolicy
no_base = record policy { base_backoff = pos 0 }

backoff_duration_example :
    (ltz (pos 0) (pos 0) ≡ true → backoff_duration millionths policy 3 (pos 0) 250_000 ≡ pos 0)
    × (ltz (pos 0) (pos 0) ≡ false
        → (d : ℕ) × (backoff_duration millionths policy 3 (pos 0) 250_000 ≡ pos d)
          × (d ≤ min 5000 (100 * 2 ^ 2)))
backoff_duration_example =
    backoff_duration_bounds millionths policy 100 5000 2 (pos 0) 250_000 refl refl (omega arith)
      (omega arith) (omega arith)

chat_completion_example :
    Ended
      (Request false 1 "m" ("a" ∷ "b" ∷ []))
      (chat_completion millionths scripted 2 policy "m" ("a" ∷ "b" ∷ []) flaky)
chat_completion_example =
    chat_completion-Ended millionths scripted 2 policy "m" ("a" ∷ "b" ∷ []) flaky (omega arith)

-- the second provider serves the request
chat_completion_fails_over :
    (chat_completion millionths scripted 2 policy "m" ("a" ∷ "b" ∷ []) flaky).out ≡ some (ok 7)
unfolding chat_completion try_provider is_retryable is_breaker_error
chat_completion_fails_over = refl

chat_completion_delivers_example :
    (r : Result Err ℕ) × ((chat_completion millionths scripted 2 policy "m"
        ("a" ∷ "b" ∷ [])
        flaky).out
      ≡ some r)
    × (successes (chat_completion millionths scripted 2 policy "m" ("a" ∷ "b" ∷ []) flaky).trace
        ≡ success_of r)
chat_completion_delivers_example =
    chat_completion_delivers millionths scripted 2 policy "m" ("a" ∷ "b" ∷ []) flaky (omega arith)

chat_completion-SettledLast_example :
    SettledLast (chat_completion millionths scripted 2 policy "m" ("a" ∷ "b" ∷ []) flaky).trace
chat_completion-SettledLast_example =
    chat_completion-SettledLast millionths scripted 2 policy "m" ("a" ∷ "b" ∷ []) flaky
      (omega arith)
