-- ===== src/Router/Policy.antt =====
-- internal/router/policy.go: the retry budget, and the delay before a retry.
pub mod Envelope
use x_beacon.Prelude.{ℕ, zero, suc, ◌-◌, ◌≤◌, ◌≡◌, Bool, true, false, ◌||◌, ◌==◌, if◌then◌else◌}
use x_beacon.Prelude.Int.{ℤ, pos, ltz, lez, double64, int64_max}

pub record RetryPolicy : Type 0 where
  pub max_retries : ℕ  -- a negative value behaves as 0
  pub max_total : ℤ  -- nanoseconds, 0 = unlimited
  pub base_backoff : ℤ
  pub max_backoff : ℤ

unfoldable pub default_policy : RetryPolicy
default_policy = record {
  max_retries = 2;
  max_total = pos 30_000_000_000;
  base_backoff = pos 100_000_000;
  max_backoff = pos 5_000_000_000;
}

-- What the code uses of `float64`, NaN excepted: two comparisons, three constants, and the
-- truncated product `time.Duration(r * float64(n))`. The law is that of a product with a factor
-- in [0, 1), rounded and then truncated.
pub record Float : Type 1 where
  pub F : Type 0
  pub lt : F → F → Bool
  pub ge : F → F → Bool
  pub f0 : F
  pub f1 : F
  pub near_one : F  -- 0.999999
  pub scale : F → ℤ → ℤ
  pub f0_below : lt f0 f0 ≡ false
  pub f0_above : ge f0 f1 ≡ false
  pub near_one_below : lt near_one f0 ≡ false
  pub near_one_above : ge near_one f1 ≡ false
  pub scale_range :
      (r : F) (n : ℕ)
      → lt r f0 ≡ false
      → ge r f1 ≡ false
      → n ≤ int64_max
      → (m : ℕ) × (scale r (pos n) ≡ pos m) × (m ≤ n)

-- for i := 1; i < attempt; i++, with the rounds left; `envelope <= 0` catches the wrap-around
unfoldable pub grow : ℕ → ℤ → ℤ → ℤ
grow zero envelope max_backoff = envelope
grow (suc rounds) envelope max_backoff =
    let twice = double64 envelope in
    let rest = grow rounds twice max_backoff in
    if lez twice (pos 0) || lez max_backoff twice then max_backoff else rest

unfoldable pub envelope : RetryPolicy → ℕ → ℤ
unfolding grow
envelope p attempt =
    let e = grow (attempt - 1) p.base_backoff p.max_backoff in
    if ltz p.max_backoff e then p.max_backoff else e

module _ (fl : Float) where
  open fl use {F, lt, ge, f0, f1, near_one, scale}

  -- randFloat, forced into [0, 1)
  unfoldable pub clamp : F → F
  clamp r = let r' = if lt r f0 then f0 else r in if ge r' f1 then near_one else r'

  unfoldable pub backoff_duration : RetryPolicy → ℕ → ℤ → F → ℤ
  unfolding envelope clamp
  backoff_duration p attempt retry_after r =
      if ltz (pos 0) retry_after
      then retry_after
      else if attempt == 0
      then pos 0
      else scale (clamp r) (envelope p attempt)
