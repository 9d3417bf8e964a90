-- ===== src/RateLimit/Window.antt =====
-- internal/ratelimit/redis_window.go: the sliding window on a Redis sorted set, by the Lua script
-- and by RedisWindow.Allow. Numbers of the script are taken as exact; in Redis they are doubles,
-- so `now` there is a clock reading rounded to a multiple of 256 ns.
pub mod Laws
use x_beacon.Prelude.{
  ℕ, zero, suc, ◌+◌, ◌-◌, ◌*◌, ◌/◌, ◌≤◌, ◌≡◌, Bool, true, false, not, Result, ok, err, Option, none,
  some, String, List, [], ◌∷◌, ltb, leb, length, All, if◌then◌else◌,
}
use x_beacon.Prelude.Int.{ℤ, pos, negsuc, ltz, wrap64, add64}
use x_beacon.Errors.{Err, other}
use x_beacon.RateLimit.{Decision, no_decision, Bytes}

-- the members of a list that a test keeps
abbrev pub keep : (ℕ → Bool) → List ℕ → List ℕ
keep p [] = []
keep p (x ∷ xs) = let rest = keep p xs in if p x then x ∷ rest else rest

-- The Redis commands of the script on the key's sorted set and its sequence counter, and what they
-- do to the scores in the set. A member is named by the counter, so that an insertion after an
-- INCR is always of a new member.
pub record Redis : Type 1 where
  pub S : Type 0
  pub scores : S → List ℕ
  pub zremrangebyscore : ℕ → ℕ → S → S  -- the entries with score + window ≤ now
  pub zcard : S → ℕ
  pub oldest : S → Option ℕ  -- ZRANGE key 0 0 WITHSCORES
  pub incr : S → ℕ × S
  pub zadd : ℕ → ℕ → S → S  -- score, member
  pub expire : ℕ → S → S
  pub zrem_scores :
      (now window : ℕ) (s : S)
      → scores (zremrangebyscore now window s) ≡ keep (λ x. ltb now (x + window)) (scores s)
  pub zcard_scores : (s : S) → zcard s ≡ length (scores s)
  pub oldest_none : (s : S) → oldest s ≡ none → scores s ≡ []
  pub oldest_some : (s : S) {m : ℕ} → oldest s ≡ some m → All (λ x. m ≤ x) (scores s)
  pub zadd_scores :
      (score : ℕ) (s : S) → scores (zadd score (incr s).0 (incr s).1) ≡ score ∷ scores s
  pub expire_scores : (t : ℕ) (s : S) → scores (expire t s) ≡ scores s

-- the reply {allowed, remaining, retry_after_ms}
pub record Reply : Type 0 where
  pub allowed : Bool
  pub remaining : ℕ
  pub retry_ms : ℕ

module _ (rd : Redis) where
  open rd use {S, zremrangebyscore, zcard, oldest, incr, zadd, expire}

  -- for i = 1, cost do INCR; ZADD end
  unfoldable pub record_cost : ℕ → ℕ → S → S
  record_cost zero now s = s
  record_cost (suc cost) now s = let (seq, s') = incr s in record_cost cost now (zadd now seq s')

  -- ceil((oldest + window - now) / 10^6), and at least 0
  unfoldable pub retry_after_ms : Option ℕ → ℕ → ℕ → ℕ
  retry_after_ms none now window = 0
  retry_after_ms (some m) now window = (m + window - now + 999_999) / 1_000_000

  unfoldable pub sliding_window_script : ℕ → ℕ → ℕ → ℕ → ℕ → S → Reply × S
  sliding_window_script now window limit cost expire_s s =
      let s1 = zremrangebyscore now window s in
      let current = zcard s1 in
      if ltb limit (current + cost)
      then (
        record {
          allowed = false;
          remaining = limit - current;
          retry_ms = retry_after_ms (oldest s1) now window;
        },
        s1,
      )
      else (
        record { allowed = true; remaining = limit - (current + cost); retry_ms = 0 },
        expire expire_s (expire expire_s (record_cost cost now s1)),
      )

-- the configuration; NewRedisWindow has checked Limit >= 1 and Window > 0
pub record RedisWindow : Type 0 where
  pub limit : ℕ
  pub window : ℕ  -- nanoseconds

unfoldable pub new_redis_window : Bool → ℤ → ℤ → Result Err RedisWindow
new_redis_window has_client limit window =
    if not has_client
    then err (other "ratelimit: RedisWindowConfig.Client is required")
    else if ltz limit (pos 1)
    then err (other "ratelimit: RedisWindowConfig.Limit must be >= 1")
    else if ltz window (pos 1)
    then err (other "ratelimit: RedisWindowConfig.Window must be > 0")
    else ok (record { limit = magnitude limit; window = magnitude window })
  where
    magnitude : ℤ → ℕ
    magnitude (pos n) = n
    magnitude (negsuc n) = 0

-- `if cost < 1 { cost = 1 }`
unfoldable pub effective_cost : ℤ → ℕ
effective_cost (pos zero) = 1
effective_cost (pos (suc n)) = suc n
effective_cost (negsuc n) = 1

-- RedisWindow.Allow, where the script runs; a failure of the Redis client is an error instead
unfoldable pub window_allow : (rd : Redis) → RedisWindow → ℕ → ℤ → rd.S → Decision × rd.S
unfolding sliding_window_script effective_cost
window_allow rd r now cost s =
    let (reply, s') =
      sliding_window_script rd now r.window r.limit (effective_cost cost)
        (r.window / 1_000_000_000 + 5) s in
    let retry = wrap64 (pos (reply.retry_ms * 1_000_000)) in
    (
      record {
        allowed = reply.allowed;
        limit = pos r.limit;
        remaining = pos reply.remaining;
        reset = if reply.allowed then add64 (pos now) (pos r.window) else add64 (pos now) retry;
        retry_after = if reply.allowed then pos 0 else retry;
        rule = [];
      },
      s',
    )
