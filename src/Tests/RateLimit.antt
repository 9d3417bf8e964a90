-- ===== src/Tests/RateLimit.antt =====
-- Rules with counting limiters, and a sliding window on a list of scores.
use x_beacon.Prelude.{
  ℕ, suc, min, ◌↔◌, ◌+◌, ◌-◌, ◌≤◌, ◌≡◌, ◌≢◌, refl, subst, true, false, Result, ok, Option, none,
  some, List, [], ◌∷◌, ltb, length, All, arith,
}
use x_beacon.Prelude.Int.{ℤ, pos}
use x_beacon.Errors.{Err}
use x_beacon.RateLimit.{
  Bytes, Decision, no_decision, by_api_key, by_model, KeyContext, Rule, requests, rule_allow, check,
  applies,
}
use x_beacon.RateLimit.Keys.{compose_key_separates}
use x_beacon.RateLimit.Loader.{RuleConfig, RateTools, build_rules}
use x_beacon.RateLimit.Loader.Laws.{Each, build_accepts}
use x_beacon.RateLimit.Asked.{answers, asked_state}
use x_beacon.RateLimit.Verdict.{LastOf, check-stops}
use x_beacon.RateLimit.Window.{Redis, RedisWindow, keep, window_allow}
use x_beacon.RateLimit.Window.Laws.{retry_hint_enough}

-- a limiter that allows while the counter is below `n`
abbrev counting : ℕ → Bytes → ℤ → ℕ → Result Err Decision × ℕ
counting n key cost used =
    (ok (record no_decision { allowed = ltb used n; remaining = pos (n - suc used) }), suc used)

abbrev per_client : Rule ℕ
per_client = record {
  name = b'c' ∷ [];
  key_by = by_api_key ∷ by_model ∷ [];
  limiter = counting 5;
  unit = requests;
}

abbrev burst : Rule ℕ
burst = record per_client { limiter = counting 2 }

abbrev client : KeyContext
client = record { api_key_id = b'k' ∷ []; model = b'm' ∷ [] }

not_colon : ◌≢◌ {A = ℕ} b'k' b':'
not_colon e = omega (arith, e)

compose_key_separates_example :
    (client.api_key_id ≡ client.api_key_id) × (client.model ≡ client.model)
compose_key_separates_example =
    compose_key_separates per_client refl client client (not_colon, tt) (not_colon, tt) refl

denies :
    (check client (pos 1) requests (per_client ∷ burst ∷ per_client ∷ []) 2).0
    ≡ ok (record no_decision { rule = b'c' ∷ [] })
unfolding check applies rule_allow
denies = refl

check-stops_example :
    LastOf
      (ok (record no_decision { rule = b'c' ∷ [] }))
      (answers client (pos 1) requests (per_client ∷ burst ∷ per_client ∷ []) 2)
    × ((check client (pos 1) requests (per_client ∷ burst ∷ per_client ∷ []) 2).1
        ≡ asked_state client (pos 1) requests (per_client ∷ burst ∷ per_client ∷ []) 2)
check-stops_example =
    check-stops client (pos 1) requests (per_client ∷ burst ∷ per_client ∷ []) 2
      (ok (record no_decision { rule = b'c' ∷ [] })) denies refl

abbrev least : ℕ → List ℕ → ℕ
least x [] = x
least x (y ∷ ys) = min x (least y ys)

-- a sorted set by its scores, and the counter
abbrev oldest_of : List ℕ → Option ℕ
oldest_of [] = none
oldest_of (x ∷ xs) = some (least x xs)

All-above : (a b : ℕ) (l : List ℕ) → a ≤ b → All (λ x. b ≤ x) l → All (λ x. a ≤ x) l
All-above a b [] h k = tt
All-above a b (x ∷ l) h (k, rest) = (omega arith, All-above a b l h rest)

least_le : (x : ℕ) (xs : List ℕ) → (least x xs ≤ x) × All (λ y. least x xs ≤ y) xs
least_le x [] = (omega arith, tt)
least_le x (y ∷ ys) =
    let (first, rest) = least_le y ys in
    let below : min x (least y ys) ≤ least y ys = grind arith in
    (grind arith, (omega arith, All-above (min x (least y ys)) (least y ys) ys below rest))

oldest_none : (l : List ℕ) → oldest_of l ≡ none → l ≡ []
oldest_none [] e = refl
oldest_none (x ∷ xs) e = cc

oldest_some : (l : List ℕ) {m : ℕ} → oldest_of l ≡ some m → All (λ x. m ≤ x) l
oldest_some [] e = cc
oldest_some (x ∷ xs) {m} e =
    let same : least x xs ≡ m = cc in
    subst (λ k. (k ≤ x) × All (λ y. k ≤ y) xs) same (least_le x xs)

abbrev redis : Redis
redis = record {
  S = List ℕ × ℕ;
  scores = λ s. s.0;
  zremrangebyscore = λ now window s. (keep (λ x. ltb now (x + window)) s.0, s.1);
  zcard = λ s. length s.0;
  oldest = λ s. oldest_of s.0;
  incr = λ s. (suc s.1, (s.0, suc s.1));
  zadd = λ score member s. (score ∷ s.0, s.1);
  expire = λ t s. s;
  zrem_scores = λ now window s. refl;
  zcard_scores = λ s. refl;
  oldest_none = λ s. oldest_none s.0;
  oldest_some = λ s {m} e. oldest_some s.0 e;
  zadd_scores = λ score s. refl;
  expire_scores = λ t s. refl;
}

abbrev window : RedisWindow
window = record { limit = 2; window = 1_000_000_000 }

-- two requests in the last second, and one before
abbrev busy : List ℕ × ℕ
busy = (1_900_000_000 ∷ 1_500_000_000 ∷ 700_000_000 ∷ [], 3)

abbrev quiet : List ℕ × ℕ
quiet = (1_500_000_000 ∷ 700_000_000 ∷ [], 2)

busy_denied : (window_allow redis window 2_000_000_000 (pos 1) busy).0.allowed ≡ false
unfolding window_allow
busy_denied = refl

busy_oldest :
    redis.oldest (window_allow redis window 2_000_000_000 (pos 1) busy).1 ≡ some 1_500_000_000
unfolding window_allow
busy_oldest = refl

retry_hint_example :
    (hint : ℕ) × ((window_allow redis window 2_000_000_000 (pos 1) busy).0.retry_after ≡ pos hint)
    × (1_500_000_000 + 1_000_000_000 ≤ 2_000_000_000 + hint)
retry_hint_example =
    retry_hint_enough redis window 2_000_000_000 (pos 1) busy busy_denied busy_oldest (omega arith)

-- rates in requests a minute, and limiters that allow nothing
abbrev tools : RateTools ℕ ℕ
tools = record {
  bytes = λ s. b'r' ∷ [];
  split_slash = λ s. "60" ∷ "m" ∷ [];
  trim_space = λ s. s;
  atoi = λ s. some (pos 60);
  divide = λ n seconds. seconds;
  truncate = λ r. pos r;
  above_zero = λ r. ltb 0 r;
  limiter = λ made key cost used. (ok no_decision, used);
  has_redis = true;
}

abbrev entry : RuleConfig
entry = record {
  name = "per minute";
  algorithm = "memory_bucket";
  rate = "60/m";
  burst = pos 0;
  window = pos 0;
  limit = pos 0;
  key_by = "api_key" ∷ "model" ∷ [];
  unit = "";
}

abbrev window_entry : RuleConfig
window_entry = record entry {
  name = "window";
  algorithm = "redis_window";
  window = pos 1_000_000_000;
  limit = pos 2;
  key_by = [];
}

abbrev made_rule : Rule ℕ
made_rule = record {
  name = b'r' ∷ [];
  key_by = by_api_key ∷ by_model ∷ [];
  limiter = λ key cost used. (ok no_decision, used);
  unit = requests;
}

abbrev made_rules : List (Rule ℕ)
made_rules = made_rule ∷ record made_rule { key_by = [] } ∷ []

two_entries : build_rules tools (entry ∷ window_entry ∷ []) ≡ ok made_rules
unfolding build_rules
two_entries = refl

same_name : build_rules tools (entry ∷ entry ∷ []) ≢ ok made_rules
unfolding build_rules
same_name e = cc

build_accepts_example :
    (build_rules tools (entry ∷ window_entry ∷ []) ≡ ok made_rules)
    ↔ Each tools [] (entry ∷ window_entry ∷ []) made_rules
build_accepts_example = build_accepts tools (entry ∷ window_entry ∷ []) made_rules
