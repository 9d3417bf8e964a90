-- ===== src/RateLimit/Loader.antt =====
-- internal/ratelimit/loader.go: from the rules of a configuration to the rules of a limiter, with
-- the checks of NewMemoryBucket and NewRedisWindow. The texts of the errors are shortened to their
-- reasons; a rate is a float64, so its type and its arithmetic are parameters.
pub mod Laws
use x_beacon.Prelude.{
  ℕ, Bool, true, false, not, any, Result, ok, err, Option, none, some, String, List, [], ◌∷◌, ◌++◌,
  str_eq, ◌||◌, ◌&&◌, if◌then◌else◌,
}
use x_beacon.Prelude.Int.{ℤ, pos, ltz, lez}
use x_beacon.Errors.{Err, other}
use x_beacon.RateLimit.{
  Decision, Bytes, KeyBy, by_api_key, by_model, CostUnit, requests, tokens, Rule,
}
use x_beacon.RateLimit.Window.{RedisWindow, new_redis_window}

pub record RuleConfig : Type 0 where
  pub name : String
  pub algorithm : String
  pub rate : String
  pub burst : ℤ
  pub window : ℤ  -- nanoseconds
  pub limit : ℤ
  pub key_by : List String
  pub unit : String

-- a limiter, by what it was made of
pub data Made (Rate : Type 0) : Type 0 where
  memory_bucket : Rate → ℤ → Made Rate  -- rate, burst
  redis_window : RedisWindow → Made Rate

-- strings, strconv, float64 and the limiters that the rules are made with
pub record RateTools (S Rate : Type 0) : Type 0 where
  pub bytes : String → Bytes
  pub split_slash : String → List String  -- strings.Split(s, "/")
  pub trim_space : String → String
  pub atoi : String → Option ℤ
  pub divide : ℤ → ℕ → Rate  -- float64(n) / float64(seconds)
  pub truncate : Rate → ℤ  -- int(float64(r))
  pub above_zero : Rate → Bool
  pub limiter : Made Rate → Bytes → ℤ → S → Result Err Decision × S
  pub has_redis : Bool  -- rdb is not nil

and_then : {E A B : Type 0} → Result E A → (A → Result E B) → Result E B
and_then (ok a) f = f a
and_then (err e) f = err e

unfoldable pub parse_unit : String → Result Err CostUnit
parse_unit s =
    if str_eq s "" || str_eq s "requests"
    then ok requests
    else if str_eq s "tokens"
    then ok tokens
    else err (other "unknown unit")

unfoldable pub parse_key_bys : List String → Result Err (List KeyBy)
unfolding and_then
parse_key_bys [] = ok []
parse_key_bys (s ∷ l) =
    let rest = parse_key_bys l in
    if str_eq s "api_key"
    then and_then rest (λ out. ok (by_api_key ∷ out))
    else if str_eq s "model"
    then and_then rest (λ out. ok (by_model ∷ out))
    else err (other "unknown key_by")

-- the seconds of a unit of a rate
rate_seconds : String → Result Err ℕ
rate_seconds s =
    if str_eq s "s"
    then ok 1
    else if str_eq s "m"
    then ok 60
    else if str_eq s "h"
    then ok 3_600
    else err (other "unknown rate unit")

module _ {S Rate : Type 0} (t : RateTools S Rate) where
  numerator : Option ℤ → Result Err ℤ
  numerator none = err (other "numerator must be a positive integer")
  numerator (some n) =
      if lez n (pos 0) then err (other "numerator must be a positive integer") else ok n

  parse_parts : List String → Result Err Rate
  unfolding and_then numerator rate_seconds
  parse_parts (n ∷ per ∷ []) =
      and_then (numerator (t.atoi (t.trim_space n)))
        (λ n'. and_then (rate_seconds (t.trim_space per)) (λ sec. ok (t.divide n' sec)))
  parse_parts _ = err (other "expected form <n>/<s|m|h>")

  unfoldable pub parse_rate : String → Result Err Rate
  unfolding parse_parts
  parse_rate s = parse_parts (t.split_slash s)

  unfoldable pub new_memory_bucket : Rate → ℤ → Result Err (Made Rate)
  new_memory_bucket r burst =
      if not (t.above_zero r)
      then err (other "Rate must be > 0")
      else if ltz burst (pos 1)
      then err (other "Burst must be >= 1")
      else ok (memory_bucket r burst)

  unfoldable pub default_burst : Rate → ℤ → ℤ
  default_burst r burst =
      if lez burst (pos 0) && lez (pos 0) burst
      then if ltz (t.truncate r) (pos 1) then pos 1 else t.truncate r
      else burst

  unfoldable pub build_memory_bucket : RuleConfig → Result Err (Made Rate)
  unfolding and_then parse_rate default_burst new_memory_bucket
  build_memory_bucket rc =
      and_then (parse_rate rc.rate) (λ r. new_memory_bucket r (default_burst r rc.burst))

  unfoldable pub build_redis_window : RuleConfig → Result Err (Made Rate)
  unfolding and_then new_redis_window
  build_redis_window rc =
      if not t.has_redis
      then err (other "redis_window requires Redis")
      else if ltz rc.limit (pos 1)
      then err (other "limit must be >= 1")
      else if lez rc.window (pos 0)
      then err (other "window must be > 0")
      else and_then (new_redis_window t.has_redis rc.limit rc.window) (λ w. ok (redis_window w))

  unfoldable pub build_limiter : RuleConfig → Result Err (Made Rate)
  unfolding build_memory_bucket build_redis_window
  build_limiter rc =
      if str_eq rc.algorithm "memory_bucket"
      then build_memory_bucket rc
      else if str_eq rc.algorithm "redis_window"
      then build_redis_window rc
      else err (other "unknown algorithm")

  -- a turn of the loop, from the dimensions on
  unfoldable pub build_rule : RuleConfig → Result Err (Rule S)
  unfolding and_then parse_key_bys parse_unit build_limiter
  build_rule rc = and_then (parse_key_bys rc.key_by) (λ kbs. and_then (parse_unit rc.unit) (λ unit.
      and_then (build_limiter rc) (λ made.
        ok (record {
          name = t.bytes rc.name;
          key_by = kbs;
          limiter = t.limiter made;
          unit = unit;
        }))))

  -- the variables of Build
  pub record Building : Type 0 where
    pub out : List (Rule S)
    pub seen : List String
    pub errs : List Err

  unfoldable pub add_rule : Result Err (Rule S) → Building → Building
  add_rule (ok r) b = record b { out = b.out ++ r ∷ [] }
  add_rule (err why) b = record b { errs = b.errs ++ why ∷ [] }

  unfoldable pub build_turn : RuleConfig → Building → Building
  unfolding add_rule build_rule
  build_turn rc b =
      if str_eq rc.name ""
      then add_rule (err (other "name is required")) b
      else if any (str_eq rc.name) b.seen
      then add_rule (err (other "duplicate name")) b
      else add_rule (build_rule rc) (record b { seen = rc.name ∷ b.seen })

  unfoldable pub build_loop : List RuleConfig → Building → Building
  unfolding build_turn
  build_loop [] b = b
  build_loop (rc ∷ configs) b = build_loop configs (build_turn rc b)

  built_rules : List Err → List (Rule S) → Result (List Err) (List (Rule S))
  built_rules [] out = ok out
  built_rules (e ∷ errs) out = err (e ∷ errs)

  unfoldable pub build_rules : List RuleConfig → Result (List Err) (List (Rule S))
  unfolding build_loop built_rules
  build_rules [] = ok []
  build_rules (rc ∷ configs) =
      let b = build_loop (rc ∷ configs) (record { out = []; seen = []; errs = [] }) in
      built_rules b.errs b.out
