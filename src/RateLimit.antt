-- ===== src/RateLimit.antt =====
-- internal/ratelimit/ratelimit.go: rules, their keys, and the check of all rules of one unit.
pub mod Asked
pub mod Keys
pub mod Loader
pub mod Verdict
pub mod Window
use x_beacon.Prelude.{
  ℕ, ◌≡◌, Bool, true, false, ◌||◌, not, Result, ok, err, String, List, [], ◌∷◌, ◌++◌, ◌==◌,
  if◌then◌else◌,
}
use x_beacon.Prelude.Int.{ℤ, pos, negsuc, ltz}
use x_beacon.Errors.{Err}

-- a Go string, by its bytes
abbrev pub Bytes : Type 0
Bytes = List ℕ

pub record Decision : Type 0 where
  pub allowed : Bool
  pub limit : ℤ
  pub remaining : ℤ
  pub reset : ℤ
  pub retry_after : ℤ
  pub rule : Bytes

-- the zero value of the struct
abbrev pub no_decision : Decision
no_decision = record {
  allowed = false;
  limit = pos 0;
  remaining = pos 0;
  reset = pos 0;
  retry_after = pos 0;
  rule = [];
}

pub data KeyBy : Type 0 where
  by_api_key by_model by_unknown : KeyBy

pub record KeyContext : Type 0 where
  pub api_key_id : Bytes
  pub model : Bytes

unfoldable pub value : KeyContext → KeyBy → Bytes
value k by_api_key = k.api_key_id
value k by_model = k.model
value k by_unknown = []

-- the empty unit stands for requests
pub data CostUnit : Type 0 where
  unset requests tokens : CostUnit

-- A rule holds its limiter, which answers for a key and a cost and changes the shared state `S`.
pub record Rule (S : Type 0) : Type 0 where
  pub name : Bytes
  pub key_by : List KeyBy
  pub limiter : Bytes → ℤ → S → Result Err Decision × S
  pub unit : CostUnit

-- "ratelimit:"
abbrev pub namespace : Bytes
namespace = b'r' ∷ b'a' ∷ b't' ∷ b'e' ∷ b'l' ∷ b'i' ∷ b'm' ∷ b'i' ∷ b't' ∷ b':' ∷ []

unfoldable pub join_dims : KeyContext → List KeyBy → Bytes
unfolding value
join_dims k [] = []
join_dims k (dim ∷ dims) = b':' ∷ (value k dim ++ join_dims k dims)

unfoldable pub compose_key : {S : Type 0} → Rule S → KeyContext → Bytes
unfolding join_dims
compose_key r k = namespace ++ (r.name ++ join_dims k r.key_by)

-- Rule.Allow: the decision carries the rule's name
named : Bytes → Result Err Decision → Result Err Decision
named n (ok d) = ok (record d { rule = n })
named n (err e) = err e

unfoldable pub rule_allow : {S : Type 0} → Rule S → KeyContext → ℤ → S → Result Err Decision × S
unfolding named
rule_allow r k cost s = let (d, s') = r.limiter (compose_key r k) cost s in (named r.name d, s')

abbrev unit_of : CostUnit → CostUnit
unit_of unset = requests
unit_of requests = requests
unit_of tokens = tokens

same_unit : CostUnit → CostUnit → Bool
same_unit requests requests = true
same_unit tokens tokens = true
same_unit _ _ = false

unfoldable pub applies : {S : Type 0} → CostUnit → Rule S → Bool
unfolding same_unit
applies unit r = same_unit (unit_of r.unit) unit

-- the decision with the smaller Remaining, -1 being the start value
unfoldable pub tighter : Decision → Decision → Decision
tighter tightest d =
    if ltz tightest.remaining (pos 0) || ltz d.remaining tightest.remaining then d else tightest

module _ {S : Type 0} (k : KeyContext) (cost : ℤ) (unit : CostUnit) where
  -- one rule's answer, and what is left to do after it
  after_answer :
      Decision
      → Result Err Decision × S
      → (Decision → S → Result Err Decision × S)
      → Result Err Decision × S
  unfolding tighter
  after_answer tightest (err e, s) next = (err e, s)
  after_answer tightest (ok d, s) next =
      if not d.allowed then (ok d, s) else next (tighter tightest d) s

  unfoldable pub check_loop : List (Rule S) → Decision → S → Result Err Decision × S
  unfolding after_answer
  check_loop [] tightest s = (ok tightest, s)
  check_loop (r ∷ rules) tightest s =
      let next = check_loop rules in
      if not (applies unit r)
      then next tightest s
      else after_answer tightest (rule_allow r k cost s) next

  unfoldable pub check : List (Rule S) → S → Result Err Decision × S
  unfolding check_loop
  check [] s = (ok (record no_decision { allowed = true }), s)
  check (r ∷ rules) s =
      check_loop (r ∷ rules) (record no_decision { allowed = true; remaining = negsuc 0 }) s

unfoldable pub check_requests :
    {S : Type 0} → List (Rule S) → KeyContext → ℤ → S → Result Err Decision × S
check_requests rules k cost s = check k cost requests rules s

unfoldable pub check_tokens :
    {S : Type 0} → List (Rule S) → KeyContext → ℤ → S → Result Err Decision × S
check_tokens rules k n s = check k n tokens rules s
