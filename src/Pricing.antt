-- ===== src/Pricing.antt =====
-- internal/billing/pricing.go: the rate table in memory, beside the table in the database, and the
-- cost of a request. The mutex and the atomic pointer make each operation one step.
pub mod Coherent
pub mod History
pub mod Cost
use x_beacon.Prelude.{
  ℕ, suc, ◌+◌, ◌*◌, ◌/◌, ◌≡◌, Bool, true, false, ◌||◌, not, Result, ok, err, Option, none, some,
  String, List, [], ◌∷◌, str_eq, if◌then◌else◌,
}
use x_beacon.Prelude.Int.{ℤ, pos, negsuc, ltz, wrap64, negate, add64}
use x_beacon.Prelude.Maps.{GoMap, lookup, put, remove}
use x_beacon.Errors.{Err, other}

pub record Rate : Type 0 where
  pub model : String
  pub currency : String
  pub input_per_1k : ℤ
  pub output_per_1k : ℤ
  pub updated_at : ℤ

-- the first row of a model
abbrev pub row_of : String → List Rate → Option Rate
row_of k [] = none
row_of k (r ∷ rows) = if str_eq r.model k then some r else row_of k rows

abbrev pub DistinctModels : List Rate → Type 0
DistinctModels [] = Unit
DistinctModels (r ∷ rows) = (row_of r.model rows ≡ none) × DistinctModels rows

-- The statements on the table `model_pricing`, whose primary key is the model. `table` is what the
-- database holds. A statement that fails is taken as refused: a reply that is lost after the commit
-- is outside.
pub record Database : Type 1 where
  pub S : Type 0
  pub table : String → S → Option Rate
  pub query : S → Result Err (List Rate)
  pub upsert : Rate → S → Result Err ℤ × S  -- RETURNING updated_at
  pub delete : String → S → Result Err Bool × S  -- RowsAffected() != 0
  pub query_rows :
      (s : S) {rows : List Rate}
      → query s ≡ ok rows
      → DistinctModels rows × ((k : String) → row_of k rows ≡ table k s)
  pub upsert_row :
      (r : Rate) (s : S) {t : ℤ}
      → (upsert r s).0 ≡ ok t
      → (k : String)
      → table k (upsert r s).1
        ≡ (if str_eq r.model k then some (record r { updated_at = t }) else table k s)
  pub upsert_failed :
      (r : Rate) (s : S) {e : Err}
      → (upsert r s).0 ≡ err e
      → (k : String) → table k (upsert r s).1 ≡ table k s
  pub delete_row :
      (m : String) (s : S) {b : Bool}
      → (delete m s).0 ≡ ok b
      → (k : String) → table k (delete m s).1 ≡ (if str_eq m k then none else table k s)
  pub delete_nothing : (m : String) (s : S) → (delete m s).0 ≡ ok false → table m s ≡ none
  pub delete_failed :
      (m : String) (s : S) {e : Err}
      → (delete m s).0 ≡ err e
      → (k : String) → table k (delete m s).1 ≡ table k s

-- the snapshot; whether the cache was built with a pool is a parameter below
pub record PricingCache : Type 0 where
  pub snapshot : GoMap Rate

unfoldable pub new_pricing_cache : PricingCache
new_pricing_cache = record { snapshot = [] }

-- PricingCache.Lookup
unfoldable pub lookup_rate : PricingCache → String → Option Rate
lookup_rate c model = lookup model c.snapshot

-- `next[r.Model] = r` for every row
unfoldable pub load_rows : List Rate → GoMap Rate → GoMap Rate
load_rows [] next = next
load_rows (r ∷ rows) next = load_rows rows (put r.model r next)

unfoldable pub replace_one : Rate → PricingCache → PricingCache
replace_one r c = record c { snapshot = put r.model r c.snapshot }

remove_present : String → Option Rate → PricingCache → PricingCache
remove_present model none c = c
remove_present model (some r) c = record c { snapshot = remove model c.snapshot }

unfoldable pub remove_one : String → PricingCache → PricingCache
unfolding remove_present
remove_one model c = remove_present model (lookup model c.snapshot) c

-- `if r.Currency == ""`
unfoldable pub with_currency : Rate → Rate
with_currency r = if str_eq r.currency "" then record r { currency = "USD" } else r

module _ (db : Database) (has_pool : Bool) where
  open db use {S, query, upsert, delete}

  after_query : PricingCache → Result Err (List Rate) → Option Err × PricingCache
  after_query c (err e) = (some e, c)
  after_query c (ok rows) = (none, record c { snapshot = load_rows rows [] })

  unfoldable pub reload : PricingCache → S → Option Err × PricingCache
  unfolding after_query
  reload c s =
      if not has_pool
      then (some (other "billing: cache has no pool; cannot reload"), c)
      else after_query c (query s)

  after_upsert : PricingCache → Rate → Result Err ℤ → Option Err × PricingCache
  after_upsert c r (err e) = (some e, c)
  after_upsert c r (ok t) = (none, replace_one (record r { updated_at = t }) c)

  -- PricingCache.Set
  unfoldable pub set_rate : PricingCache → Rate → S → (Option Err × PricingCache) × S
  unfolding after_upsert
  set_rate c given s =
      let r = with_currency given in
      let (answer, s') = upsert r s in
      if not has_pool
      then ((some (other "billing: cache has no pool; cannot set"), c), s)
      else if str_eq given.model ""
      then ((some (other "billing: model is required"), c), s)
      else if ltz r.input_per_1k (pos 0) || ltz r.output_per_1k (pos 0)
      then ((some (other "billing: rates must be >= 0"), c), s)
      else (after_upsert c r answer, s')

  after_delete : PricingCache → String → Result Err Bool → Result Err Bool × PricingCache
  after_delete c model (err e) = (err e, c)
  after_delete c model (ok false) = (ok false, c)
  after_delete c model (ok true) = (ok true, remove_one model c)

  -- PricingCache.Delete
  unfoldable pub delete_rate : PricingCache → String → S → (Result Err Bool × PricingCache) × S
  unfolding after_delete
  delete_rate c model s =
      let (answer, s') = delete model s in
      if not has_pool
      then ((err (other "billing: cache has no pool; cannot delete"), c), s)
      else (after_delete c model answer, s')

-- the product of two `int64`, and the quotient, which Go rounds towards 0
unfoldable pub mul64 : ℤ → ℤ → ℤ
mul64 (pos a) (pos b) = wrap64 (pos (a * b))
mul64 (pos a) (negsuc b) = wrap64 (negate (pos (a * suc b)))
mul64 (negsuc a) (pos b) = wrap64 (negate (pos (suc a * b)))
mul64 (negsuc a) (negsuc b) = wrap64 (pos (suc a * suc b))

unfoldable pub quot_1000 : ℤ → ℤ
quot_1000 (pos n) = pos (n / 1000)
quot_1000 (negsuc n) = negate (pos (suc n / 1000))

unfoldable pub cost : Rate → ℤ → ℤ → ℤ
cost rate prompt_tokens completion_tokens =
    if str_eq rate.model ""
    then pos 0
    else add64 (quot_1000 (mul64 prompt_tokens rate.input_per_1k))
        (quot_1000 (mul64 completion_tokens rate.output_per_1k))
