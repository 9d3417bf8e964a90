-- ===== src/Observability/Stats.antt =====
-- internal/observability/stats.go: the summary of the admin dashboard, read from the metrics that the
-- Prometheus registry gathers. A counter holds a number of at most 2 ^ 53, which its float has exactly.
-- The quantile of the histogram is left out; sort.Slice is a parameter.
pub mod Fold
pub mod Labels
pub mod Laws
use x_beacon.Prelude.{
  ℕ, ◌+◌, ◌%◌, Bool, ◌||◌, ◌&&◌, Result, ok, err, Option, none, some, String, List, [], ◌∷◌, str_eq,
  ltb, if◌then◌else◌,
}
use x_beacon.Prelude.Int.{ℤ, pos, add64}
use x_beacon.Prelude.Maps.{contains}
use x_beacon.Prelude.Pages.{page}
use x_beacon.Observability.Metrics.{LabelSet}

-- dto.Metric, a counter's
pub record Metric : Type 0 where
  pub labels : LabelSet
  pub value : ℕ

pub record Family : Type 0 where
  pub name : String
  pub metrics : List Metric

pub record ModelBreakdown : Type 0 where
  pub provider : String
  pub model : String
  pub requests : ℕ
  pub prompt_tokens : ℕ
  pub completion_tokens : ℕ
  pub cost_micro : ℤ

pub record StatsSummary : Type 0 where
  pub requests_total : ℕ
  pub errors_4xx : ℕ
  pub errors_5xx : ℕ
  pub cost_micro_total : ℤ
  pub per_model : List ModelBreakdown  -- the rows of TopModels before they are sorted and cut

abbrev pub empty_summary : StatsSummary
empty_summary = record {
  requests_total = 0;
  errors_4xx = 0;
  errors_5xx = 0;
  cost_micro_total = pos 0;
  per_model = [];
}

abbrev pub two_64 : ℕ
two_64 = 18446744073709551616

-- addition on uint64
unfoldable pub add_uint64 : ℕ → ℕ → ℕ
add_uint64 a b = (a + b) % two_64

unfoldable pub label_value : LabelSet → String → String
label_value [] name = ""
label_value ((k, v) ∷ labels) name = if str_eq k name then v else label_value labels name

unfoldable pub is_4xx : String → Bool
is_4xx status = contains status ("401" ∷ "403" ∷ "404" ∷ "413" ∷ "429" ∷ "4xx" ∷ [])

unfoldable pub is_5xx : String → Bool
is_5xx status = contains status ("502" ∷ "503" ∷ "504" ∷ "5xx" ∷ [])

new_breakdown : String → String → ModelBreakdown
new_breakdown p m = record {
  provider = p;
  model = m;
  requests = 0;
  prompt_tokens = 0;
  completion_tokens = 0;
  cost_micro = pos 0;
}

-- getOrInit and the change of the row
unfoldable pub with_row :
    String → String → (ModelBreakdown → ModelBreakdown) → List ModelBreakdown → List ModelBreakdown
unfolding new_breakdown
with_row p m change [] = change (new_breakdown p m) ∷ []
with_row p m change (row ∷ rows) =
    if str_eq row.provider p && str_eq row.model m
    then change row ∷ rows
    else row ∷ with_row p m change rows

unlabelled : String → String → Bool
unlabelled p m = str_eq p "" && str_eq m ""

-- one metric of gateway_requests_total
unfoldable pub count_requests : Metric → StatsSummary → StatsSummary
unfolding add_uint64 unlabelled
count_requests m s =
    let status = label_value m.labels "status" in
    let p = label_value m.labels "provider" in
    let model = label_value m.labels "model" in
    record {
      requests_total = add_uint64 s.requests_total m.value;
      errors_4xx = if is_4xx status then add_uint64 s.errors_4xx m.value else s.errors_4xx;
      errors_5xx =
          if is_4xx status
          then s.errors_5xx
          else if is_5xx status
          then add_uint64 s.errors_5xx m.value
          else s.errors_5xx;
      cost_micro_total = s.cost_micro_total;
      per_model =
          if unlabelled p model
          then s.per_model
          else with_row p model (λ row. record row { requests = add_uint64 row.requests m.value })
              s.per_model;
    }

-- one metric of gateway_cost_micro_total
unfoldable pub count_cost : Metric → StatsSummary → StatsSummary
unfolding unlabelled
count_cost m s =
    let p = label_value m.labels "provider" in
    let model = label_value m.labels "model" in
    record s {
      cost_micro_total = add64 s.cost_micro_total (pos m.value);
      per_model =
          if unlabelled p model
          then s.per_model
          else with_row p model
              (λ row. record row { cost_micro = add64 row.cost_micro (pos m.value) }) s.per_model;
    }

tokens_into : String → ℕ → ModelBreakdown → ModelBreakdown
unfolding add_uint64
tokens_into type v row =
    if str_eq type "prompt"
    then record row { prompt_tokens = add_uint64 row.prompt_tokens v }
    else if str_eq type "completion"
    then record row { completion_tokens = add_uint64 row.completion_tokens v }
    else row

-- one metric of gateway_tokens_total
unfoldable pub count_token_metric : Metric → StatsSummary → StatsSummary
unfolding unlabelled tokens_into
count_token_metric m s =
    let p = label_value m.labels "provider" in
    let model = label_value m.labels "model" in
    record s {
      per_model =
          if unlabelled p model
          then s.per_model
          else with_row p model (tokens_into (label_value m.labels "type") m.value) s.per_model;
    }

unfoldable pub each :
    (Metric → StatsSummary → StatsSummary) → List Metric → StatsSummary → StatsSummary
each step [] s = s
each step (m ∷ metrics) s = each step metrics (step m s)

unfoldable pub count_family : Family → StatsSummary → StatsSummary
unfolding count_requests count_cost count_token_metric each
count_family f s =
    if str_eq f.name "gateway_requests_total"
    then each count_requests f.metrics s
    else if str_eq f.name "gateway_cost_micro_total"
    then each count_cost f.metrics s
    else if str_eq f.name "gateway_tokens_total"
    then each count_token_metric f.metrics s
    else s

unfoldable pub count_families : List Family → StatsSummary → StatsSummary
unfolding count_family
count_families [] s = s
count_families (f ∷ families) s = count_families families (count_family f s)

-- the collector's memory: the last summary and its time
abbrev pub Cached : Type 0
Cached = Option (StatsSummary × ℕ)

abbrev pub stats_ttl : ℕ
stats_ttl = 5_000_000_000

-- Summary after the memory had nothing fresh
gathered_summary : ℕ → Option (List Family) → Cached → Result String StatsSummary × Cached
unfolding count_families
gathered_summary now none cached = (err "gather failed", cached)
gathered_summary now (some families) cached =
    let s = count_families families empty_summary in (ok s, some (s, now))

unfoldable pub summary : ℕ → Option (List Family) → Cached → Result String StatsSummary × Cached
unfolding gathered_summary
summary now gathered none = gathered_summary now gathered none
summary now gathered (some (s, at)) =
    if ltb now (at + stats_ttl)
    then (ok s, some (s, at))
    else gathered_summary now gathered (some (s, at))

-- topModels; `sorted` is sort.Slice by requests and cost, the larger first
unfoldable pub top_models :
    (List ModelBreakdown → List ModelBreakdown) → StatsSummary → List ModelBreakdown
unfolding page
top_models sorted s = page 10 0 (sorted s.per_model)
