-- ===== src/Observability/Stats/Laws.antt =====
-- The counts of a summary are those of the requests observed.
use x_beacon.Prelude.{
  ◌%◌, ◌≡◌, refl, Bool, List, [], ◌∷◌, String, count_if, length, Bool-cases, inl, inr, arith,
}
use x_beacon.Observability.Metrics.{LabelSet, observe_request}
use x_beacon.Observability.Stats.{
  Metric, Family, StatsSummary, empty_summary, two_64, add_uint64, label_value, is_4xx, is_5xx,
  count_requests, count_cost, count_token_metric, count_families,
}
use x_beacon.Observability.Stats.Fold.{sum_if, of_family, Adds, families-Adds}
use x_beacon.Observability.Stats.Labels.{
  Observation, observe_all, between, anything, client_error, server_error, incs-client, incs-server,
}

-- The increments of a counter, by label sets, as they are gathered: the metrics whose labels pass a test
-- sum up to the increments that do, since each label set has one metric, which counts its increments.
abbrev pub Gathers : List LabelSet → List Metric → Type 0
Gathers incs metrics =
    (P : (String → String) → Bool)
    → sum_if P metrics ≡ count_if (λ labels. P (label_value labels)) incs

-- The summary counts the requests, and those of 400 to 499 and of 500 to 599.
pub record Tallied (history : List Observation) (s : StatsSummary) : Type 0 where
  pub all_are : s.requests_total ≡ length history % two_64
  pub client_are : s.errors_4xx ≡ count_if (between 400 500) history % two_64
  pub server_are : s.errors_5xx ≡ count_if (between 500 600) history % two_64

requests-Adds : Adds (λ s. s.requests_total) count_requests anything
unfolding count_requests add_uint64
requests-Adds m s h = refl

client-Adds : Adds (λ s. s.errors_4xx) count_requests client_error
unfolding count_requests add_uint64
client-Adds m s h = elim (Bool-cases (is_4xx (label_value m.labels "status"))) [
  | inl b ↦ rw b refl
  | inr b ↦ rw b (omega (arith, h))
]

server-Adds : Adds (λ s. s.errors_5xx) count_requests server_error
unfolding count_requests add_uint64
server-Adds m s h = elim (Bool-cases (is_4xx (label_value m.labels "status"))) [
  | inl b ↦ rw b (omega (arith, h))
  | inr b ↦ elim (Bool-cases (is_5xx (label_value m.labels "status"))) [
    | inl c ↦ rw (b, c) refl
    | inr c ↦ rw (b, c) (omega (arith, h))
  ]
]

incs-all :
    (history : List Observation)
    → count_if (λ labels. anything (label_value labels)) (observe_all history).requests_total
      ≡ length history
unfolding observe_request
incs-all [] = refl
incs-all (o ∷ history) = omega (arith, incs-all history)

-- When the registry gathers the counter of requests as it was incremented, the summary has the number
-- of all observed requests, of those with a status from 400 to 499 and of those with one from 500 to
-- 599, each modulo 2 ^ 64.
pub count_families-Tallied :
    (history : List Observation) (families : List Family)
    → Gathers (observe_all history).requests_total (of_family "gateway_requests_total" families)
    → Tallied history (count_families families empty_summary)
unfolding count_cost count_token_metric
count_families-Tallied history families gathers =
    let total =
      families-Adds (λ s. s.requests_total) anything requests-Adds (λ m s. refl) (λ m s. refl)
        families empty_summary (omega arith) in
    let client =
      families-Adds (λ s. s.errors_4xx) client_error client-Adds (λ m s. refl) (λ m s. refl)
        families empty_summary (omega arith) in
    let server =
      families-Adds (λ s. s.errors_5xx) server_error server-Adds (λ m s. refl) (λ m s. refl)
        families empty_summary (omega arith) in
    record {
      all_are = omega (arith, total, gathers anything, incs-all history);
      client_are = omega (arith, client, gathers client_error, incs-client history);
      server_are = omega (arith, server, gathers server_error, incs-server history);
    }
