-- ===== src/Observability/Stats/Fold.antt =====
-- Folds over the metrics of internal/observability/stats.go.
use x_beacon.Prelude.{
  ℕ, ◌+◌, ◌%◌, ◌<◌, ◌≡◌, refl, ◌∙◌, Bool, false, List, [], ◌∷◌, ◌++◌, String, str_eq, if◌then◌else◌,
  Bool-cases, if-cases, inl, inr, arith,
}
use x_beacon.Observability.Stats.{
  Metric, Family, StatsSummary, two_64, label_value, count_requests, count_cost, count_token_metric,
  each, count_family, count_families,
}

-- the sum of the metrics that pass a test of their labels
abbrev pub sum_if : ((String → String) → Bool) → List Metric → ℕ
sum_if P [] = 0
sum_if P (m ∷ metrics) = (if P (label_value m.labels) then m.value else 0) + sum_if P metrics

abbrev pub of_family : String → List Family → List Metric
of_family name [] = []
of_family name (f ∷ families) =
    (if str_eq f.name name then f.metrics else []) ++ of_family name families

sum_if-append :
    (P : (String → String) → Bool) (k l : List Metric) → sum_if P (k ++ l) ≡ sum_if P k + sum_if P l
sum_if-append P [] l = omega arith
sum_if-append P (m ∷ k) l = omega (arith, sum_if-append P k l)

-- a field that a step leaves alone, one that it adds to
module _ (field : StatsSummary → ℕ) where
  abbrev pub Keeps : (Metric → StatsSummary → StatsSummary) → Type 0
  Keeps step = (m : Metric) (s : StatsSummary) → field (step m s) ≡ field s

  abbrev pub Adds : (Metric → StatsSummary → StatsSummary) → ((String → String) → Bool) → Type 0
  Adds step P =
      (m : Metric) (s : StatsSummary)
      → field s < two_64
      → field (step m s) ≡ (field s + (if P (label_value m.labels) then m.value else 0)) % two_64

  each-Keeps :
      (step : Metric → StatsSummary → StatsSummary)
      → Keeps step
      → (metrics : List Metric) (s : StatsSummary) → field (each step metrics s) ≡ field s
  unfolding each
  each-Keeps step keeps [] s = refl
  each-Keeps step keeps (m ∷ metrics) s = each-Keeps step keeps metrics (step m s) ∙ keeps m s

  each-Adds :
      (P : (String → String) → Bool) (step : Metric → StatsSummary → StatsSummary)
      → Adds step P
      → (metrics : List Metric) (s : StatsSummary) → field s < two_64
      → field (each step metrics s) ≡ (field s + sum_if P metrics) % two_64
  unfolding each
  each-Adds P step adds [] s h = omega arith
  each-Adds P step adds (m ∷ metrics) s h =
      let now = adds m s h in
      let below : field (step m s) < two_64 = omega (arith, now) in
      let rest = each-Adds P step adds metrics (step m s) below in omega (arith, now, rest)

  other-Keeps :
      Keeps count_cost
      → Keeps count_token_metric
      → (f : Family) (s : StatsSummary) → str_eq f.name "gateway_requests_total" ≡ false
      → field (count_family f s) ≡ field s
  unfolding count_family
  other-Keeps cost tokens f s b =
      let P : StatsSummary → Type 0 = λ r. field r ≡ field s in
      rw b (
        if-cases P (str_eq f.name "gateway_cost_micro_total")
          (λ h. each-Keeps count_cost cost f.metrics s)
          (λ h.
            if-cases P (str_eq f.name "gateway_tokens_total")
              (λ h. each-Keeps count_token_metric tokens f.metrics s) (λ h. refl)))

  family-Adds :
      (P : (String → String) → Bool)
      → Adds count_requests P
      → Keeps count_cost
      → Keeps count_token_metric
      → (f : Family) (s : StatsSummary) → field s < two_64
      → field (count_family f s)
        ≡ (field s + sum_if P (if str_eq f.name "gateway_requests_total" then f.metrics else []))
          % two_64
  unfolding count_family
  family-Adds P adds cost tokens f s h =
      elim (Bool-cases (str_eq f.name "gateway_requests_total")) [
        | inl b ↦ rw b (each-Adds P count_requests adds f.metrics s h)
        | inr b ↦ other-Keeps cost tokens f s b ∙ rw b (omega (arith, h))
      ]

  pub families-Adds :
      (P : (String → String) → Bool)
      → Adds count_requests P
      → Keeps count_cost
      → Keeps count_token_metric
      → (families : List Family) (s : StatsSummary) → field s < two_64
      → field (count_families families s)
        ≡ (field s + sum_if P (of_family "gateway_requests_total" families)) % two_64
  unfolding count_families
  families-Adds P adds cost tokens [] s h = omega arith
  families-Adds P adds cost tokens (f ∷ families) s h =
      let now = family-Adds P adds cost tokens f s h in
      let rest =
        families-Adds P adds cost tokens families (count_family f s) (omega (arith, now)) in
      let own = if str_eq f.name "gateway_requests_total" then f.metrics else [] in
      omega (arith, now, rest, sum_if-append P own (of_family "gateway_requests_total" families))
