-- ===== src/Tests/Stats.antt =====
-- A summary of three requests.
use x_beacon.Prelude.{String, List, [], ◌∷◌, refl}
use x_beacon.Observability.Metrics.{LabelSet, observe_request}
use x_beacon.Observability.Stats.{Family, count_families, empty_summary}
use x_beacon.Observability.Stats.Labels.{Observation, observe_all}
use x_beacon.Observability.Stats.Fold.{of_family}
use x_beacon.Observability.Stats.Laws.{Gathers, Tallied, count_families-Tallied}

abbrev responses : List Observation
responses =
    record { at = 120_000_000_000; provider = "openai"; model = "gpt-4o"; status = 500 }
    ∷ record { at = 60_000_000_000; provider = "openai"; model = "gpt-4o"; status = 404 }
    ∷ record { at = 60_000_000_000; provider = "anthropic"; model = "claude"; status = 200 }
    ∷ []

abbrev labels_of : String → String → String → LabelSet
labels_of p m status = ("provider", p) ∷ ("model", m) ∷ ("status", status) ∷ []

abbrev gathered : List Family
gathered =
    record {
      name = "gateway_tokens_total";
      metrics =
          record {
            labels = ("provider", "openai") ∷ ("model", "gpt-4o") ∷ ("type", "prompt") ∷ [];
            value = 12;
          }
          ∷ [];
    }
    ∷ record {
      name = "gateway_requests_total";
      metrics =
          record { labels = labels_of "openai" "gpt-4o" "5xx"; value = 1 }
          ∷ record { labels = labels_of "openai" "gpt-4o" "404"; value = 1 }
          ∷ record { labels = labels_of "anthropic" "claude" "2xx"; value = 1 }
          ∷ [];
    }
    ∷ []

gathered-Gathers :
    Gathers (observe_all responses).requests_total (of_family "gateway_requests_total" gathered)
unfolding observe_request
gathered-Gathers P = refl

stats_example : Tallied responses (count_families gathered empty_summary)
stats_example = count_families-Tallied responses gathered gathered-Gathers
