-- ===== src/Observability/Metrics.antt =====
-- internal/observability/gateway_metrics.go: what a request adds to the metrics. A counter of
-- Prometheus is the list of the label sets that it was incremented with.
use x_beacon.Prelude.{ℕ, String, List, [], ◌∷◌, ◌==◌, ltb, leb, ◌&&◌, if◌then◌else◌}
use x_beacon.Prelude.Int.{pos}
use x_beacon.Observability.TimeSeries.{Slots, no_slots, record_status}

abbrev pub LabelSet : Type 0
LabelSet = List (String × String)

pub record Metrics : Type 0 where
  pub requests_total : List LabelSet
  pub timeseries : Slots

abbrev pub no_metrics : Metrics
no_metrics = record { requests_total = []; timeseries = no_slots }

-- the labels of the classes of 400 to 499, and of 500 to 599
unfoldable pub client_label : ℕ → String
client_label status =
    if status == 401
    then "401"
    else if status == 403
    then "403"
    else if status == 404
    then "404"
    else if status == 413
    then "413"
    else if status == 429
    then "429"
    else "4xx"

unfoldable pub server_label : ℕ → String
server_label status =
    if status == 502
    then "502"
    else if status == 503
    then "503"
    else if status == 504
    then "504"
    else "5xx"

unfoldable pub status_label : ℕ → String
unfolding client_label server_label
status_label status =
    if leb 200 status && ltb status 300
    then "2xx"
    else if leb 300 status && ltb status 400
    then "3xx"
    else if leb 400 status && ltb status 500
    then client_label status
    else if leb 500 status && ltb status 600
    then server_label status
    else "unknown"

-- ObserveRequest at a time, less the histogram of durations
unfoldable pub observe_request : ℕ → String → String → ℕ → Metrics → Metrics
unfolding status_label
observe_request now provider model status m = record {
  requests_total =
      (("provider", provider) ∷ ("model", model) ∷ ("status", status_label status) ∷ [])
      ∷ m.requests_total;
  timeseries = record_status now (pos status) m.timeseries;
}
