-- ===== src/Observability.antt =====
-- internal/observability: the ring of the last hour, the request counter and the summary read from it.
-- The Prometheus registry is outside.
pub mod TimeSeries
pub mod Metrics
pub mod Stats
