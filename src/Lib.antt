-- ===== src/Lib.antt =====
-- X-Beacon, a gateway to several LLM providers (Go): a model of its core logic.
--
-- A chat request passes the middleware (authentication, rate limits), the chat handler (routing
-- rules, context compression, the response cache), and the router, which resolves the model to a
-- chain of providers and calls them with retries, fail-over and circuit breaking; the usage is then
-- priced. The files model these parts one by one:
--
-- - Errors: internal/provider/errors.go, the error classes of internal/router/breaker.go;
--   Errors.Http: the error tables of internal/provider/openai/errors.go,
--   internal/provider/anthropic/errors.go and internal/server/errmap.go.
-- - Router.Policy: internal/router/policy.go. Router.World is what the router calls.
--   Router.Retry and Router.Chain: tryProvider and ChatCompletion of internal/router/router.go.
--   Router.Stream: ChatCompletionStream and forwardStream of the same file.
-- - Registry: internal/provider/registry/registry.go; `path.Match` is a parameter.
-- - RateLimit: internal/ratelimit/ratelimit.go, over limiters that are functions on a shared state;
--   RateLimit.Loader: internal/ratelimit/loader.go, which makes the rules of a configuration;
--   RateLimit.Window: internal/ratelimit/redis_window.go, over the commands of Redis.
-- - Prompt: internal/prompt/compressor.go; Prompt.Tokens: pkg/tokenizer/tokenizer.go, over the codec.
-- - Route: internal/route/classifier.go and rule_classifier.go; the random source is a state.
-- - Auth: internal/auth/auth.go, static.go and cached.go.
-- - Pricing: internal/billing/pricing.go, beside an abstract table of the database.
-- - Wire: internal/provider/types.go. Chat: internal/server/chat.go and chat_stream.go; Chat.Request
--   reads the body, Chat.Handler goes from there to the answer, Chat.Stream sends a stream,
--   Chat.Stats gathers one and Chat.Replay plays a cached answer. Chat.Effects has the services that
--   the handler is given and what it does to the outside, as a list of effects.
-- - Adapters: internal/provider/openai and anthropic, over the HTTP client of Adapters.Http;
--   Adapters.Sse has the lines of internal/server/sse/writer.go and what the readers share.
-- - Registry.Loader: internal/provider/registry/loader.go. Billing.Worker: internal/billing/worker.go.
-- - Middleware: auth.go, scope.go and ratelimit.go of internal/server/middleware.
-- - Cache: internal/cache/exact.go, which fills the interface of the chat handler.
-- - Auth.Keystore: internal/auth/keystore.go and postgres.go. Audit: internal/audit/audit.go.
--   Billing.Logs: internal/billing/logs_query.go. Admin: admin_keys.go, admin_audit.go,
--   admin_logs.go and audit_helper.go of internal/server. An SQL statement is a function on the rows.
-- - Observability: TimeSeries, Metrics and Stats are timeseries.go, gateway_metrics.go and stats.go of
--   internal/observability.
-- - Messages: internal/server/messages.go, the endpoint that hands on what it gets.
--
-- Conventions. A Go function that returns a value and an error returns a `Result`. `int64` and
-- `time.Duration` are integers with the wrap-around written out where the code computes with them.
-- A provider is identified by its name, which the registry keeps unique. What the code calls and
-- the repository does not hold (gobreaker, Redis, the clock, the random source, the JSON codec) is
-- a parameter. The retry loop takes fuel; more than MaxRetries is enough. Logs and traces
-- are not modelled; of the metrics, the fail-over counter is an event, and the counter of requests
-- with what is read from it is in Observability.
mod Prelude
pub mod Wire
pub mod Errors
pub mod Router
pub mod Registry
pub mod Admin
pub mod Observability
pub mod RateLimit
pub mod Prompt
pub mod Route
pub mod Audit
pub mod Auth
pub mod Pricing
pub mod Chat
pub mod Billing
pub mod Middleware
pub mod Cache
pub mod Adapters
pub mod Messages
mod Tests
