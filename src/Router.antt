-- ===== src/Router.antt =====
-- internal/router: retry, fail-over and circuit breaking around the calls of the providers.
pub mod Policy
pub mod World
pub mod Retry
pub mod Chain
pub mod Stream
