-- ===== src/Tests.antt =====
-- The theorems at concrete inputs, and small runs of the definitions.
mod Worlds
mod Router
mod Stream
mod Registry
mod RateLimit
mod Prompt
mod Route
mod Auth
mod Pricing
mod Chat
mod Billing
mod Middleware
mod Cache
mod Adapters
mod Admin
mod Messages
mod Stats
mod Observability
