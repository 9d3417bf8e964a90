-- ===== src/Adapters.antt =====
-- internal/provider/openai and internal/provider/anthropic: the adapters of the providers.
pub mod Sse
pub mod Http
pub mod Openai
pub mod Anthropic
