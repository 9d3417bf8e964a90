-- ===== src/Chat.antt =====
-- internal/server: the handler of /v1/chat/completions.
pub mod Stats
pub mod Replay
pub mod Request
pub mod Effects
pub mod Stream
pub mod Handler
