-- ===== src/Srt.antt =====
-- internal/ingest/srt: the adapter of irl-srt-server.
pub mod Stats
pub mod Ports
pub mod Readiness
pub mod Server
pub mod Webhook
pub mod Config
pub mod Request
mod Tests
