-- ===== src/Rist.antt =====
-- internal/ingest/rist: the supervisor of ristreceiver.
pub mod Options
pub mod Patterns
pub mod Log
pub mod Receiver
pub mod Server
pub mod Monitor
mod Tests
