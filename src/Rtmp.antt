-- ===== src/Rtmp.antt =====
-- internal/ingest/rtmp: the RTMP server's stream to the relay.
pub mod Server
pub mod Flv
pub mod Numbers
pub mod Stream
pub mod Connection
pub mod Accept
