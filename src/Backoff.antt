-- ===== src/Backoff.antt =====
-- The delay before a retry, which internal/relay/ffmpeg.go (scheduleRestart),
-- internal/ingest/rist/server.go (reapProcess) and internal/ingest/rtmp/server.go (acceptLoop)
-- each compute: a shift of an int64 that may overflow, and a test that catches it.
pub mod Bounds
use irl_universal_ingest.Prelude.{ℕ, ◌*◌, ◌^◌, ℤ, pos, ltb_ℤ, leb_ℤ, to_int64, ◌||◌, if◌then◌else◌}

-- A time.Duration counts nanoseconds.
abbrev pub millisecond : ℕ
millisecond = 1_000_000

abbrev pub second : ℕ
second = 1_000_000_000

-- delay := base << attempt; if delay > max || delay <= 0 { delay = max }
unfoldable pub backoff : ℕ → ℕ → ℕ → ℤ
backoff base max attempt =
    let delay = to_int64 (base * 2 ^ attempt) in
    if ltb_ℤ (pos max) delay || leb_ℤ delay (pos 0) then pos max else delay
