-- ===== src/Go/Clock.antt =====
-- Package time. A time.Time is the nanoseconds since Go's zero time, read from a clock that does
-- not run backwards; a difference saturates at the largest Duration.
use irl_universal_ingest.Prelude.{ℕ, ◌-◌, ◌^◌, min}

abbrev pub Time : Type 0
Time = ℕ

abbrev pub zero_time : Time
zero_time = 0

abbrev pub max_duration : ℕ
max_duration = 2 ^ 63 - 1

-- now.Sub(t), for t not after now.
abbrev pub since : Time → Time → ℕ
since now t = min (now - t) max_duration
