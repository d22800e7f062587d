-- ===== src/System/Tests.antt =====
-- A short history: an RTMP source comes, ffmpeg dies, the watchdog frees the slot, an SRT source
-- takes it and leaves.
use irl_universal_ingest.Prelude.{
  ℕ, ◌*◌, ◌/◌, arith, true, false, List, [], ◌∷◌, none, some, pos, pos_part, Text, ◌^◌, ◌<◌,
}
use irl_universal_ingest.Go.Strings.{codes}
use irl_universal_ingest.Go.Floats.{Floats}
use irl_universal_ingest.Backoff.{second}
use irl_universal_ingest.Relay.{Launch}
use irl_universal_ingest.Srt.Request.{Decoders, Request}
use irl_universal_ingest.Srt.Webhook.{WebhookHandler}
use irl_universal_ingest.Rist.Log.{Parsers}
use irl_universal_ingest.Rist.Options.{ServerOptions}
use irl_universal_ingest.Rist.Receiver.{Supervisor, System}
use irl_universal_ingest.Rist.Server.{Stream}
use irl_universal_ingest.System.{
  Event, rtmp_opens, srt_serves, fires, times_out, relay_exits, relay_proceeds, World, boot, run,
}
use irl_universal_ingest.Relay.Stop.{Quiet}
use irl_universal_ingest.System.{rist_beats, relay_stops, step}
use irl_universal_ingest.System.Shutdown.{shutdown_final}
use irl_universal_ingest.System.Idle.{total}
use irl_universal_ingest.Opening.{acquires}

instance abbrev whole : Floats ℕ
whole = record {
  of_int = pos_part;
  to_int = pos;
  mul = λ x y. x * y;
  div = λ x y. x / y;
  seconds = λ n. n / second;
}

abbrev parsers : Parsers ℕ
parsers = record { unmarshal = λ s. none; parse_float = λ s. none }

-- A query is one value of the key that it is asked for, and no body is JSON.
abbrev decoders : Decoders
decoders = record {
  parse_query = λ s.
      (codes "on_event", s)
      ∷ (codes "url", codes "publish/live/stream")
      ∷ (codes "streamid", s)
      ∷ [];
  unmarshal_map = λ s. none;
  unmarshal_stats = λ s. none;
}

abbrev event : Text → Request
event method = record { path = codes "/sls/on_event"; raw_query = method; body = [] }

abbrev handler : WebhookHandler
handler = record {
  allowed_paths = [];
  player_port = pos 8190;
  srtla_port = pos 8893;
  active_slot = none;
  active_path = [];
}

abbrev options : ServerOptions
options = record {
  rist_port = pos 8193;
  player_port = pos 8293;
  buffer_ms = pos 1000;
  profile = codes "main";
  secret = [];
  log_level = codes "info";
  allowed_paths = [];
}

abbrev stream : Stream
stream = record {
  active_slot = none;
  active_path = [];
  active = false;
  last_cname = [];
  last_activity = 0;
}

abbrev receiver : Supervisor × System
receiver = (
  record {
    binary_path = [];
    cmd = none;
    cancelled = false;
    stopping = false;
    restart_attempt = 0;
    last_forced_restart = 0;
    health = none;
  },
  record { processes = 0; alive = []; killed = []; reapers = [] },
)

abbrev good : Launch
good = record { pipe_ok = true; start_ok = true }

abbrev history : List Event
history =
    rtmp_opens (1 * second) good (acquires (1 * second) (codes "SRT") (codes "/live/stream") ∷ [])
      (some (codes "/live/stream"))
    ∷ relay_exits 0
    ∷ relay_proceeds 0 good
    ∷ fires (20 * second)
    ∷ times_out 0
    ∷ srt_serves (21 * second) good [] (event (codes "on_connect"))
    ∷ srt_serves (22 * second) good [] (event (codes "on_close"))
    ∷ []

abbrev final : World ℕ
final =
    run parsers decoders history
      (boot (pos (10 * second)) (codes "udp://127.0.0.1:8888") [] handler options stream receiver)

-- A source is connected when the relay is stopped; its ffmpeg exits and its watcher goes on.
abbrev live : List Event
live = srt_serves (1 * second) good [] (event (codes "on_connect")) ∷ []

abbrev closing : List Event
closing =
    relay_exits 0
    ∷ relay_proceeds 0 good
    ∷ fires (30 * second)
    ∷ times_out 0
    ∷ rist_beats (31 * second)
    ∷ relay_stops
    ∷ []

abbrev booted : World ℕ
booted = boot (pos (10 * second)) (codes "udp://127.0.0.1:8888") [] handler options stream receiver

live_small : total live < 2 ^ 64
unfolding total
live_small = omega arith

shutdown_final_example :
    Quiet
      (run parsers decoders closing
        (step parsers decoders relay_stops (run parsers decoders live booted))).relay
shutdown_final_example =
    shutdown_final parsers decoders (pos (10 * second)) (codes "udp://127.0.0.1:8888") [] handler
      options stream receiver live closing live_small (tt, (tt, (tt, (tt, (tt, (tt, tt))))))
