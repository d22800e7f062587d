-- ===== src/Rist/Tests.antt =====
-- The RIST adapter on the lines of server_test.go and on concrete states.
use irl_universal_ingest.Opening.{alone}
use irl_universal_ingest.Prelude.{
  ℕ, ◌*◌, ◌/◌, ◌<◌, ◌≤◌, ◌≡◌, ◌↔◌, ◌⊎◌, refl, true, false, List, [], ◌∷◌, none, some, pos, pos_part,
  text_beq, Text, if◌then◌else◌,
}
use irl_universal_ingest.Go.Strings.{codes, to_upper, lower_byte, trim_suffix}
use irl_universal_ingest.Go.Bufio.{scan_lines}
use irl_universal_ingest.Go.Floats.{Floats}
use irl_universal_ingest.Backoff.{second}
use irl_universal_ingest.Auth.{is_allowed}
use irl_universal_ingest.Arbitration.{Manager, SlotInfo, Release, new_manager, contains, touch}
use irl_universal_ingest.Arbitration.Exclusion.{holder}
use irl_universal_ingest.Relay.{Relay, Host, is_running, stop_session}
use irl_universal_ingest.Relay as FfmpegRelay
use irl_universal_ingest.Relay.Steps.{begin}
use irl_universal_ingest.Rist.Options.{ServerOptions, with_defaults, build_args}
use irl_universal_ingest.Rist.Log.{
  StatsMetric, RistStatsPayload, Parsers, from_brace, parse_log_line,
}
use irl_universal_ingest.Rist.Log.Liveness.{IsLive, parse_log_line-has_stats}
use irl_universal_ingest.Rist.Receiver.{
  Supervisor, System, waiting, sleeping, Launch, close_receiver,
}
use irl_universal_ingest.Rist.Receiver.Steps.{Event, restarts, exits, proceeds, member, run}
use irl_universal_ingest.Rist.Receiver.Close.{close_receiver_final}
use irl_universal_ingest.Rist.Receiver.Orphan.{overlap, run-overlap}
use irl_universal_ingest.Rist.Server.{World, stream_path, handle_activity, heartbeat_tick}
use irl_universal_ingest.Rist.Server.Heartbeat.{heartbeat_tick_silence}
use irl_universal_ingest.Rist.Server.Activity.{handle_activity-slot, handle_activity-holder}

instance abbrev whole : Floats ℕ
whole = record {
  of_int = pos_part;
  to_int = pos;
  mul = λ x y. x * y;
  div = λ x y. x / y;
  seconds = λ n. n / second;
}

abbrev options : ServerOptions
options = with_defaults (record {
  rist_port = pos 8193;
  player_port = pos 0;
  buffer_ms = pos 0;
  profile = [];
  secret = [];
  log_level = codes "info";
  allowed_paths = codes "/live/stream" ∷ [];
})

test_args :
    build_args options
    ≡ codes "-i"
      ∷ codes "rist://@0.0.0.0:8193"
      ∷ codes "-o"
      ∷ codes "udp://127.0.0.1:8293"
      ∷ codes "-p"
      ∷ codes "1"
      ∷ codes "-b"
      ∷ codes "1000"
      ∷ codes "-S"
      ∷ codes "1000"
      ∷ codes "-v"
      ∷ codes "6"
      ∷ []
unfolding build_args with_defaults text_beq lower_byte
test_args = refl

-- A decoder that knows one payload, and expressions that find what a line of the tests says.
abbrev payload : RistStatsPayload ℕ
payload = record {
  dead = pos 0;
  quality = 100;
  lost = 2;
  peers = record { dead = pos 0; rtt = 5; bitrate = pos 563_686 } ∷ [];
}

abbrev parsers : Parsers ℕ
parsers = record { unmarshal = λ s. some payload; parse_float = λ s. none }

abbrev line : Text
line = codes "[INFO] {}"

test_line : (parse_log_line parsers line).bitrate_kbps ≡ pos 563
unfolding parse_log_line
test_line = refl

parse_log_line-has_stats_example : ((parse_log_line parsers line).has_stats ≡ true) ↔ (
    (json : Text) × (flow : RistStatsPayload ℕ) × (from_brace line ≡ some json)
    × (some payload ≡ some flow)
    × IsLive flow)
parse_log_line-has_stats_example = parse_log_line-has_stats parsers line

abbrev works : Launch
works = record { stdout_error = none; stderr_error = none; start_error = none }

-- A forced restart has started process 1, while the restart of process 0 is asleep.
abbrev supervisor : Supervisor
supervisor = record {
  binary_path = codes "ristreceiver";
  cmd = some 1;
  cancelled = false;
  stopping = false;
  restart_attempt = 1;
  last_forced_restart = 10 * second;
  health = none;
}

abbrev system : System
system = record {
  processes = 2;
  alive = 1 ∷ [];
  killed = [];
  reapers = waiting 1 ∷ sleeping (pos 500_000_000) (codes "ristreceiver") ∷ [];
}

abbrev single : System
single = record system { reapers = waiting 1 ∷ [] }

unkilled : member single.processes single.killed ≡ false
unfolding member
unkilled = refl

run-overlap_example :
    let (t, z) = run (overlap 1 (20 * second) works works) (supervisor, single) in
    (z.alive ≡ 3 ∷ 2 ∷ []) × (member 2 z.killed ≡ false) × (t.cmd ≡ some 3)
run-overlap_example =
    run-overlap 1 (20 * second) works works supervisor single refl refl refl unkilled refl refl
      (λ e. cc) refl refl refl

abbrev later : List Event
later = restarts (20 * second) works ∷ proceeds 1 works ∷ exits 1 ∷ []

close_receiver_final_example :
    let (t, z) = run later (close_receiver (supervisor, system)) in
    (z.processes ≡ 2) × ((pid : ℕ) → member pid z.alive ≡ true → member pid z.killed ≡ true)
close_receiver_final_example = close_receiver_final supervisor system later (tt, (tt, (tt, tt)))

abbrev session : Release
session = record { session = 0; protocol = codes "RIST"; path = codes "/live/stream" }

abbrev slot : Text → SlotInfo ℕ
slot protocol = record {
  protocol = protocol;
  path = codes "/live/stream";
  started_at = 1 * second;
  last_seen = 20 * second;
  bitrate_kbps = pos 0;
  rtt = none;
}

abbrev manager : Manager ℕ (Relay × Host)
manager = record (new_manager (pos (10 * second)) (some (λ _ _ w. stop_session w))) { sessions = 1 }

abbrev idle : World ℕ
idle = record {
  opts = options;
  stream = record {
    active_slot = none;
    active_path = [];
    active = false;
    last_cname = [];
    last_activity = 20 * second;
  };
  manager = manager;
  relay = begin (codes "udp://127.0.0.1:8888");
  receiver = (supervisor, system);
}

abbrev held_by : Text → World ℕ
held_by protocol = record idle {
  stream = record idle.stream {
    active_slot = some session;
    active_path = codes "/live/stream";
    active = true;
  };
  manager = record manager { active_slot = some (slot protocol) };
  relay = (record idle.relay.0 { running = true }, idle.relay.1);
}

abbrev own : World ℕ
own = held_by (codes "RIST")

heartbeat_tick_silence_example :
    let v = heartbeat_tick (26 * second) own in
    (6 * second ≤ 3 * second
      → v ≡ (
          if is_running own.relay.0
          then record own { manager = touch (26 * second) own.manager }
          else own))
    × (3 * second < 6 * second → 6 * second ≤ 5 * second → v ≡ own)
    × (5 * second < 6 * second
        → (v.stream.active ≡ false)
          × (v.relay.0.stopped ≡ true)
          × (is_running v.relay.0 ≡ false)
          × ((r : Release)
              → own.stream.active_slot ≡ some r
              → contains r.session own.manager.released ≡ false
              → to_upper r.protocol ≡ r.protocol
              → holder own.manager ≡ some (r.protocol, r.path)
              → holder v.manager ≡ none))
heartbeat_tick_silence_example = heartbeat_tick_silence (26 * second) own refl

abbrev launch : FfmpegRelay.Launch
launch = record { pipe_ok = true; start_ok = true }

allowed : is_allowed (stream_path options.allowed_paths idle.stream) options.allowed_paths ≡ true
unfolding is_allowed stream_path with_defaults text_beq
allowed = refl

allowed_held :
    is_allowed (stream_path options.allowed_paths own.stream) options.allowed_paths ≡ true
unfolding is_allowed stream_path with_defaults text_beq
allowed_held = refl

abbrev metric : StatsMetric ℕ
metric = record {
  cname = [];
  bitrate_kbps = pos 563;
  rtt_ms = pos 5;
  quality = 100;
  lost_packets = 2;
  connected = false;
  disconnected = false;
  has_stats = true;
}

-- The watchdog has freed the RIST session's slot, and an RTMP source has acquired it.
handle_activity-slot_example :
    let w = held_by (codes "RTMP") in
    (t : SlotInfo ℕ) × ((handle_activity
        (21 * second)
        (alone launch)
        works
        metric
        w).manager.active_slot
      ≡ some t)
    × (t.protocol ≡ codes "RTMP")
    × (t.path ≡ codes "/live/stream")
    × (t.last_seen ≡ 21 * second)
    × (t.bitrate_kbps ≡ pos 563)
    × (t.rtt ≡ some 5)
handle_activity-slot_example =
    handle_activity-slot (21 * second) launch works metric (held_by (codes "RTMP"))
      (slot (codes "RTMP")) refl refl allowed_held

new_session : contains idle.manager.sessions idle.manager.released ≡ false
unfolding new_manager contains
new_session = refl

handle_activity-holder_example :
    let v = handle_activity (21 * second) (alone launch) works metric idle in
    ((h : Text × Text)
      → idle.stream.active ≡ false
      → holder idle.manager ≡ some h
      → (v.relay ≡ idle.relay) × (v.manager ≡ idle.manager))
    × (holder idle.manager ≡ none
        → ((launch.start_ok ≡ true)
            × (v.stream.active ≡ true)
            × (is_running v.relay.0 ≡ true)
            × (holder v.manager
                ≡ some (codes "RIST", stream_path options.allowed_paths idle.stream)))
          ⊎ ((launch.start_ok ≡ false) × (v.stream.active ≡ false) × (holder v.manager ≡ none)))
handle_activity-holder_example =
    handle_activity-holder (21 * second) launch works metric idle new_session allowed

-- A carriage return is dropped; a line that does not fit the buffer ends the scan.
test_scan : scan_lines 6 (codes "ab\r\ncd\nlonger\nx") ≡ (codes "ab" ∷ codes "cd" ∷ [], true)
unfolding scan_lines trim_suffix
test_scan = refl
