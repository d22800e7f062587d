-- ===== src/Rist/Server.antt =====
-- internal/ingest/rist/server.go: what a line of ristreceiver and the heartbeat do to the slot and the
-- relay. Each handler holds the server's mutex; what the systems answer is an argument.
pub mod Activity
pub mod Heartbeat
use irl_universal_ingest.Opening.{Opening, alone}
use irl_universal_ingest.Prelude.{
  ℕ, ◌+◌, ◌*◌, Bool, true, false, ◌&&◌, ◌||◌, not, List, [], ◌∷◌, ◌++◌, Option, none, some, ℤ, pos,
  ltb, leb, ltb_ℤ, Text, text_eq, ◌==◌, if◌then◌else◌,
}
use irl_universal_ingest.Go.Strings.{codes, contains}
use irl_universal_ingest.Go.Format.{print_int}
use irl_universal_ingest.Go.Clock.{Time, since}
use irl_universal_ingest.Go.Floats.{Floats}
use irl_universal_ingest.Backoff.{second}
use irl_universal_ingest.Auth.{normalize_path, is_allowed}
use irl_universal_ingest.Arbitration.{
  Manager, Release, try_acquire, touch, set_rtt, set_bitrate, active_info, release,
}
use irl_universal_ingest.Relay.{
  Relay, Host, Started, ok, err, start_session, stop_session, is_running,
}
use irl_universal_ingest.Relay as FfmpegRelay
use irl_universal_ingest.Rist.Options.{ServerOptions}
use irl_universal_ingest.Rist.Log.{StatsMetric, Parsers, parse_log_line}
use irl_universal_ingest.Rist.Receiver.{
  Supervisor, System, Launch, restart_receiver, count_attempt, close_receiver,
}

abbrev pub activity_freshness : ℕ
activity_freshness = 3 * second

abbrev pub stale_disconnect_threshold : ℕ
stale_disconnect_threshold = activity_freshness + 2 * second

-- The server's fields about the stream.
pub record Stream : Type 0 where
  pub active_slot : Option Release
  pub active_path : Text
  pub active : Bool
  pub last_cname : Text
  pub last_activity : Time

-- The server, with what it shares: the manager, the relay and the receiver's process.
pub record World (F : Type 0) : Type 0 where
  pub opts : ServerOptions
  pub stream : Stream
  pub manager : Manager F (Relay × Host)
  pub relay : Relay × Host
  pub receiver : Supervisor × System

abbrev pub inactive : Stream → Stream
inactive s = record s { active_slot = none; active_path = []; active = false }

abbrev pub call_release :
    {F : Type 0}
    → Option Release
    → Manager F (Relay × Host) × (Relay × Host)
    → Manager F (Relay × Host) × (Relay × Host)
call_release none w = w
call_release (some r) w = release r w

unfoldable pub player_url : ℤ → Text
unfolding print_int
player_url port =
    codes "udp://127.0.0.1:" ++ (print_int port ++ codes "?overrun_nonfatal=1&fifo_size=500000")

-- The path before it is cleaned.
unfoldable pub raw_path : List Text → Stream → Text
raw_path (p ∷ []) s = p
raw_path [] s =
    if not (s.last_cname == [])
    then s.last_cname
    else if not (s.active_path == [])
    then s.active_path
    else codes "/live/stream"
raw_path (p ∷ q ∷ ps) s =
    if not (s.last_cname == [])
    then s.last_cname
    else if not (s.active_path == [])
    then s.active_path
    else p

unfoldable pub stream_path : List Text → Stream → Text
unfolding raw_path
stream_path allowed s = normalize_path (raw_path allowed s)

module _ {F : Type 0} where
  unfoldable pub stop_active_stream : World F → World F
  stop_active_stream w =
      let (m, back) = call_release w.stream.active_slot (w.manager, w.relay) in
      if w.stream.active
      then record w { stream = inactive w.stream; manager = m; relay = stop_session back }
      else w

  -- An unauthorized stream.
  unfoldable pub reject : Time → Launch → World F → World F
  unfolding stop_active_stream
  reject now relaunch w =
      let v = stop_active_stream w in
      record v { receiver = restart_receiver now relaunch v.receiver }

  -- If the manager's own watchdog has released the slot, the server is not active either.
  unfoldable pub resync : World F → World F
  resync w = elim (active_info w.manager) [
    | some _ ↦ w
    | none ↦ if w.stream.active then record w { stream = inactive w.stream } else w
  ]

  -- Claiming the slot for an inactive server: whether the handler goes on. TryAcquire and
  -- StartSession hold different mutexes.
  unfoldable pub claim : Time → Opening F → Text → World F → World F × Bool
  unfolding player_url
  claim now o path w =
      let (m, acquired) = try_acquire now (codes "RIST") path w.manager in
      elim acquired [
        | none ↦ (record w { manager = m }, false)
        | some r ↦
            let (m1, relay) = o.between (m, w.relay) in
            let (w', started) = start_session o.launch (player_url w.opts.player_port) path relay in
            elim started [
              | err _ ↦
                  let (m', back) = release r (m1, w') in
                  (record w { manager = m'; relay = back }, false)
              | ok _ ↦ (
                record w {
                  stream = record w.stream {
                    active = true;
                    active_slot = some r;
                    active_path = path;
                  };
                  manager = m1;
                  relay = w';
                },
                true,
              )
            ]
      ]

  unfoldable pub note_cname : Text → World F → World F
  note_cname cname w =
      if not (cname == []) then record w { stream = record w.stream { last_cname = cname } } else w

  module _ ⦃fl : Floats F⦄ where
    unfoldable pub report : Time → StatsMetric F → World F → World F
    report now metric w =
        let m1 = touch now w.manager in
        let m2 = if ltb_ℤ (pos 0) metric.rtt_ms then set_rtt (fl.of_int metric.rtt_ms) m1 else m1 in
        record w {
          manager =
              if ltb_ℤ (pos 0) metric.bitrate_kbps
              then set_bitrate now metric.bitrate_kbps m2
              else m2;
        }

    -- Step 2 and 3 of handleActivity.
    unfoldable pub accept : Time → Opening F → Text → StatsMetric F → World F → World F
    unfolding claim report
    accept now o path metric w =
        let (u, goes_on) = claim now o path w in
        if w.stream.active then report now metric w else if goes_on then report now metric u else u

    unfoldable pub handle_activity : Time → Opening F → Launch → StatsMetric F → World F → World F
    unfolding stream_path reject resync accept
    handle_activity now o relaunch metric w0 =
        let w = record w0 { stream = record w0.stream { last_activity = now } } in
        let path = stream_path w.opts.allowed_paths w.stream in
        if not (is_allowed path w.opts.allowed_paths)
        then reject now relaunch w
        else accept now o path metric (resync w)

    unfoldable pub handle_log_line :
        Parsers F → Time → Opening F → Launch → Text → World F → World F
    unfolding note_cname handle_activity stop_active_stream
    handle_log_line ps now o relaunch line w =
        let metric = parse_log_line ps line in
        let v = note_cname metric.cname w in
        if metric.disconnected
          || contains line (codes "is dead")
          || contains line (codes "timed out")
        then stop_active_stream v
        else if metric.connected
            || metric.has_stats
            || contains line (codes "Starting data output thread")
            || contains line (codes "Flow")
        then handle_activity now o relaunch metric v
        else v

  unfoldable pub heartbeat_tick : Time → World F → World F
  unfolding stop_active_stream
  heartbeat_tick now w =
      let silence = since now w.stream.last_activity in
      let fresh = w.stream.active && leb silence activity_freshness in
      let stale = w.stream.active && ltb stale_disconnect_threshold silence in
      if stale
      then stop_active_stream w
      else if fresh && is_running w.relay.0
      then record w { manager = touch now w.manager }
      else w

  -- reapProcess after an unexpected exit, up to its sleep: the delay, unless the server is closed.
  unfoldable pub tear_down : World F → World F × Option ℤ
  unfolding stop_active_stream
  tear_down w =
      let v = stop_active_stream w in
      let (s, delay) = count_attempt v.receiver.0 in
      if w.receiver.0.cancelled
      then (w, none)
      else (record v { receiver = (s, v.receiver.1) }, some delay)

  unfoldable pub close : World F → World F
  unfolding stop_active_stream
  close w = stop_active_stream (record w { receiver = close_receiver w.receiver })
