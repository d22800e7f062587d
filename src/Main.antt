-- ===== src/Main.antt =====
-- cmd/server/main.go: the servers are started one after the other, and closed after a signal. The
-- answers of the system are an argument; what the adapters do in between is that of System.antt.
pub mod Shutdown
pub mod Fatal
mod Tests
use irl_universal_ingest.Prelude.{[], ◌++◌, Option, none, some, Text, pos}
use irl_universal_ingest.Go.Strings.{codes}
use irl_universal_ingest.Config.{Config}
use irl_universal_ingest.Health.{Tracker, new_tracker}
use irl_universal_ingest.Machine.{Machine}
use irl_universal_ingest.Rtmp.Server as Rtmp
use irl_universal_ingest.Srt.Ports as SrtPorts
use irl_universal_ingest.Srt.Server as Srt
use irl_universal_ingest.Srt.Server.Lifecycle as SrtLifecycle
use irl_universal_ingest.Rist.Options as RistOptions
use irl_universal_ingest.Rist.Receiver as Rist
use irl_universal_ingest.Stats.Listener as Stats

-- The tracker is one object that the SRT server, the RIST server and the stats server share; `rist`
-- is the receiver's supervisor with its processes.
pub record App : Type 0 where
  pub rtmp : Rtmp.Server
  pub srt : Srt.Server
  pub rist : Rist.Supervisor × Rist.System
  pub stats : Stats.Server
  pub machine : Machine
  pub health : Option Tracker

pub record Answers : Type 0 where
  pub rtmp_listen : Option Text
  pub srt : Srt.Answers
  pub ristreceiver : Option Text
  pub rist_launch : Rist.Launch
  pub stats_listen : Option Text

-- log.Fatalf ends the process where it stands, or main waits for a signal.
pub data Startup : Type 0 where
  fatal : Text → App → Startup
  ready : App → Startup

unfoldable pub srt_options : Config → SrtPorts.ServerOptions
srt_options cfg = record {
  srt_port = cfg.srt.port;
  srtla_port = cfg.srtla.port;
  player_port = cfg.srt.player_port;
  http_port = cfg.srt.http_port;
  latency_ms = cfg.srt.latency_ms;
  latency_max_ms = cfg.srt.latency_max_ms;
  idle_timeout_sec = cfg.srt.idle_timeout_sec;
  passphrase = cfg.srt.passphrase;
  log_level = cfg.log_level;
  allowed_paths = cfg.auth.allowed_paths;
}

-- The player's port is left to NewServer.
unfoldable pub rist_options : Config → RistOptions.ServerOptions
unfolding RistOptions.with_defaults
rist_options cfg = RistOptions.with_defaults (record {
  rist_port = cfg.rist.port;
  player_port = pos 0;
  buffer_ms = cfg.rist.buffer_ms;
  profile = cfg.rist.profile;
  secret = cfg.rist.secret;
  log_level = cfg.log_level;
  allowed_paths = cfg.auth.allowed_paths;
})

-- Before any server is started, on a machine and the receiver's side of the system.
unfoldable pub new_app : Config → Machine → Rist.System → App
unfolding new_tracker Rtmp.new_server Srt.new_server Rist.new_supervisor Stats.new_server
new_app cfg m y = record {
  rtmp = Rtmp.new_server cfg.rtmp.port;
  srt = Srt.new_server (srt_options cfg);
  rist = (Rist.new_supervisor (some new_tracker), y);
  stats = Stats.new_server cfg.stats_port;
  machine = m;
  health = some new_tracker;
}

unfoldable pub start_rtmp : Answers → App → App × Option Text
unfolding Rtmp.start
start_rtmp a w =
    let ((s, ps), e) = Rtmp.start a.rtmp_listen (w.rtmp, w.machine.listeners) in
    (record w { rtmp = s; machine = record w.machine { listeners = ps } }, e)

abbrev pub srt_view : App → Srt.World
srt_view w = record { server = w.srt; machine = w.machine; health = w.health; polled = [] }

abbrev pub from_srt : Srt.World → App → App
from_srt v w = record w { srt = v.server; machine = v.machine; health = v.health }

unfoldable pub start_srt : Answers → App → App × Option Text
unfolding SrtLifecycle.start
start_srt a w = let (v, e) = SrtLifecycle.start a.srt (srt_view w) in (from_srt v w, e)

unfoldable pub start_rist : Answers → App → App × Option Text
unfolding Rist.start
start_rist a w =
    let s = record w.rist.0 { health = w.health } in
    let ((s', y'), e) = Rist.start a.ristreceiver a.rist_launch (s, w.rist.1) in
    (record w { rist = (s', y'); health = s'.health }, e)

unfoldable pub start_stats : Answers → App → App × Option Text
unfolding Stats.start
start_stats a w =
    let ((s, ps), e) = Stats.start a.stats_listen (w.stats, w.machine.listeners) in
    (record w { stats = s; machine = record w.machine { listeners = ps } }, e)

-- One server is started, and the rest of main goes on unless that fails.
unfoldable pub then_or_fatal : Text → App × Option Text → (App → Startup) → Startup
then_or_fatal message (w, none) rest = rest w
then_or_fatal message (w, some e) rest = fatal (message ++ e) w

abbrev pub failure : Text → Text
failure server = codes "[main] failed to start " ++ (server ++ codes " server: ")

abbrev pub go_on_stats : Answers → App → Startup
go_on_stats a w = then_or_fatal (failure (codes "stats")) (start_stats a w) ready

abbrev pub go_on_rist : Answers → App → Startup
go_on_rist a w = then_or_fatal (failure (codes "RIST")) (start_rist a w) (go_on_stats a)

abbrev pub go_on_srt : Answers → App → Startup
go_on_srt a w = then_or_fatal (failure (codes "SRT")) (start_srt a w) (go_on_rist a)

unfoldable pub startup : Config → Answers → Machine → Rist.System → Startup
unfolding then_or_fatal start_rtmp start_srt start_rist start_stats new_app
startup cfg a m y =
    then_or_fatal (failure (codes "RTMP")) (start_rtmp a (new_app cfg m y)) (go_on_srt a)

-- After the signal, up to the relay's StopSession.
unfoldable pub shutdown : App → App
unfolding Rtmp.close SrtLifecycle.close Rist.close_receiver Stats.shutdown
shutdown w =
    let (rtmp, ps) = Rtmp.close (w.rtmp, w.machine.listeners) in
    let v =
      SrtLifecycle.close (record (srt_view w) { machine = record w.machine { listeners = ps } }) in
    let rist = Rist.close_receiver w.rist in
    let (stats, qs) = Stats.shutdown (w.stats, v.machine.listeners) in
    record {
      rtmp = rtmp;
      srt = v.server;
      rist = rist;
      stats = stats;
      machine = record v.machine { listeners = qs };
      health = v.health;
    }
